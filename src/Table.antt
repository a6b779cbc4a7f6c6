-- ===== src/Table.antt =====
-- DBTable.cpp: the rows of a query's result. A row is an array of words, a table a linked list of
-- rows with the newest at its head. An index into a null or empty array is `none`.
pub mod Order
pub mod Copy
mod Examples
use sec_pro_gis.Base.{
  ℕ, zero, suc, ◌+◌, ◌-◌, Bool, true, false, Option, none, some, List, [], ◌∷◌, map,
}
use sec_pro_gis.Base.{length, take, get_elem?, ℤ, pos, negsuc, wrap, if◌then◌else◌}
use sec_pro_gis.Word.{Word, empty, read_in, none_long, is_one, assign}

-- `T_ROW`
pub record Row : Type 0 where
  pub cell : Option (List Word)
  pub size : ℕ

-- `T_ROW()`
unfoldable pub empty_row : Row
empty_row = record { cell = none; size = 0 }

-- The body of the loop of `read_in`: a cell of a fresh array reads a string, or a null pointer.
unfoldable pub read_cell : Option (List ℕ) → Word
read_cell none = (read_in empty none (pos 0)).0
read_cell (some s) = (read_in empty (some s) (pos (length s))).0

-- The branches of `T_ROW::read_in`.
unfoldable pub read_row : Row → Option (List (Option (List ℕ))) → ℤ → Row
read_row r src (negsuc n) = record { cell = none; size = 0 }
read_row r none (pos n) = record { cell = none; size = 0 }
read_row r (some src) (pos zero) = record { cell = none; size = 0 }
read_row r (some src) (pos (suc n)) = record {
  cell = some (map read_cell (take (suc n) src));
  size = suc n;
}

-- `T_ROW::read_in`: the row, and the size that it returns.
unfoldable pub row_read_in : Row → Option (List (Option (List ℕ))) → ℤ → Row × ℕ
row_read_in r src n = let r' = read_row r src n in (r', r'.size)

-- `T_ROW(src, _size)`: a result that is not zero is taken for a failure.
pub row_from : Option (List (Option (List ℕ))) → ℤ → Row
row_from src n = let (r, ret) = row_read_in empty_row src n in keep r ret
  where
    keep : Row → ℕ → Row
    keep r zero = r
    keep r (suc ret) = record { cell = none; size = 0 }

-- The tests of `T_ROW::isempty`, by the two members.
row_isempty_code : Bool → Option (List Word) → ℤ
row_isempty_code true none = pos 0
row_isempty_code true (some cells) = negsuc 0
row_isempty_code false none = negsuc 1
row_isempty_code false (some cells) = pos 1

-- `T_ROW::isempty`
pub row_isempty : Row → ℤ
row_isempty r = row_isempty_code (none_long r.size) r.cell

-- The loop of the copy constructor: cells of a fresh array, assigned one by one.
copy_cells : Option (List Word) → ℕ → Option (List Word)
copy_cells none n = none
copy_cells (some cells) n = some (map (assign empty) (take n cells))

-- `T_ROW(src_ob)`. The copy of an empty row keeps what is in its memory.
pub row_copy : Row → Row → Row
row_copy memory src =
    let copied : Row = record { cell = copy_cells src.cell src.size; size = src.size } in
    if is_one (row_isempty src) then copied else memory

-- `T_ROW::clear`
pub row_clear : Row → Row
row_clear r = record { cell = none; size = 0 }

-- `T_ROW::operator[]`
unfoldable pub cell_at : Row → ℤ → Option Word
cell_at r i = elem r.cell (wrap i r.size)
  where
    elem : Option (List Word) → ℕ → Option Word
    elem none j = none
    elem (some cells) j = get_elem? cells j

-- `_TABLE`, with the nodes of its list.
pub record Table : Type 0 where
  pub rows : List Row
  pub size : ℕ

-- `_TABLE()`, and a table after `clear`.
unfoldable pub empty_table : Table
empty_table = record { rows = []; size = 0 }

-- The tests of `isempty`, by the two members.
isempty_code : Bool → List Row → ℤ
isempty_code true [] = pos 0
isempty_code true (r ∷ rs) = negsuc 0
isempty_code false [] = negsuc 1
isempty_code false (r ∷ rs) = pos 1

-- `_TABLE::isempty`
pub table_isempty : Table → ℤ
table_isempty t = isempty_code (none_long t.size) t.rows

-- `_TABLE::append`: the table, and the result.
unfoldable pub append : Table → Option (List (Option (List ℕ))) → ℤ → Table × ℕ
append t src n =
    let (row, read_ret) = row_read_in empty_row src n in
    (record { rows = row ∷ t.rows; size = suc t.size }, 0)

-- `_TABLE::operator[]`
unfoldable pub row_at : Table → ℤ → Option Row
row_at t i = get_elem? t.rows (t.size - 1 - wrap i t.size)
