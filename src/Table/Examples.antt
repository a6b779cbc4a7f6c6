-- ===== src/Table/Examples.antt =====
-- A result of two rows.
use sec_pro_gis.Base.{ℕ, ◌-◌, Option, none, some, List, [], ◌∷◌, ◌≡◌, ◌>>=◌, arith, length, get_or}
use sec_pro_gis.Base.{pos, negsuc}
use sec_pro_gis.Word.Value.{word_of}
use sec_pro_gis.Table.{Row, empty_row, row_read_in, cell_at, empty_table, row_at}
use sec_pro_gis.Table.Order.{append_all, text, row_at-append_all, table_cell}

abbrev two_rows : List (List (Option (List ℕ)))
two_rows = (some (49 ∷ []) ∷ none ∷ []) ∷ (some (50 ∷ 51 ∷ []) ∷ some [] ∷ []) ∷ []

abbrev row_in : ℕ → Row
row_in i =
    (row_read_in empty_row (some (get_or two_rows i [])) (pos (length (get_or two_rows i [])))).0

row_at-append_all_example :
    (row_at (append_all empty_table two_rows) (pos 0) ≡ some (row_in 0))
    × (row_at (append_all empty_table two_rows) (negsuc 0)
        ≡ some (row_in (length two_rows - 1 - 0)))
    × ((append_all empty_table two_rows).size ≡ length two_rows)
row_at-append_all_example = row_at-append_all two_rows 0 (omega arith)

table_cell_example :
    (row_at (append_all empty_table two_rows) (pos 1) >>= λ row. cell_at row (pos 0))
    ≡ some (word_of (text (get_or (get_or two_rows 1 []) 0 none)))
table_cell_example = table_cell two_rows 1 0 (omega arith) (omega arith)
