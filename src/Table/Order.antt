-- ===== src/Table/Order.antt =====
-- What a table gives back: the rows in the order in which they were appended, and the strings of
-- their cells.
use sec_pro_gis.Base.{◌>>=◌, ℕ, zero, suc, ◌+◌, ◌-◌, ◌<◌, Option, none, some, List, [], ◌∷◌, map}
use sec_pro_gis.Base.{
  length, take, get_elem?, get_or, take_all, ℤ, pos, negsuc, wrap, wrap-pos, wrap-negsuc,
}
use sec_pro_gis.Base.{◌≡◌, refl, sym, ap, ap₂, ◌∙◌, arith}
use native.Mathlib.Nat.{mod-eq_of_lt}
use sec_pro_gis.Word.{Word, empty}
use sec_pro_gis.Word.Value.{word_of, read_in-word_of, read_in-nothing}
use sec_pro_gis.Table.{
  Row, empty_row, read_cell, read_row, row_read_in, cell_at, Table, empty_table, append, row_at,
}

-- The rows of a result appended one by one, as `exec_query_mysql` does.
unfoldable pub append_all : Table → List (List (Option (List ℕ))) → Table
append_all t [] = t
append_all t (row ∷ rows) = append_all (append t (some row) (pos (length row))).0 rows

-- The string of a cell: a null pointer stands for the empty one.
unfoldable pub text : Option (List ℕ) → List ℕ
text none = []
text (some s) = s

row_of : List (Option (List ℕ)) → Row
row_of row = (row_read_in empty_row (some row) (pos (length row))).0

rev_onto : List Row → List Row → List Row
rev_onto [] acc = acc
rev_onto (x ∷ xs) acc = rev_onto xs (x ∷ acc)

append_all-rows :
    (t : Table) (rows : List (List (Option (List ℕ))))
    → ((append_all t rows).rows ≡ rev_onto (map row_of rows) t.rows)
      × ((append_all t rows).size ≡ length rows + t.size)
unfolding append_all append rev_onto row_of
append_all-rows t [] = (refl, omega arith)
append_all-rows t (row ∷ rows) =
    let next = append_all-rows (append t (some row) (pos (length row))).0 rows in
    (next.0, next.1 ∙ omega arith)

pub size-append_all :
    (rows : List (List (Option (List ℕ)))) → (append_all empty_table rows).size ≡ length rows
unfolding empty_table
size-append_all rows = (append_all-rows empty_table rows).1 ∙ omega arith

elem-rev_onto_past :
    (xs acc : List Row) (m : ℕ) → get_elem? (rev_onto xs acc) (length xs + m) ≡ get_elem? acc m
unfolding rev_onto
elem-rev_onto_past [] acc m = ap (get_elem? acc) {x = 0 + m} {y = m} (omega arith)
elem-rev_onto_past (x ∷ xs) acc m =
    ap (get_elem? (rev_onto xs (x ∷ acc))) {x = suc (length xs) + m} {y = length xs + suc m}
      (omega arith)
    ∙ elem-rev_onto_past xs (x ∷ acc) (suc m)

elem-rev_onto :
    (xs acc : List Row) (i : ℕ)
    → i < length xs
    → get_elem? (rev_onto xs acc) (length xs - 1 - i) ≡ get_elem? xs i
unfolding rev_onto
elem-rev_onto [] acc i h = absurd (omega arith)
elem-rev_onto (x ∷ xs) acc zero h =
    ap (get_elem? (rev_onto xs (x ∷ acc))) {x = suc (length xs) - 1 - 0} {y = length xs + 0}
      (omega arith)
    ∙ elem-rev_onto_past xs (x ∷ acc) 0
elem-rev_onto (x ∷ xs) acc (suc i) h =
    ap (get_elem? (rev_onto xs (x ∷ acc))) {x = suc (length xs) - 1 - suc i} {y = length xs - 1 - i}
      (omega arith)
    ∙ elem-rev_onto xs (x ∷ acc) i (omega arith)

pub length-map : {A B : Type 0} (f : A → B) (xs : List A) → length (map f xs) ≡ length xs
length-map f [] = refl
length-map f (x ∷ xs) = ap suc (length-map f xs)

elem-map :
    {A B : Type 0} (f : A → B) (xs : List A) (i : ℕ) (d : A)
    → i < length xs
    → get_elem? (map f xs) i ≡ some (f (get_or xs i d))
elem-map f [] i d h = absurd (omega arith)
elem-map f (x ∷ xs) zero d h = refl
elem-map f (x ∷ xs) (suc i) d h = elem-map f xs i d (omega arith)

pub read_cell-word_of : (s : Option (List ℕ)) → read_cell s ≡ word_of (text s)
unfolding read_cell text
read_cell-word_of none = ap (λ (r : Word × ℕ). r.0) (read_in-nothing empty none (pos 0) 0).0
read_cell-word_of (some s) =
    ap (λ (r : Word × ℕ). r.0) (read_in-word_of empty s (length s) (omega arith))
    ∙ ap word_of (take_all (length s) s (omega arith))

-- `i` and `-(k + 1)` give the rows that were appended in these places, from the front and from the
-- end, and the size is the number of appends.
pub row_at-append_all :
    (rows : List (List (Option (List ℕ)))) (k : ℕ)
    → k < length rows
    → let t = append_all empty_table rows in
      let row_in : ℕ → Row = λ i.
        (row_read_in empty_row (some (get_or rows i [])) (pos (length (get_or rows i [])))).0 in
      (row_at t (pos k) ≡ some (row_in k))
      × (row_at t (negsuc k) ≡ some (row_in (length rows - 1 - k)))
      × (t.size ≡ length rows)
unfolding row_at row_of
row_at-append_all rows k h =
    let built = append_all-rows empty_table rows in
    let n = length rows in
    let size : (append_all empty_table rows).size ≡ n =
      built.1 ∙ (unfold empty_table in omega arith) in
    let back : ℕ → Option Row =
      λ i. get_elem? (rev_onto (map row_of rows) empty_table.rows) (n - 1 - i) in
    let found : (i : ℕ) → i < n → back i ≡ some (row_of (get_or rows i [])) = λ i p.
      ap (λ (t : ℕ). get_elem? (rev_onto (map row_of rows) empty_table.rows) (t - 1 - i))
        (sym (length-map row_of rows))
      ∙ elem-rev_onto (map row_of rows) empty_table.rows i (omega (arith, length-map row_of rows))
      ∙ elem-map row_of rows i [] p in
    let at : (i : ℤ) → row_at (append_all empty_table rows) i ≡ back (wrap i n) =
      λ i. ap₂ (λ (rs : List Row) (m : ℕ). get_elem? rs (m - 1 - wrap i m)) built.0 size in
    (
      at (pos k) ∙ ap back (wrap-pos k n ∙ mod-eq_of_lt h) ∙ found k h,
      at (negsuc k) ∙ ap back (wrap-negsuc k n h) ∙ found (n - 1 - k) (omega arith),
      size,
    )

-- A cell of a row that was read has the string of its column.
pub cell_at-row_read_in :
    (r : Row) (row : List (Option (List ℕ))) (j : ℕ)
    → j < length row
    → cell_at (row_read_in r (some row) (pos (length row))).0 (pos j)
      ≡ some (word_of (text (get_or row j none)))
unfolding cell_at row_read_in read_row
cell_at-row_read_in r [] j h = absurd (omega arith)
cell_at-row_read_in r (c ∷ row) j h =
    let cells = c ∷ row in
    let n = length cells in
    ap (get_elem? (map read_cell (take n cells))) (wrap-pos j n ∙ mod-eq_of_lt h)
    ∙ ap (λ (t : List (Option (List ℕ))). get_elem? (map read_cell t) j)
        (take_all n cells (omega arith))
    ∙ elem-map read_cell cells j none h
    ∙ ap some (read_cell-word_of (get_or cells j none))

-- `table[i][j]` of a result is the string of column `j` of the `i`th row that the server sent.
pub table_cell :
    (rows : List (List (Option (List ℕ)))) (i j : ℕ)
    → i < length rows
    → j < length (get_or rows i [])
    → (row_at (append_all empty_table rows) (pos i) >>= λ row. cell_at row (pos j))
      ≡ some (word_of (text (get_or (get_or rows i []) j none)))
table_cell rows i j hi hj =
    ap (λ (o : Option Row). o >>= λ row. cell_at row (pos j)) (row_at-append_all rows i hi).0
    ∙ cell_at-row_read_in empty_row (get_or rows i []) j hj
