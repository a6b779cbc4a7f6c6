-- ===== src/Table/Copy.antt =====
-- The copy of a row that was read.
use sec_pro_gis.Base.{
  ℕ, suc, ◌<◌, Option, some, List, [], ◌∷◌, map, length, take, take_all, length-take, pos,
}
use sec_pro_gis.Base.{◌≡◌, refl, sym, ap, ap₂, ◌∙◌, arith}
use sec_pro_gis.Word.{Word, empty, assign, is_one, none_long}
use sec_pro_gis.Word.Value.{copy-word_of}
use sec_pro_gis.Table.{
  Row, read_cell, read_row, row_read_in, row_isempty, row_isempty_code, copy_cells, row_copy,
}
use sec_pro_gis.Table.Order.{text, read_cell-word_of, length-map}

-- A cell that was read comes back from an assignment.
assign-read_cell : (s : Option (List ℕ)) → assign empty (read_cell s) ≡ read_cell s
assign-read_cell s =
    ap (assign empty) (read_cell-word_of s)
    ∙ (copy-word_of empty (text s)).1
    ∙ sym (read_cell-word_of s)

assign-read_cells :
    (row : List (Option (List ℕ))) → map (assign empty) (map read_cell row) ≡ map read_cell row
assign-read_cells [] = refl
assign-read_cells (s ∷ row) = ap₂ ◌∷◌ (assign-read_cell s) (assign-read_cells row)

-- The copy of a row that `read_in` has read from one string or more is the same row, whatever was in the
-- memory of the copy.
pub row_copy-row_read_in :
    (memory r : Row) (row : List (Option (List ℕ)))
    → 0 < length row
    → let read = (row_read_in r (some row) (pos (length row))).0 in row_copy memory read ≡ read
unfolding row_copy row_isempty row_isempty_code copy_cells row_read_in read_row none_long is_one
row_copy-row_read_in memory r [] h = absurd (omega arith)
row_copy-row_read_in memory r (c ∷ row) h =
    let n = length row in
    let cells = map read_cell (take n row) in
    ap (λ (rest : List Word). record { cell = some rest; size = suc n })
      (ap₂ ◌∷◌ (assign-read_cell c) (
        ap (map (assign empty))
          (take_all n cells (omega (arith, length-map read_cell (take n row), length-take n row)))
        ∙ assign-read_cells (take n row)))
