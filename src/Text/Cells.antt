-- ===== src/Text/Cells.antt =====
-- The strings that stand in the cells of a result.
use sec_pro_gis.Base.{
  ◌>>=◌, ℕ, zero, suc, ◌<◌, Option, none, some, List, [], ◌∷◌, ◌++◌, length, get_or, replicate, pos,
  All,
}
use sec_pro_gis.Base.{◌≡◌, refl, ap, ◌∙◌, arith}
use sec_pro_gis.Word.{Word, empty}
use sec_pro_gis.Word.Value.{word_of}
use sec_pro_gis.Table.{Row, empty_table, row_at, cell_at}
use sec_pro_gis.Table.Order.{append_all, text, table_cell}
use sec_pro_gis.Text.{before_zero, c_str, cell_str, or_empty}

pub before_zero-padding : (b : List ℕ) → All (λ c. 0 < c) b → before_zero (b ++ replicate 3 0) ≡ b
unfolding before_zero
before_zero-padding [] h = refl
before_zero-padding (zero ∷ b) h = absurd (omega (arith, h.0))
before_zero-padding (suc c ∷ b) h = ap (λ (t : List ℕ). suc c ∷ t) (before_zero-padding b h.1)

-- A word of a string without a zero gives the string back.
pub c_str-word_of : (b : List ℕ) → All (λ c. 0 < c) b → or_empty (c_str (word_of b)) ≡ b
unfolding c_str or_empty word_of empty
c_str-word_of [] h = refl
c_str-word_of (x ∷ b) h = before_zero-padding (x ∷ b) h

>>=_assoc :
    (o : Option Row) (f : Row → Option Word) (g : Word → Option (List ℕ))
    → (o >>= λ r. f r >>= g) ≡ ((o >>= f) >>= g)
>>=_assoc none f g = refl
>>=_assoc (some r) f g = refl

-- What stands in a cell of an answer.
pub cell_str-append_all :
    (rows : List (List (Option (List ℕ)))) (i j : ℕ)
    → i < length rows
    → j < length (get_or rows i [])
    → All (λ c. 0 < c) (text (get_or (get_or rows i []) j none))
    → or_empty (cell_str (append_all empty_table rows) (pos i) (pos j))
      ≡ text (get_or (get_or rows i []) j none)
unfolding cell_str
cell_str-append_all rows i j hi hj nonzero =
    let cell = get_or (get_or rows i []) j none in
    ap or_empty (
      >>=_assoc (row_at (append_all empty_table rows) (pos i)) (λ row. cell_at row (pos j)) c_str
      ∙ ap (λ (o : Option Word). o >>= c_str) (table_cell rows i j hi hj))
    ∙ c_str-word_of (text cell) nonzero
