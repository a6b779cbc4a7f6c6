-- ===== src/Text.antt =====
-- C strings out of words and tables, and the numbers that `_ttoi` reads.
pub mod Cells
use sec_pro_gis.Base.{
  ℕ, zero, suc, ◌+◌, ◌-◌, ◌*◌, ◌^◌, min, Bool, true, false, ◌&&◌, Option, none, some, List, [], ◌∷◌,
}
use sec_pro_gis.Base.{
  leb, ltb, length, negsuc, ◌∙◌, sym, Bool-cases, inl, inr, ◌==◌, if◌then◌else◌, ◌>>=◌, ℤ, pos, neg,
}
use sec_pro_gis.Base.{◌≡◌, refl, ap, ap₂, arith, ==_iff}
use sec_pro_gis.Word.{Word}
use sec_pro_gis.Table.{Table, row_at, cell_at}

-- The bytes before the zero that ends a string.
unfoldable pub before_zero : List ℕ → List ℕ
before_zero [] = []
before_zero (zero ∷ s) = []
before_zero (suc c ∷ s) = suc c ∷ before_zero s

-- `get_cont()` as a string: a null pointer is `none`.
unfoldable pub c_str : Word → Option (List ℕ)
c_str w = string w.content
  where
    string : Option (List ℕ) → Option (List ℕ)
    string none = none
    string (some content) = some (before_zero content)

-- `table[i][j].get_cont()`: `none` where it is null, or there is no such cell.
unfoldable pub cell_str : Table → ℤ → ℤ → Option (List ℕ)
cell_str t i j = row_at t i >>= λ row. cell_at row j >>= c_str

-- `strcmp(a, b) == 0`
unfoldable pub same : List ℕ → List ℕ → Bool
same [] [] = true
same [] (y ∷ ys) = false
same (x ∷ xs) [] = false
same (x ∷ xs) (y ∷ ys) = x == y && same xs ys

-- The digits that `_ttoi` reads, up to the largest `int`.
unfoldable pub read_digits : ℕ → List ℕ → ℕ
read_digits acc [] = acc
read_digits acc (c ∷ s) =
    let rest = read_digits (min (acc * 10 + (c - 48)) (2 ^ 31 - 1)) s in
    if leb 48 c && leb c 57 then rest else acc

-- `_ttoi`, without blanks in front.
unfoldable pub ttoi : List ℕ → ℤ
ttoi [] = pos 0
ttoi (c ∷ s) =
    if c == 45
    then neg (read_digits 0 s)
    else if c == 43
    then pos (read_digits 0 s)
    else pos (read_digits 0 (c ∷ s))

-- `sprintf_s` into `size` characters.
unfoldable pub sprintf : ℕ → List ℕ → Option (List ℕ)
sprintf size s = if ltb (length s) size then some s else none

-- A result of `exec_query_mysql` that is -3.
unfoldable pub no_server : ℤ → Bool
no_server (pos n) = false
no_server (negsuc n) = n == 2

pub and-true : (a b : Bool) → (a && b) ≡ true → (a ≡ true) × (b ≡ true)
and-true true b h = (refl, h)
and-true false b h = absurd (ground (arith, h))

pub same-eq : (xs ys : List ℕ) → same xs ys ≡ true → xs ≡ ys
unfolding same
same-eq [] [] h = refl
same-eq [] (y ∷ ys) h = absurd (ground (arith, h))
same-eq (x ∷ xs) [] h = absurd (ground (arith, h))
same-eq (x ∷ xs) (y ∷ ys) h =
    let both = and-true (x == y) (same xs ys) h in
    ap₂ ◌∷◌ ((==_iff x y).0 both.0) (same-eq xs ys both.1)

pub same_refl : (xs : List ℕ) → same xs xs ≡ true
unfolding same
same_refl [] = refl
same_refl (x ∷ xs) = rw ((==_iff x x).1 refl) (same_refl xs)

is_some : Option (List ℕ) → Bool
is_some none = false
is_some (some x) = true

unfoldable pub or_empty : Option (List ℕ) → List ℕ
or_empty none = []
or_empty (some x) = x

pub sprintf-eq : (size : ℕ) (s t : List ℕ) → sprintf size s ≡ some t → s ≡ t
unfolding sprintf is_some or_empty
sprintf-eq size s t h = elim (Bool-cases (ltb (length s) size)) [
  | inl e ↦ ap or_empty (sym (ap (λ (b : Bool). if b then some s else none) e) ∙ h)
  | inr e ↦
      absurd
        (ground (arith, ap is_some (sym (ap (λ (b : Bool). if b then some s else none) e) ∙ h)))
]
