-- ===== src/Word/Value.antt =====
-- A `BASE_WORD` as a string: the invariant that every operation keeps, and the bytes it stands for.
use sec_pro_gis.Base.{
  ℕ, zero, suc, ◌+◌, ◌-◌, ◌%◌, ◌≤◌, ◌<◌, Bool, true, Option, none, some, List, [], ◌∷◌, ◌++◌,
}
use sec_pro_gis.Base.{
  length, if◌then◌else◌, take, drop, replicate, ℤ, pos, negsuc, wrap, wrap-pos, wrap-negsuc,
}
use native.Mathlib.Nat.{mod-lt}
use sec_pro_gis.Base.{◌≡◌, refl, sym, ap, ◌∙◌, subst, arith, take-append_at, length-take, get_or}
use sec_pro_gis.Word.{
  Word, empty, isempty, filled, clear, read_in, get_cont, copy, assign, char_at, read_bytes,
  allocate, copy_content, isempty_code, is_one, none_long, content_at,
}

-- The word that stands for a string: nothing is allocated for the empty one, and three zeros stand
-- behind the bytes of another.
unfoldable pub word_of : List ℕ → Word
word_of [] = empty
word_of (x ∷ b) = record { content = some ((x ∷ b) ++ replicate 3 0); len = suc (length b) }

drop-replicate : (n m : ℕ) → drop {A = ℕ} n (replicate (n + m) 0) ≡ replicate m 0
drop-replicate zero m = ap (λ (t : ℕ). replicate {A = ℕ} t 0) {x = 0 + m} {y = m} (omega arith)
drop-replicate (suc n) m =
    ap (λ (t : ℕ). drop {A = ℕ} (suc n) (replicate t 0)) {x = suc n + m} {y = suc (n + m)}
      (omega arith)
    ∙ drop-replicate n m

-- `read_in` of the first `l` bytes of a segment gives the word of these bytes and their number,
-- whatever the word held, for every `l` that is not negative.
pub read_in-word_of :
    (w : Word) (src : List ℕ) (l : ℕ)
    → l ≤ length src
    → read_in w (some src) (pos l) ≡ (word_of (take l src), l)
unfolding read_in read_bytes word_of empty allocate
read_in-word_of w src zero h = refl
read_in-word_of w [] (suc l) h = absurd (omega arith)
read_in-word_of w (x ∷ src) (suc l) h =
    ap
      (λ (n : ℕ).
        (record { content = some (take (suc l) (x ∷ src) ++ replicate 3 0); len = suc n }, suc l))
      {x = l} {y = length (take l src)} (omega (arith, length-take l src))

-- `read_in` of nothing, or of a length that is not positive, empties the word and returns 0.
pub read_in-nothing :
    (w : Word) (src : Option (List ℕ)) (l : ℤ) (n : ℕ)
    → (read_in w none l ≡ (word_of [], 0)) × (read_in w src (negsuc n) ≡ (word_of [], 0))
unfolding read_in read_bytes word_of empty
read_in-nothing w src (pos k) n = (refl, refl)
read_in-nothing w src (negsuc k) n = (refl, refl)

pub word_of-filled :
    (b : List ℕ)
    → 0 < length b
    → word_of b ≡ record { content = some (b ++ replicate 3 0); len = length b }
unfolding word_of
word_of-filled [] h = absurd (omega arith)
word_of-filled (x ∷ b) h = refl

-- `get_cont` writes a string that is not empty to the start of a buffer and returns 0; a word of the
-- empty string gives -1, and leaves the buffer.
pub get_cont-word_of :
    (x : ℕ) (b dest : List ℕ)
    → (get_cont (word_of (x ∷ b)) (some dest)
        ≡ (pos 0, some ((x ∷ b) ++ drop (length (x ∷ b)) dest)))
      × (get_cont (word_of []) (some dest) ≡ (negsuc 0, some dest))
unfolding get_cont filled isempty word_of empty copy_content isempty_code is_one none_long
get_cont-word_of x b dest = (
  ap (λ (t : List ℕ). (pos 0, some (x ∷ (t ++ drop (suc (length b)) dest))))
      (take-append_at (length b) b (replicate 3 0) refl),
  refl,
)

pub get_cont_filled :
    (b dest : List ℕ)
    → 0 < length b
    → get_cont (word_of b) (some dest) ≡ (pos 0, some (b ++ drop (length b) dest))
get_cont_filled [] dest h = absurd (omega arith)
get_cont_filled (x ∷ b) dest h = (get_cont-word_of x b dest).0

pub filled-word_of : (x : ℕ) (b : List ℕ) → filled (word_of (x ∷ b)) ≡ true
unfolding filled isempty word_of isempty_code is_one none_long
filled-word_of x b = refl

len-word_of : (b : List ℕ) → (word_of b).len ≡ length b
unfolding word_of empty
len-word_of [] = refl
len-word_of (x ∷ b) = refl

copy_filled : (x : ℕ) (b : List ℕ) → copy (word_of (x ∷ b)) ≡ word_of (x ∷ b)
unfolding copy
copy_filled x b =
    let w = word_of (x ∷ b) in
    let from : ℕ → Word =
      λ n. record { content = (get_cont w (some (replicate (n + 3) 0))).1; len = n } in
    ap (λ (t : Bool). if t then from w.len else empty) (filled-word_of x b)
    ∙ ap from (len-word_of (x ∷ b))
    ∙ ap (λ (r : ℤ × Option (List ℕ)). record { content = r.1; len = length (x ∷ b) })
        (get_cont-word_of x b (replicate (length (x ∷ b) + 3) 0)).0
    ∙ ap (λ (t : List ℕ). record { content = some ((x ∷ b) ++ t); len = length (x ∷ b) })
        (drop-replicate (length (x ∷ b)) 3)
    ∙ unfold word_of in refl

-- A copy stands for the same string, with a buffer of its own of the same contents; so does a word
-- that is assigned, whatever it held.
pub copy-word_of :
    (w : Word) (b : List ℕ) → (copy (word_of b) ≡ word_of b) × (assign w (word_of b) ≡ word_of b)
unfolding assign
copy-word_of w [] = (
  unfold copy word_of empty filled isempty isempty_code is_one none_long in refl,
  unfold word_of empty clear filled isempty isempty_code is_one none_long in refl,
)
copy-word_of w (x ∷ b) = (
  copy_filled x b,
  ap (λ (t : Bool). if t then copy (word_of (x ∷ b)) else clear w) (filled-word_of x b)
      ∙ copy_filled x b,
)

get_or-append : (b c : List ℕ) (i : ℕ) → i < length b → get_or (b ++ c) i 0 ≡ get_or b i 0
get_or-append [] c i h = absurd (omega arith)
get_or-append (x ∷ b) c zero h = refl
get_or-append (x ∷ b) c (suc i) h = get_or-append b c i (omega arith)

char_at-wrap :
    (b : List ℕ) (i : ℤ)
    → wrap i (length b) < length b
    → char_at (word_of b) i ≡ get_or b (wrap i (length b)) 0
unfolding char_at content_at word_of filled isempty isempty_code is_one none_long
char_at-wrap [] i h = absurd (omega arith)
char_at-wrap (x ∷ b) i h = get_or-append (x ∷ b) (replicate 3 0) (wrap i (length (x ∷ b))) h

-- `operator[]` counts from the end for a negative index, and goes round past the last byte.
pub char_at-word_of :
    (b : List ℕ) (i k : ℕ)
    → k < length b
    → (char_at (word_of b) (pos i) ≡ get_or b (i % length b) 0)
      × (char_at (word_of b) (negsuc k) ≡ get_or b (length b - 1 - k) 0)
char_at-word_of b i k h =
    let n = length b in
    let up = wrap-pos i n in
    let down = wrap-negsuc k n h in
    (
      char_at-wrap b (pos i) (subst (λ (t : ℕ). t < n) (sym up) (mod-lt i (omega arith)))
          ∙ ap (λ (t : ℕ). get_or b t 0) up,
      char_at-wrap b (negsuc k) (subst (λ (t : ℕ). t < n) (sym down) (omega arith))
          ∙ ap (λ (t : ℕ). get_or b t 0) down,
    )
