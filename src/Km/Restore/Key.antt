-- ===== src/Km/Restore/Key.antt =====
-- Which key `restore` reads from a row.
use sec_pro_gis.Base.{
  ℕ, suc, ◌*◌, ◌/◌, ◌≤◌, ◌<◌, Bool, false, Option, none, some, List, [], ◌∷◌, ◌++◌,
}
use sec_pro_gis.Base.{length, take, replicate, get_or, ltb, if◌then◌else◌, ℤ, pos, negsuc, IsBytes}
use sec_pro_gis.Base.{◌≡◌, refl, sym, ap, ap₂, ◌∙◌, subst, arith, take-append_at, take_all, le→ltb}
use sec_pro_gis.Hex.{sprint_hex, parse_hex, parse_hex-sprint_hex, length-sprint_hex}
use sec_pro_gis.Word.{
  Word, empty, read_in, read_bytes, allocate, get_cont_max, filled, is_one, isempty, isempty_code,
  none_long, copy_content,
}
use sec_pro_gis.Word.Value.{word_of, word_of-filled}
use sec_pro_gis.Table.{Row, row_read_in, read_row, empty_row}
use sec_pro_gis.Table.Order.{text, cell_at-row_read_in}
use sec_pro_gis.Text.{or_empty}
use sec_pro_gis.Km.{Serv, is_zero}
use sec_pro_gis.Km.Restore.{or_word, word_at, key_bytes, restore_members, restore_row}

-- The row that a query reads.
abbrev pub row_of : List (Option (List ℕ)) → Row
row_of row = (row_read_in empty_row (some row) (pos (length row))).0

word_at-row_of :
    (row : List (Option (List ℕ))) (j : ℕ)
    → j < length row
    → word_at (row_of row) j ≡ word_of (text (get_or row j none))
unfolding word_at or_word
word_at-row_of row j h = ap or_word (cell_at-row_read_in empty_row row j h)

-- The word of the hexadecimal key gives the key back.
key_bytes-word_of :
    (key : List ℕ) → 0 < length key → IsBytes key → key_bytes (word_of (sprint_hex key)) ≡ key
unfolding key_bytes or_empty
key_bytes-word_of key ne bytes =
    let hex = sprint_hex key in
    let size = length-sprint_hex key in
    let get : Word → List ℕ = λ w. parse_hex (take (w.len / 2 * 2) (or_empty w.content)) in
    ap get (word_of-filled hex (omega (arith, size)))
    ∙ ap (λ (n : ℕ). parse_hex (take n (hex ++ replicate 3 0))) {x = length hex / 2 * 2}
        {y = length hex} (omega (arith, size))
    ∙ ap parse_hex (take-append_at (length hex) hex (replicate 3 0) refl)
    ∙ parse_hex-sprint_hex key bytes

-- The members after the assignments, from strings that are not empty.
pub restore_members-word_of :
    (s : Serv) (p key e : List ℕ)
    → 0 < length p
    → 0 < length key
    → 0 < length e
    → let r = restore_members s (word_of p) key (length key) (word_of e) in
      (r.0 ≡ pos 0) × (r.1.md5_plaint ≡ word_of p) × (r.1.skey ≡ word_of key)
unfolding restore_members read_in read_bytes word_of allocate get_cont_max filled is_one isempty
    isempty_code none_long copy_content is_zero empty
restore_members-word_of s [] key e hp hk he = absurd (omega arith)
restore_members-word_of s (x ∷ p) [] e hp hk he = absurd (omega arith)
restore_members-word_of s (x ∷ p) (k ∷ key) [] hp hk he = absurd (omega arith)
restore_members-word_of s (x ∷ p) (k ∷ key) (y ∷ e) hp hk he =
    let at_start = take-append_at (suc (length p)) (x ∷ p) (replicate 3 0) refl in
    (
      refl,
      ap (λ (b : List ℕ). record { content = some (b ++ replicate 3 0); len = suc (length p) })
          at_start,
      ap (λ (b : List ℕ). record { content = some (b ++ replicate 3 0); len = suc (length key) })
          (take_all (suc (length key)) (k ∷ key) (omega arith)),
    )

size-row_of : (row : List (Option (List ℕ))) → 0 < length row → (row_of row).size ≡ length row
unfolding row_read_in read_row
size-row_of [] h = absurd (omega arith)
size-row_of (c ∷ row) h = refl

-- `restore` works on the words of the columns 1, 3 and 4.
pub restore_row_members :
    (s : Serv) (row : List (Option (List ℕ))) (hex : List ℕ)
    → 5 ≤ length row
    → get_or row 3 none ≡ some hex
    → restore_row s (row_of row)
      ≡ restore_members s
          (word_of (text (get_or row 1 none)))
          (key_bytes (word_of hex))
          ((word_of hex).len / 2)
          (word_of (text (get_or row 4 none)))
unfolding restore_row text
restore_row_members s row hex size at =
    let first = word_of (text (get_or row 1 none)) in
    let last = word_of (text (get_or row 4 none)) in
    let third : word_at (row_of row) 3 ≡ word_of hex =
      word_at-row_of row 3 (omega arith) ∙ ap (λ (o : Option (List ℕ)). word_of (text o)) at in
    let from : Word → List ℕ → ℕ → Word → ℤ × Serv = restore_members s in
    ap
      (λ (b : Bool).
        if b
        then (negsuc 2, s)
        else from (word_at (row_of row) 1) (key_bytes (word_at (row_of row) 3))
            ((word_at (row_of row) 3).len / 2) (word_at (row_of row) 4))
      {x = ltb (row_of row).size 5} {y = false}
      (le→ltb (row_of row).size 5
        (subst (λ (n : ℕ). 5 ≤ n) (sym (size-row_of row (omega arith))) size))
    ∙ ap₂
        (λ (a b : Word).
          from a (key_bytes (word_at (row_of row) 3)) ((word_at (row_of row) 3).len / 2) b)
        (word_at-row_of row 1 (omega arith)) (word_at-row_of row 4 (omega arith))
    ∙ ap (λ (w : Word). from first (key_bytes w) (w.len / 2) last) third

-- From a row of five columns or more whose columns 1 and 4 are not empty and whose column 3 is the
-- hexadecimal text of a key of at least one byte, `restore` succeeds; the key that it then holds is
-- that key, and the digest of the plain file is column 1.
pub restore_row-key :
    (s : Serv) (row : List (Option (List ℕ))) (key : List ℕ)
    → 5 ≤ length row
    → 0 < length (text (get_or row 1 none))
    → get_or row 3 none ≡ some (sprint_hex key)
    → 0 < length key
    → IsBytes key
    → 0 < length (text (get_or row 4 none))
    → let r = restore_row s (row_of row) in
      (r.0 ≡ pos 0)
      × (r.1.md5_plaint ≡ word_of (text (get_or row 1 none)))
      × (r.1.skey ≡ word_of key)
restore_row-key s row key size plain hex ne bytes expire =
    let first = text (get_or row 1 none) in
    let last = text (get_or row 4 none) in
    let half : (word_of (sprint_hex key)).len / 2 ≡ length key =
      ap (λ (w : Word). w.len / 2)
        (word_of-filled (sprint_hex key) (omega (arith, length-sprint_hex key)))
      ∙ omega (arith, length-sprint_hex key) in
    subst
      (λ (r : ℤ × Serv).
        (r.0 ≡ pos 0) × (r.1.md5_plaint ≡ word_of first) × (r.1.skey ≡ word_of key))
      (sym (
        restore_row_members s row (sprint_hex key) size hex
        ∙ ap₂ (λ (b : List ℕ) (n : ℕ). restore_members s (word_of first) b n (word_of last))
            (key_bytes-word_of key ne bytes) half))
      (restore_members-word_of s first key last plain ne expire)
