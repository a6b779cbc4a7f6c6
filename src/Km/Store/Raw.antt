-- ===== src/Km/Store/Raw.antt =====
-- What `restore` makes of the key that `store` prints.
use sec_pro_gis.Base.{ℕ, ◌*◌, ◌/◌, ◌≤◌, ◌<◌, Option, none, some, List, [], ◌∷◌, ◌++◌}
use sec_pro_gis.Base.{length, take, replicate, get_or, ℤ, pos, All, length-take, length-append}
use sec_pro_gis.Base.{◌≡◌, ◌≢◌, sym, ap, ◌∙◌, subst, arith}
use sec_pro_gis.Hex.{parse_hex}
use sec_pro_gis.Word.{Word}
use sec_pro_gis.Word.Value.{word_of, word_of-filled}
use sec_pro_gis.Table.Order.{text}
use sec_pro_gis.Text.{c_str, or_empty}
use sec_pro_gis.Text.Cells.{c_str-word_of}
use sec_pro_gis.Km.{Serv}
use sec_pro_gis.Km.Restore.{key_bytes, restore_members, restore_row}
use sec_pro_gis.Km.Restore.Key.{row_of, restore_members-word_of, restore_row_members}
use sec_pro_gis.Km.Store.{printed}

-- `store` prints the bytes of the key.
printed-word_of :
    (s : Serv) (admin : ℤ) (key : List ℕ)
    → s.skey ≡ word_of key
    → 0 < length key
    → All (λ c. 0 < c) key
    → (printed s admin).skey_s ≡ key
unfolding printed c_str or_empty
printed-word_of s admin key held ne nonzero =
    ap (λ (w : Word). or_empty (c_str w)) held ∙ c_str-word_of key nonzero

length-parse_hex : (h : List ℕ) → length (parse_hex h) ≡ length h / 2
unfolding parse_hex
length-parse_hex [] = omega arith
length-parse_hex (c ∷ []) = omega arith
length-parse_hex (c ∷ d ∷ h) = omega (arith, length-parse_hex h)

length-key_bytes : (h : List ℕ) → 0 < length h → length (key_bytes (word_of h)) ≡ length h / 2
unfolding key_bytes or_empty
length-key_bytes h ne =
    let n = length h / 2 * 2 in
    ap (λ (w : Word). length (key_bytes w)) (word_of-filled h ne)
    ∙ length-parse_hex (take n (h ++ replicate 3 0))
    ∙ ap (λ (m : ℕ). m / 2) (length-take n (h ++ replicate 3 0))
    ∙ omega (arith, length-append h (replicate 3 0))

-- From a row that holds in column 3 what `store` prints of a key of two bytes or more without a zero
-- byte, and strings that are not empty in columns 1 and 4, `restore` succeeds with a key of half the
-- length, which is another key.
pub restore_row-printed :
    (s t : Serv) (admin : ℤ) (key : List ℕ) (row : List (Option (List ℕ)))
    → s.skey ≡ word_of key
    → 2 ≤ length key
    → All (λ c. 0 < c) key
    → 5 ≤ length row
    → 0 < length (text (get_or row 1 none))
    → get_or row 3 none ≡ some (printed s admin).skey_s
    → 0 < length (text (get_or row 4 none))
    → let r = restore_row t (row_of row) in
      (r.0 ≡ pos 0) × (r.1.skey.len ≡ length key / 2) × (r.1.skey ≢ s.skey)
restore_row-printed s t admin key row held long nonzero size plain at expire =
    let hex = (printed s admin).skey_s in
    let first = text (get_or row 1 none) in
    let last = text (get_or row 4 none) in
    let size_hex =
      ap (λ (b : List ℕ). length b) (printed-word_of s admin key held (omega arith) nonzero) in
    let got = key_bytes (word_of hex) in
    let got_size = length-key_bytes hex (omega (arith, size_hex)) in
    let half : (word_of hex).len / 2 ≡ length got =
      ap (λ (w : Word). w.len / 2) (word_of-filled hex (omega (arith, size_hex))) ∙ sym got_size in
    let r = restore_row t (row_of row) in
    let done =
      subst
        (λ (r : ℤ × Serv).
          (r.0 ≡ pos 0) × (r.1.md5_plaint ≡ word_of first) × (r.1.skey ≡ word_of got))
        (sym (
          restore_row_members t row hex size at
          ∙ ap (λ (n : ℕ). restore_members t (word_of first) got n (word_of last)) half))
        (restore_members-word_of t first got last plain (omega (arith, got_size, size_hex))
          expire) in
    let len_of : (b : List ℕ) → 0 < length b → (word_of b).len ≡ length b =
      λ b ne. ap (λ (w : Word). w.len) (word_of-filled b ne) in
    let len : r.1.skey.len ≡ length key / 2 =
      ap (λ (w : Word). w.len) done.2
      ∙ len_of got (omega (arith, got_size, size_hex))
      ∙ omega (arith, got_size, size_hex) in
    (
      done.0,
      len,
      λ same. omega (arith, len, ap (λ (w : Word). w.len) (same ∙ held), len_of key (omega arith)),
    )
