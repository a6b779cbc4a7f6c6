-- ===== src/Km/Keys.antt =====
-- The keys that KM.cpp makes and hands out.
use sec_pro_gis.Base.{
  ◌==◌, ltb, if◌then◌else◌, ℕ, zero, suc, ◌+◌, ◌*◌, ◌≤◌, ◌<◌, Option, some, List, ◌++◌,
}
use sec_pro_gis.Base.{
  length, length-append, length-drop, drop, replicate, if◌then◌else◌, ℤ, pos, negsuc, All,
}
use sec_pro_gis.Base.{◌≡◌, ◌≢◌, refl, sym, ap, ap₂, ◌∙◌, arith, ◌⊎◌}
use sec_pro_gis.Word.{Word, get_cont}
use sec_pro_gis.Word.Value.{word_of, word_of-filled, get_cont_filled}
use sec_pro_gis.Km.{
  Serv, gen_char, gen_chars, seeded, generate, gen_key, verify, is_zero, before, get_skey,
}

-- A digit or a letter of ASCII.
abbrev pub IsAlnum : ℕ → Type 0
IsAlnum c = ((48 ≤ c) × (c < 58)) ⊎ (((65 ≤ c) × (c < 91)) ⊎ ((97 ≤ c) × (c < 123)))

gen_char-IsAlnum : (kind r : ℕ) → IsAlnum (gen_char kind r)
unfolding gen_char
gen_char-IsAlnum kind r = ground arith

pub gen_chars-IsAlnum : (n i : ℕ) (rand : ℕ → ℕ) → All IsAlnum (gen_chars n i rand)
unfolding gen_chars
gen_chars-IsAlnum zero i rand = tt
gen_chars-IsAlnum (suc n) i rand =
    (gen_char-IsAlnum (rand (2 * i)) (rand (2 * i + 1)), gen_chars-IsAlnum n (i + 1) rand)

pub length-gen_chars : (n i : ℕ) (rand : ℕ → ℕ) → length (gen_chars n i rand) ≡ n
unfolding gen_chars
length-gen_chars zero i rand = refl
length-gen_chars (suc n) i rand = ap suc (length-gen_chars n (i + 1) rand)

pub skey-word_of :
    (s : Serv) (n : ℕ) (rand : ℕ → ℕ → ℕ) (t : ℕ)
    → (gen_key s (suc n) rand t).0.skey ≡ word_of (gen_chars (suc n) 0 (seeded rand t))
unfolding gen_key generate
skey-word_of s n rand t =
    let key = gen_chars (suc n) 0 (seeded rand t) in
    let size = length-gen_chars (suc n) 0 (seeded rand t) in
    ap (λ (l : ℕ). record { content = some (key ++ replicate 3 0); len = l }) (sym size)
    ∙ sym (word_of-filled key (omega (arith, size)))

-- `gen_key` sets the key and nothing else.
pub gen_key-word_of :
    (s : Serv) (n : ℕ) (rand : ℕ → ℕ → ℕ) (t : ℕ)
    → (gen_key s (suc n) rand t).0
      ≡ record s { skey = word_of (gen_chars (suc n) 0 (seeded rand t)) }
unfolding gen_key
gen_key-word_of s n rand t = ap (λ (w : Word). record s { skey = w }) (skey-word_of s n rand t)

verify_valid :
    (s : Serv) (curr_t e : ℕ) → s.expire_t ≡ pos e → e ≢ 0 → curr_t ≤ e → verify s curr_t ≡ pos 0
unfolding verify is_zero before
verify_valid s curr_t e h ne le =
    ap (λ (t : ℤ). if is_zero t then negsuc 0 else if before t curr_t then negsuc 1 else pos 0) h
    ∙ in_time
  where
    in_time : (if e == 0 then negsuc 0 else if ltb e curr_t then negsuc 1 else pos 0) ≡ pos 0
    in_time = ground arith

expire-gen_key :
    (s : Serv) (n : ℕ) (rand : ℕ → ℕ → ℕ) (t : ℕ) → (gen_key s n rand t).0.expire_t ≡ s.expire_t
unfolding gen_key generate
expire-gen_key s n rand t = refl

-- While the service has not expired, `get_skey` writes the generated characters.
pub get_skey_fresh :
    (s : Serv) (n : ℕ) (rand : ℕ → ℕ → ℕ) (t : ℕ) (curr_t e : ℕ) (dest : List ℕ)
    → 0 < n
    → s.expire_t ≡ pos e
    → e ≢ 0
    → curr_t ≤ e
    → get_skey (gen_key s n rand t).0 curr_t (some dest)
      ≡ (pos 0, some (gen_chars n 0 (seeded rand t) ++ drop n dest))
unfolding get_skey is_zero
get_skey_fresh s zero rand t curr_t e dest pos_n h ne le = absurd (omega arith)
get_skey_fresh s (suc n) rand t curr_t e dest pos_n h ne le =
    let key = gen_chars (suc n) 0 (seeded rand t) in
    let size = length-gen_chars (suc n) 0 (seeded rand t) in
    let s' = (gen_key s (suc n) rand t).0 in
    let same = expire-gen_key s (suc n) rand t in
    let answer : ℤ → ℤ × Option (List ℕ) → ℤ × Option (List ℕ) = λ v r.
      if is_zero v
      then if is_zero r.0 then (pos 0, r.1) else (negsuc 1, r.1)
      else (negsuc 0, some dest) in
    ap₂ answer (verify_valid s' curr_t e (same ∙ h) ne le) (
      ap (λ (w : Word). get_cont w (some dest)) (skey-word_of s n rand t)
      ∙ get_cont_filled key dest (omega (arith, size)))
    ∙ ap (λ (t : ℕ). (pos 0, some (key ++ drop t dest))) size

-- While the service has not expired, a key that was generated with a positive length is handed out
-- whole to a buffer that is long enough: that many ASCII digits and letters at its start, the rest of
-- it as before, and its length as before.
pub gen_key-get_skey :
    (s : Serv) (n : ℕ) (rand : ℕ → ℕ → ℕ) (t : ℕ) (curr_t e : ℕ) (dest : List ℕ)
    → 0 < n
    → n ≤ length dest
    → s.expire_t ≡ pos e
    → e ≢ 0
    → curr_t ≤ e
    → (key : List ℕ) × (length key ≡ n)
      × All IsAlnum key
      × (get_skey (gen_key s n rand t).0 curr_t (some dest) ≡ (pos 0, some (key ++ drop n dest)))
      × (length (key ++ drop n dest) ≡ length dest)
gen_key-get_skey s n rand t curr_t e dest pos_n fits h ne le = (
  gen_chars n 0 (seeded rand t),
  length-gen_chars n 0 (seeded rand t),
  gen_chars-IsAlnum n 0 (seeded rand t),
  get_skey_fresh s n rand t curr_t e dest pos_n h ne le,
  omega (
    arith,
    fits,
    length-append (gen_chars n 0 (seeded rand t)) (drop n dest),
    length-gen_chars n 0 (seeded rand t),
    length-drop n dest,
  ),
)

-- Whether the expiry time `e` lets the key be handed out at a time.
abbrev pub IsOpen : ℕ → ℕ → Type 0
IsOpen e curr_t = (e ≢ 0) × (curr_t ≤ e)
