-- ===== src/Hex.antt =====
-- The hexadecimal digits of BWord.cpp's `sprint_hex`, and the loop of KM.cpp that reads them back.
use sec_pro_gis.Base.{ℕ, ◌+◌, ◌-◌, ◌*◌, ◌/◌, ◌%◌, ◌<◌, List, [], ◌∷◌, ◌≡◌, refl, ap₂, arith}
use sec_pro_gis.Base.{ltb, if◌then◌else◌, u8, IsBytes, length}

-- A digit of `%02x`.
unfoldable pub hex_digit : ℕ → ℕ
hex_digit d = if ltb d 10 then 48 + d else 87 + d

-- `sprint_hex`: what it writes to `dest`.
unfoldable pub sprint_hex : List ℕ → List ℕ
sprint_hex [] = []
sprint_hex (c ∷ src) = hex_digit (c / 16) ∷ hex_digit (c % 16) ∷ sprint_hex src

-- `h1` and `h2` of `restore` before the shift, modulo 256, since only the low byte of their sum is
-- kept. A byte from 128 on is a negative `char`, below 'a'; it and a character below '0' give a
-- negative number.
pub digit_value : ℕ → ℕ
digit_value c =
    if ltb c 97 then (c + 208) % 256 else if ltb c 128 then c - 97 + 10 else (c + 208) % 256

-- The loop of `restore`, for `key_len` pairs of characters.
unfoldable pub parse_hex : List ℕ → List ℕ
parse_hex [] = []
parse_hex (c ∷ []) = []
parse_hex (c ∷ d ∷ skey_h) = u8 (digit_value c * 16 + digit_value d) ∷ parse_hex skey_h

pub length-sprint_hex : (src : List ℕ) → length (sprint_hex src) ≡ length src * 2
unfolding sprint_hex
length-sprint_hex [] = refl
length-sprint_hex (c ∷ src) = omega (arith, length-sprint_hex src)

digit_value-hex_digit : (d : ℕ) → d < 16 → digit_value (hex_digit d) ≡ d
unfolding digit_value hex_digit
digit_value-hex_digit d h = ground arith

-- The loop of `restore` reads back the bytes that `sprint_hex` wrote.
pub parse_hex-sprint_hex : (src : List ℕ) → IsBytes src → parse_hex (sprint_hex src) ≡ src
unfolding parse_hex sprint_hex
parse_hex-sprint_hex [] h = refl
parse_hex-sprint_hex (c ∷ src) h =
    let high = digit_value-hex_digit (c / 16) (omega (arith, h.0)) in
    let low = digit_value-hex_digit (c % 16) (omega arith) in
    ap₂ ◌∷◌ (omega (arith, h.0, high, low)) (parse_hex-sprint_hex src h.1)
