-- ===== src/Km.antt =====
-- KM.cpp: the key of a file, its expiry, and how the key is handed out. The clock is an argument, not
-- negative, and so is `rand`: what it returns in turn after `srand` with a seed.
pub mod Keys
pub mod Restore
pub mod Store
mod Examples
use sec_pro_gis.Base.{
  ℕ, zero, suc, ◌+◌, ◌*◌, ◌%◌, ◌^◌, Bool, false, true, Option, none, some, List, [], ◌∷◌, ◌++◌,
}
use sec_pro_gis.Base.{length, replicate, ltb, ◌==◌, if◌then◌else◌, ℤ, pos, negsuc}
use sec_pro_gis.Word.{Word, empty, get_cont, assign}

-- `KM_SERV`, its members other than the static ones.
pub record Serv : Type 0 where
  pub organization : ℤ
  pub md5_plaint : Word
  pub md5_cipher : Word
  pub skey : Word
  pub expire_t : ℤ
  pub enc_t : ℤ

-- `KM_SERV(comp, md5_p, expire)`. The constructor does not set `enc_t`: it keeps what is in memory.
unfoldable pub serv_of_plain : ℤ → Word → ℤ → ℤ → Serv
serv_of_plain comp md5_p expire enc_t = record {
  organization = comp;
  md5_plaint = assign empty md5_p;
  md5_cipher = empty;
  skey = empty;
  expire_t = expire;
  enc_t = enc_t;
}

-- `KM_SERV(comp, md5_c)`. It sets neither `expire_t` nor `enc_t`.
pub serv_of_cipher : ℤ → Word → ℤ → ℤ → Serv
serv_of_cipher comp md5_c expire_t enc_t = record {
  organization = comp;
  md5_plaint = empty;
  md5_cipher = assign empty md5_c;
  skey = empty;
  expire_t = expire_t;
  enc_t = enc_t;
}

-- One character of `generate`: a digit, a capital or a small letter.
pub gen_char : ℕ → ℕ → ℕ
gen_char kind r =
    let key1 = (kind % 3 + 3) % 3 in
    if key1 == 0
    then (r % 10 + 10) % 10 + 48
    else if key1 == 1
    then (r % 26 + 26) % 26 + 65
    else (r % 26 + 26) % 26 + 97

-- The loop of `generate`, on the numbers that `rand` returns in turn.
pub gen_chars : ℕ → ℕ → (ℕ → ℕ) → List ℕ
gen_chars zero i rand = []
gen_chars (suc left) i rand =
    gen_char (rand (2 * i)) (rand (2 * i + 1)) ∷ gen_chars left (i + 1) rand

-- `srand((unsigned int)t)`: the numbers that follow.
abbrev pub seeded : (ℕ → ℕ → ℕ) → ℕ → ℕ → ℕ
seeded rand t = rand (t % 2 ^ 32)

-- `KM_SK::generate` at the time `t`, for a length that is not negative.
pub generate : Word → ℕ → (ℕ → ℕ → ℕ) → ℕ → Word × ℤ
generate w len rand t =
    (record { content = some (gen_chars len 0 (seeded rand t) ++ replicate 3 0); len = len }, pos 0)

-- `gen_key`
pub gen_key : Serv → ℕ → (ℕ → ℕ → ℕ) → ℕ → Serv × ℤ
gen_key s len rand t =
    let (skey, ret) = generate s.skey len rand t in (record s { skey = skey }, ret)

-- `== 0`
unfoldable pub is_zero : ℤ → Bool
is_zero (pos n) = n == 0
is_zero (negsuc n) = false

-- `expire_t - curr_t < 0`
pub before : ℤ → ℕ → Bool
before (pos e) curr_t = ltb e curr_t
before (negsuc n) curr_t = true

-- `verify`, at the time `curr_t`
pub verify : Serv → ℕ → ℤ
verify s curr_t =
    if is_zero s.expire_t then negsuc 0 else if before s.expire_t curr_t then negsuc 1 else pos 0

-- `get_skey`: the result, and the buffer after it.
pub get_skey : Serv → ℕ → Option (List ℕ) → ℤ × Option (List ℕ)
get_skey s curr_t dest =
    let (ret, dest') = get_cont s.skey dest in
    if is_zero (verify s curr_t)
    then if is_zero ret then (pos 0, dest') else (negsuc 1, dest')
    else (negsuc 0, dest)
