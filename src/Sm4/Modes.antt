-- ===== src/Sm4/Modes.antt =====
-- The modes of sm4.cpp on buffers. `none` is a read or a write outside a buffer, which the sources
-- do not check; input and output are different buffers. `len` is a length that is not negative.
pub mod Ecb
pub mod Cbc
use mathlib.Core.Option
use sec_pro_gis.Base.{
  ◌>>=◌, ℕ, zero, suc, ◌+◌, ◌-◌, Bool, ◌&&◌, Option, none, some, List, [], ◌∷◌, ◌++◌,
}
use sec_pro_gis.Base.{bit_xor, ◌<<◌, ◌>>◌, length, take, drop, leb, ◌==◌, if◌then◌else◌}
use sec_pro_gis.Sm4.{Context, one_round, sm4_encrypt}

-- A whole block lies at the pointer.
abbrev pub fits : List ℕ → Bool
fits b = leb 16 (length b)

-- The loop of `sm4_crypt_ecb`: the output buffer after it, from the output pointer on. The fuel is
-- the number of rounds that are left at most.
crypt_ecb_loop : ℕ → List ℕ → ℕ → List ℕ → List ℕ → Option (List ℕ)
crypt_ecb_loop zero sk len input output = if len == 0 then some output else none
crypt_ecb_loop (suc fuel) sk len input output =
    let block = one_round sk (take 16 input) (take 16 output) in
    let rest = crypt_ecb_loop fuel sk (len - 16) (drop 16 input) (drop 16 output) in
    if len == 0
    then some output
    else if fits input && fits output
    then Option.map (λ r. block ++ r) rest
    else none

-- `sm4_crypt_ecb`
pub crypt_ecb : Context → ℕ → ℕ → List ℕ → List ℕ → Option (List ℕ)
crypt_ecb ctx mode len input output = crypt_ecb_loop len ctx.sk len input output

-- `memcpy(&dst[at], &src[at], n)`
pub copy_at : ℕ → ℕ → List ℕ → List ℕ → Option (List ℕ)
copy_at i n src dst =
    if leb (i + n) (length src) && leb (i + n) (length dst)
    then some (take i dst ++ (take n (drop i src) ++ drop (i + n) dst))
    else none

-- `sm_crypt_ecb_16`
pub crypt_ecb_16 : Context → ℕ → ℕ → List ℕ → List ℕ → Option (List ℕ)
crypt_ecb_16 ctx mode len input output =
    let ilen = (len >> 4) << 4 in
    do output' ← crypt_ecb ctx mode ilen input output; copy_at ilen (len - ilen) input output'

-- `a[i] ^ b[i]` for each `i` of a block.
pub xor_bytes : List ℕ → List ℕ → List ℕ
xor_bytes [] ys = []
xor_bytes (x ∷ xs) [] = []
xor_bytes (x ∷ xs) (y ∷ ys) = bit_xor x y ∷ xor_bytes xs ys

-- The loop of `sm4_crypt_cbc` for `SM4_ENCRYPT`: the vector `iv` and the output after it.
cbc_encrypt_loop : ℕ → List ℕ → ℕ → List ℕ → List ℕ → List ℕ → Option (List ℕ × List ℕ)
cbc_encrypt_loop zero sk len iv input output = if len == 0 then some (iv, output) else none
cbc_encrypt_loop (suc fuel) sk len iv input output =
    let mixed = xor_bytes (take 16 input) iv in
    let block = one_round sk mixed mixed in
    let rest = cbc_encrypt_loop fuel sk (len - 16) block (drop 16 input) (drop 16 output) in
    if len == 0
    then some (iv, output)
    else if fits input && fits output
    then Option.map (λ (r : List ℕ × List ℕ). (r.0, block ++ r.1)) rest
    else none

-- The loop for the other modes.
cbc_decrypt_loop : ℕ → List ℕ → ℕ → List ℕ → List ℕ → List ℕ → Option (List ℕ × List ℕ)
cbc_decrypt_loop zero sk len iv input output = if len == 0 then some (iv, output) else none
cbc_decrypt_loop (suc fuel) sk len iv input output =
    let temp = take 16 input in
    let block = xor_bytes (one_round sk temp (take 16 output)) iv in
    let rest = cbc_decrypt_loop fuel sk (len - 16) temp (drop 16 input) (drop 16 output) in
    if len == 0
    then some (iv, output)
    else if fits input && fits output
    then Option.map (λ (r : List ℕ × List ℕ). (r.0, block ++ r.1)) rest
    else none

-- `sm4_crypt_cbc`
pub crypt_cbc : Context → ℕ → ℕ → List ℕ → List ℕ → List ℕ → Option (List ℕ × List ℕ)
crypt_cbc ctx mode len iv input output =
    if mode == sm4_encrypt
    then cbc_encrypt_loop len ctx.sk len iv input output
    else cbc_decrypt_loop len ctx.sk len iv input output
