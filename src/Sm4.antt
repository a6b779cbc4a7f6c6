-- ===== src/Sm4.antt =====
-- sm4.cpp: the SM4 block cipher and its modes. The arrays of a call are lists; a word of the
-- sources' `unsigned long` is a number below 2 ^ 32.
mod Tables
pub mod Modes
pub mod Round
pub mod Keys
pub mod Cipher
pub mod Early
mod Examples
use sec_pro_gis.Base.{
  ℕ, zero, suc, ◌+◌, ◌-◌, ◌<◌, List, [], ◌∷◌, bit_xor, u8, get_or, set, replicate,
}
use sec_pro_gis.Endian.{at, get_ulong_be, put_ulong_be, rotl, be_bytes}
use Tables.{sbox_table, fk, ck}

infixl 65 ◌⊕◌
-- `^`
abbrev pub ◌⊕◌ : ℕ → ℕ → ℕ
a ⊕ b = bit_xor a b

-- `sm4Sbox`
pub sbox : ℕ → ℕ
unfolding sbox_table
sbox inch = u8 (at sbox_table inch)

-- The word after each of its four bytes has gone through the box.
substitute : ℕ → ℕ
unfolding sbox put_ulong_be get_ulong_be
substitute ka =
    let a = put_ulong_be ka (replicate 4 0) 0 in
    get_ulong_be (sbox (at a 0) ∷ sbox (at a 1) ∷ sbox (at a 2) ∷ sbox (at a 3) ∷ []) 0

-- `sm4Lt`
pub lt : ℕ → ℕ
unfolding substitute rotl
lt ka = let bb = substitute ka in bb ⊕ rotl bb 2 ⊕ rotl bb 10 ⊕ rotl bb 18 ⊕ rotl bb 24

-- `sm4F`
pub f : ℕ → ℕ → ℕ → ℕ → ℕ → ℕ
unfolding lt
f x0 x1 x2 x3 rk = x0 ⊕ lt (x1 ⊕ x2 ⊕ x3 ⊕ rk)

-- `sm4CalciRK`
pub calci_rk : ℕ → ℕ
unfolding substitute rotl
calci_rk ka = let bb = substitute ka in bb ⊕ rotl bb 13 ⊕ rotl bb 23

-- The `for` loop of `sm4_setkey` over `k[36]` and `SK[32]`, `left` rounds from round `i`.
setkey_loop : ℕ → ℕ → List ℕ → List ℕ → List ℕ
setkey_loop zero i k sk = sk
setkey_loop (suc left) i k sk =
    let next = at k i ⊕ calci_rk (at k (i + 1) ⊕ at k (i + 2) ⊕ at k (i + 3) ⊕ at ck i) in
    setkey_loop left (i + 1) (set k (i + 4) next) (set sk i next)

-- `k` before the loop. The source does not initialise the other entries; each is written before
-- it is read.
initial_k : List ℕ → List ℕ
unfolding get_ulong_be fk
initial_k key =
    let k0 = set (replicate 36 0) 0 (get_ulong_be key 0 ⊕ at fk 0) in
    let k1 = set k0 1 (get_ulong_be key 4 ⊕ at fk 1) in
    let k2 = set k1 2 (get_ulong_be key 8 ⊕ at fk 2) in set k2 3 (get_ulong_be key 12 ⊕ at fk 3)

-- `sm4_setkey`: the new contents of `SK`.
pub setkey : List ℕ → List ℕ → List ℕ
setkey sk key = setkey_loop 32 0 (initial_k key) sk

-- The `while` loop of `sm4_one_round` over `ulbuf`.
pub round_loop : List ℕ → ℕ → ℕ → List ℕ → List ℕ
round_loop sk zero i ulbuf = ulbuf
round_loop sk (suc left) i ulbuf = round_loop sk left (i + 1) (
    set ulbuf (i + 4)
      (f (at ulbuf i) (at ulbuf (i + 1)) (at ulbuf (i + 2)) (at ulbuf (i + 3)) (at sk i)))

-- `sm4_one_round`: the new contents of `output`. All of `input` is read before `output` is
-- written, so the two may be one array.
pub one_round : List ℕ → List ℕ → List ℕ → List ℕ
one_round sk input output =
    let b0 = set (replicate 36 0) 0 (get_ulong_be input 0) in
    let b1 = set b0 1 (get_ulong_be input 4) in
    let b2 = set b1 2 (get_ulong_be input 8) in
    let b3 = set b2 3 (get_ulong_be input 12) in
    let ulbuf = round_loop sk 32 0 b3 in
    let o0 = put_ulong_be (at ulbuf 35) output 0 in
    let o1 = put_ulong_be (at ulbuf 34) o0 4 in
    let o2 = put_ulong_be (at ulbuf 33) o1 8 in put_ulong_be (at ulbuf 32) o2 12

-- `sm4_context`; `mode` is written and never read.
pub record Context : Type 0 where
  pub mode : ℕ
  pub sk : List ℕ

-- `SM4_ENCRYPT` and `SM4_DECRYPT`
abbrev pub sm4_encrypt : ℕ
sm4_encrypt = 1

abbrev pub sm4_decrypt : ℕ
sm4_decrypt = 0

-- `sm4_setkey_enc`
pub setkey_enc : Context → List ℕ → Context
setkey_enc ctx key = record { mode = sm4_encrypt; sk = setkey ctx.sk key }

-- `SWAP(ctx->sk[i], ctx->sk[31-i])`
swap_keys : List ℕ → ℕ → List ℕ
swap_keys sk i = set (set sk i (at sk (31 - i))) (31 - i) (at sk i)

-- The `for` loop of `sm4_setkey_dec`.
swap_loop : ℕ → ℕ → List ℕ → List ℕ
unfolding swap_keys
swap_loop zero i sk = sk
swap_loop (suc left) i sk = swap_loop left (i + 1) (swap_keys sk i)

-- `sm4_setkey_dec`
pub setkey_dec : Context → List ℕ → Context
setkey_dec ctx key = record { mode = sm4_encrypt; sk = swap_loop 16 0 (setkey ctx.sk key) }
