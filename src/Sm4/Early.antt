-- ===== src/Sm4/Early.antt =====
-- encrypt.cpp: another SM4 of the program, which nothing calls. It differs from sm4.cpp in the number of
-- rounds of the key schedule and in the loop over the blocks; its functions on one block are those of sm4.cpp.
-- Its context is only known by the member `sk`, the array here.
pub mod Same
mod Examples
use mathlib.Core.Option
use sec_pro_gis.Base.{
  ℕ, zero, suc, ◌+◌, ◌-◌, Bool, ◌&&◌, Option, none, some, List, [], ◌∷◌, ◌++◌, replicate, length,
  take, drop, leb, ◌==◌, if◌then◌else◌,
}
use sec_pro_gis.Sm4.{initial_k, setkey_loop, swap_loop, one_round}
use sec_pro_gis.Sm4.Modes.{fits, copy_at}

-- `sm4_setkey`: the loop goes from 0 to 27.
pub setkey_early : List ℕ → List ℕ → List ℕ
setkey_early sk key = setkey_loop 28 0 (initial_k key) sk

-- `sm4_setkey_dec`, on `sk`.
pub setkey_dec_early : List ℕ → List ℕ → List ℕ
setkey_dec_early sk key = swap_loop 16 0 (setkey_early sk key)

-- The loop of `sm4_crypt_ecb` from the pointers on, with `len` bytes left: a block, or the bytes that
-- fill none. The fuel is the number of rounds that are left at most.
ecb_early_loop : ℕ → List ℕ → ℕ → List ℕ → List ℕ → Option (List ℕ)
ecb_early_loop zero sk len input output = if len == 0 then some output else none
ecb_early_loop (suc fuel) sk len input output =
    let block = one_round sk (take 16 input) (replicate 16 0) in
    let rest = ecb_early_loop fuel sk (len - 16) (drop 16 input) (drop 16 output) in
    let whole = if fits input && fits output then Option.map (λ r. block ++ r) rest else none in
    if len == 0 then some output else if leb 16 len then whole else copy_at 0 len input output

-- `sm4_crypt_ecb`
pub ecb_early : List ℕ → ℕ → List ℕ → List ℕ → Option (List ℕ)
ecb_early sk len input output = ecb_early_loop len sk len input output
