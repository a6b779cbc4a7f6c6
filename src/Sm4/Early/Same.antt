-- ===== src/Sm4/Early/Same.antt =====
-- What encrypt.cpp has in common with sm4.cpp, and what its key schedule leaves out.
use sec_pro_gis.Base.{
  ℕ, zero, suc, ◌+◌, ◌-◌, ◌≤◌, ◌<◌, true, false, some, List, [], ◌++◌, append_assoc, replicate,
  length, take, drop, get_or, get_or-set_ne, leb, le→leb, ◌==◌, Bool-cases,
}
use sec_pro_gis.Base.{
  ◌≡◌, refl, sym, ap, ap₂, ◌∙◌, arith, inl, inr, length-take, length-drop, take_split, drop-drop,
}
use sec_pro_gis.Sm4.{Context, one_round, setkey_loop, initial_k}
use sec_pro_gis.Sm4.Modes.{crypt_ecb_16}
use sec_pro_gis.Sm4.Modes.Ecb.{
  copy_at-append, ecb_16, ecb_16-append, ecb_16_block, ecb_16_short, crypt_ecb_16-blocks,
}
use sec_pro_gis.Sm4.Early.{setkey_early, ecb_early_loop, ecb_early}

setkey_loop_other :
    (left i j : ℕ) (k sk : List ℕ)
    → i + left ≤ j
    → get_or (setkey_loop left i k sk) j 0 ≡ get_or sk j 0
unfolding setkey_loop
setkey_loop_other zero i j k sk h = refl
setkey_loop_other (suc left) i j k sk h =
    setkey_loop_other left (i + 1) j _ _ (omega arith) ∙ get_or-set_ne sk i j _ 0 (omega arith)

-- `sm4_setkey` of encrypt.cpp leaves the last four round keys as they lay in memory.
pub setkey_early_last :
    (sk key : List ℕ) (j : ℕ) → 28 ≤ j → get_or (setkey_early sk key) j 0 ≡ get_or sk j 0
unfolding setkey_early
setkey_early_last sk key j h = setkey_loop_other 28 0 j (initial_k key) sk (omega arith)

suc_ne_zero : (m : ℕ) → (suc m == 0) ≡ false
suc_ne_zero m = ground arith

le_of_leb : (a b : ℕ) → leb a b ≡ true → a ≤ b
le_of_leb a b h = ground (arith, h)

lt_of_leb : (a b : ℕ) → leb a b ≡ false → b < a
lt_of_leb a b h = ground (arith, h)

-- A block and what follows it.
ecb_16-first :
    (sk : List ℕ) (len : ℕ) (input output : List ℕ)
    → 16 ≤ len
    → len ≤ length input
    → one_round sk (take 16 input) (replicate 16 0)
        ++ (ecb_16 sk (take (len - 16) (drop 16 input)) ++ drop (len - 16) (drop 16 output))
      ≡ ecb_16 sk (take len input) ++ drop len output
ecb_16-first sk len input output h hi =
    let a = take 16 input in
    let b = take (len - 16) (drop 16 input) in
    let size : length a ≡ 16 = length-take 16 input ∙ omega arith in
    let parts : take len input ≡ a ++ b =
      ap (λ (t : ℕ). take t input) {x = len} {y = 16 + (len - 16)} (omega arith)
      ∙ take_split 16 (len - 16) input in
    let rest : drop (len - 16) (drop 16 output) ≡ drop len output =
      drop-drop (len - 16) 16 output ∙ ap (λ (t : ℕ). drop t output) (omega arith) in
    sym (
      append_assoc (one_round sk a (replicate 16 0)) (ecb_16 sk b)
        (drop (len - 16) (drop 16 output)))
    ∙ ap₂ ◌++◌
        (ap (λ (x : List ℕ). x ++ ecb_16 sk b) (sym (ecb_16_block sk a size))
          ∙ sym (ecb_16-append sk a b 1 (size ∙ omega arith))
          ∙ ap (ecb_16 sk) (sym parts))
        rest

ecb_early_loop-ecb_16 :
    (fuel : ℕ) (sk : List ℕ) (len : ℕ) (input output : List ℕ)
    → len ≤ fuel
    → len ≤ length input
    → len ≤ length output
    → ecb_early_loop fuel sk len input output ≡ some (ecb_16 sk (take len input) ++ drop len output)
unfolding ecb_early_loop
ecb_early_loop-ecb_16 zero sk zero input output f hi ho =
    ap (λ (t : List ℕ). some (t ++ output)) (sym (ecb_16_short sk [] (omega arith)))
ecb_early_loop-ecb_16 zero sk (suc m) input output f hi ho = absurd (omega arith)
ecb_early_loop-ecb_16 (suc fuel) sk zero input output f hi ho =
    ap (λ (t : List ℕ). some (t ++ output)) (sym (ecb_16_short sk [] (omega arith)))
ecb_early_loop-ecb_16 (suc fuel) sk (suc m) input output f hi ho =
    let len = suc m in
    elim (Bool-cases (leb 16 len)) [
      | inl e ↦
          let le = le_of_leb 16 len e in
          let rest =
            ecb_early_loop-ecb_16 fuel sk (len - 16) (drop 16 input) (drop 16 output) (omega arith)
              (omega (arith, length-drop 16 input)) (omega (arith, length-drop 16 output)) in
          rw (suc_ne_zero m) (
            rw e (
              rw (le→leb 16 (length input) (omega (arith, le))) (
                rw (le→leb 16 (length output) (omega (arith, le)))
                  (rw rest (ap some (ecb_16-first sk len input output le hi))))))
      | inr e ↦
          let less = lt_of_leb 16 len e in
          rw (suc_ne_zero m) (
            rw e (
              copy_at-append 0 len input [] output refl (omega arith) ho
              ∙ ap (λ (t : List ℕ). some (t ++ drop len output))
                  (sym (
                    ecb_16_short sk (take len input)
                      (omega (arith, less, length-take len input))))))
    ]

-- On buffers of `len` bytes or more, `sm4_crypt_ecb` of encrypt.cpp writes what `sm_crypt_ecb_16` of
-- sm4.cpp writes with the same round keys.
pub ecb_early-crypt_ecb_16 :
    (ctx : Context) (mode len : ℕ) (input output : List ℕ)
    → len ≤ length input
    → len ≤ length output
    → ecb_early ctx.sk len input output ≡ crypt_ecb_16 ctx mode len input output
unfolding ecb_early
ecb_early-crypt_ecb_16 ctx mode len input output hi ho =
    ecb_early_loop-ecb_16 len ctx.sk len input output (omega arith) hi ho
    ∙ sym (crypt_ecb_16-blocks ctx mode len input output hi ho)
