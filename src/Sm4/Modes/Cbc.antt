-- ===== src/Sm4/Modes/Cbc.antt =====
-- `sm4_crypt_cbc`: decryption undoes encryption and leaves the same chaining vector.
use sec_pro_gis.Base.{ℕ, zero, suc, ◌-◌, ◌*◌, ◌≤◌, some, List, [], ◌∷◌, ◌++◌, bit_xor}
use sec_pro_gis.Base.{
  append_assoc, length, take, drop, IsBytes, All-take, All-drop, ◌≡◌, ◌≢◌, refl, sym,
}
use sec_pro_gis.Base.{ap, ap₂, ◌∙◌, arith, length-append, length-take, length-drop, take-append_at}
use sec_pro_gis.Base.{drop-append_at, drop-drop, take_split}
use sec_pro_gis.Bits.Xor.{bit_xor-lt, bit_xor_assoc, bit_xor_self, bit_xor_zero}
use sec_pro_gis.Sm4.{Context, one_round, setkey_enc, setkey_dec, sm4_encrypt}
use sec_pro_gis.Sm4.Keys.{setkey_dec-Reversed}
use sec_pro_gis.Sm4.Round.{Reversed}
use sec_pro_gis.Sm4.Round.Block.{one_round-IsBlock, one_round_undo, IsBlock}
use sec_pro_gis.Sm4.Modes.{xor_bytes, cbc_encrypt_loop, cbc_decrypt_loop, crypt_cbc}

xor_bytes_undo : (xs ys : List ℕ) → length xs ≤ length ys → xor_bytes (xor_bytes xs ys) ys ≡ xs
unfolding xor_bytes
xor_bytes_undo [] ys h = refl
xor_bytes_undo (x ∷ xs) [] h = absurd (omega arith)
xor_bytes_undo (x ∷ xs) (y ∷ ys) h =
    ap₂ ◌∷◌ (bit_xor_assoc x y y ∙ ap (bit_xor x) (bit_xor_self y) ∙ bit_xor_zero x)
      (xor_bytes_undo xs ys (omega arith))

length-xor_bytes : (xs ys : List ℕ) → length xs ≤ length ys → length (xor_bytes xs ys) ≡ length xs
unfolding xor_bytes
length-xor_bytes [] ys h = refl
length-xor_bytes (x ∷ xs) [] h = absurd (omega arith)
length-xor_bytes (x ∷ xs) (y ∷ ys) h = ap suc (length-xor_bytes xs ys (omega arith))

xor_bytes-IsBytes : (xs ys : List ℕ) → IsBytes xs → IsBytes ys → IsBytes (xor_bytes xs ys)
unfolding xor_bytes
xor_bytes-IsBytes [] ys h k = tt
xor_bytes-IsBytes (x ∷ xs) [] h k = tt
xor_bytes-IsBytes (x ∷ xs) (y ∷ ys) h k =
    (bit_xor-lt 8 x y h.0 k.0, xor_bytes-IsBytes xs ys h.1 k.1)

mixed-IsBlock :
    (b iv : List ℕ) → 16 ≤ length b → IsBytes b → IsBlock iv → IsBlock (xor_bytes (take 16 b) iv)
mixed-IsBlock b iv h k v =
    let short : length (take 16 b) ≡ 16 = length-take 16 b ∙ omega arith in
    (
      length-xor_bytes (take 16 b) iv (omega arith) ∙ short,
      xor_bytes-IsBytes (take 16 b) iv (All-take _ 16 b k) v.1,
    )

-- The enciphered block that follows the vector `iv`.
link : List ℕ → List ℕ → List ℕ → List ℕ
link sk iv input = let mixed = xor_bytes (take 16 input) iv in one_round sk mixed mixed

-- `n` chained blocks, and the vector after them.
pub chain : List ℕ → ℕ → List ℕ → List ℕ → List ℕ
chain sk zero iv input = []
chain sk (suc n) iv input = let c = link sk iv input in c ++ chain sk n c (drop 16 input)

pub chain_end : List ℕ → ℕ → List ℕ → List ℕ → List ℕ
chain_end sk zero iv input = iv
chain_end sk (suc n) iv input = chain_end sk n (link sk iv input) (drop 16 input)

cbc_encrypt_loop-chain :
    (fuel n : ℕ) (sk iv input output : List ℕ)
    → n ≤ fuel
    → n * 16 ≤ length input
    → n * 16 ≤ length output
    → cbc_encrypt_loop fuel sk (n * 16) iv input output
      ≡ some (chain_end sk n iv input, chain sk n iv input ++ drop (n * 16) output)
unfolding cbc_encrypt_loop chain chain_end link
cbc_encrypt_loop-chain zero zero sk iv input output f hi ho = refl
cbc_encrypt_loop-chain zero (suc n) sk iv input output f hi ho = absurd (omega arith)
cbc_encrypt_loop-chain (suc fuel) zero sk iv input output f hi ho = refl
cbc_encrypt_loop-chain (suc fuel) (suc n) sk iv input output f hi ho =
    let c = link sk iv input in
    let less : suc n * 16 - 16 ≡ n * 16 = omega arith in
    let rest =
      cbc_encrypt_loop-chain fuel n sk c (drop 16 input) (drop 16 output) (omega arith)
        (rw (length-drop 16 input) (omega arith)) (rw (length-drop 16 output) (omega arith)) in
    let tail : drop (n * 16) (drop 16 output) ≡ drop (suc n * 16) output =
      drop-drop (n * 16) 16 output ∙ ap (λ (t : ℕ). drop t output) (omega arith) in
    ground (arith, append_assoc c (chain sk n c (drop 16 input)) (drop (suc n * 16) output))

module _ (sk sk' : List ℕ) (keys : Reversed sk sk' 32 0 0) where
  link_undo :
      (iv b out : List ℕ)
      → 16 ≤ length b
      → length out ≡ 16
      → IsBytes b
      → IsBlock iv
      → xor_bytes (one_round sk' (link sk iv b) out) iv ≡ take 16 b
  unfolding link
  link_undo iv b out h ho k v =
      let mixed = xor_bytes (take 16 b) iv in
      let block = mixed-IsBlock b iv h k v in
      ap (λ (t : List ℕ). xor_bytes t iv)
        (one_round_undo sk sk' mixed mixed out keys block block.0 ho)
      ∙ xor_bytes_undo (take 16 b) iv (omega (arith, length-take 16 b, v.0))

  cbc_decrypt_loop-chain :
      (fuel n : ℕ) (iv b rest output : List ℕ)
      → n ≤ fuel
      → n * 16 ≤ length b
      → n * 16 ≤ length output
      → IsBytes b
      → IsBlock iv
      → cbc_decrypt_loop fuel sk' (n * 16) iv (chain sk n iv b ++ rest) output
        ≡ some (chain_end sk n iv b, take (n * 16) b ++ drop (n * 16) output)
  unfolding cbc_decrypt_loop chain chain_end
  cbc_decrypt_loop-chain zero zero iv b rest output f hi ho k v = refl
  cbc_decrypt_loop-chain zero (suc n) iv b rest output f hi ho k v = absurd (omega arith)
  cbc_decrypt_loop-chain (suc fuel) zero iv b rest output f hi ho k v = refl
  cbc_decrypt_loop-chain (suc fuel) (suc n) iv b rest output f hi ho k v =
      let c = link sk iv b in
      let later = chain sk n c (drop 16 b) in
      let block : IsBlock c =
        unfold link in one_round-IsBlock sk _ _ (mixed-IsBlock b iv (omega arith) k v).0 in
      let less : suc n * 16 - 16 ≡ n * 16 = omega arith in
      let first : take 16 ((c ++ later) ++ rest) ≡ c =
        ap (take 16) (append_assoc c later rest) ∙ take-append_at 16 c (later ++ rest) block.0 in
      let others : drop 16 ((c ++ later) ++ rest) ≡ later ++ rest =
        ap (drop 16) (append_assoc c later rest) ∙ drop-append_at 16 c (later ++ rest) block.0 in
      let opened =
        link_undo iv b (take 16 output) (omega arith) (length-take 16 output ∙ omega arith) k v in
      let ih =
        cbc_decrypt_loop-chain fuel n c (drop 16 b) rest (drop 16 output) (omega arith)
          (rw (length-drop 16 b) (omega arith)) (rw (length-drop 16 output) (omega arith))
          (All-drop _ 16 b k) block in
      let tail : drop (n * 16) (drop 16 output) ≡ drop (suc n * 16) output =
        drop-drop (n * 16) 16 output ∙ ap (λ (t : ℕ). drop t output) (omega arith) in
      let joined : take 16 b ++ take (n * 16) (drop 16 b) ≡ take (suc n * 16) b =
        sym (take_split 16 (n * 16) b) ∙ ap (λ (t : ℕ). take t b) (omega arith) in
      let wide : 16 ≤ length ((c ++ later) ++ rest) =
        omega (
          arith,
          ap length (append_assoc c later rest),
          length-append c (later ++ rest),
          block.0,
        ) in
      ground
        (arith, append_assoc (take 16 b) (take (n * 16) (drop 16 b)) (drop (suc n * 16) output))

-- On `n` whole blocks, `sm4_crypt_cbc` in encryption mode and then in any other mode, with the two
-- schedules of one key and the same vector, succeeds and restores the blocks; both calls leave the
-- same vector, and the bytes of the output buffer past the blocks are kept.
pub crypt_cbc_undo :
    (ctx ctx' : Context) (key : List ℕ) (mode' n : ℕ) (iv input output output' : List ℕ)
    → length ctx.sk ≡ 32
    → length ctx'.sk ≡ 32
    → mode' ≢ sm4_encrypt
    → IsBytes input
    → IsBlock iv
    → n * 16 ≤ length input
    → n * 16 ≤ length output
    → n * 16 ≤ length output'
    → (iv' : List ℕ) × (cipher : List ℕ) × (crypt_cbc
          (setkey_enc ctx key)
          sm4_encrypt
          (n * 16)
          iv
          input
          output
        ≡ some (iv', cipher))
      × (crypt_cbc (setkey_dec ctx' key) mode' (n * 16) iv cipher output'
          ≡ some (iv', take (n * 16) input ++ drop (n * 16) output'))
unfolding crypt_cbc
crypt_cbc_undo ctx ctx' key mode' n iv input output output' h h' other bytes v hi ho ho' =
    let sk = (setkey_enc ctx key).sk in
    let sk' = (setkey_dec ctx' key).sk in
    let cipher = chain sk n iv input ++ drop (n * 16) output in
    let there = cbc_encrypt_loop-chain (n * 16) n sk iv input output (omega arith) hi ho in
    let back =
      cbc_decrypt_loop-chain sk sk' (setkey_dec-Reversed ctx ctx' key h h') (n * 16) n iv input
        (drop (n * 16) output) output' (omega arith) hi ho' bytes v in
    (chain_end sk n iv input, cipher, there, ground arith)
