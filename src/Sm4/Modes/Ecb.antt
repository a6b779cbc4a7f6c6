-- ===== src/Sm4/Modes/Ecb.antt =====
-- `sm_crypt_ecb_16` against a description by blocks: it never leaves its buffers, decryption
-- undoes encryption at every length, and it may be run piece by piece.
use sec_pro_gis.Base.{ℕ, zero, suc, ◌+◌, ◌-◌, ◌*◌, ◌/◌, ◌≤◌, ◌<◌, some}
use sec_pro_gis.Base.{
  List, [], ◌∷◌, ◌++◌, append_assoc, length, take, drop, replicate, IsBytes, All-take,
}
use sec_pro_gis.Base.{◌≡◌, refl, sym, ap, ap₂, ◌∙◌, arith, length-append, length-take, length-drop}
use sec_pro_gis.Base.{
  take-append_at, drop-append_at, drop-append, drop-drop, take-append_le, drop-append_le, drop_all,
  take_all, append-nil, take_split, take-drop, take-take, take-append-drop, All-drop,
}
use Prim.Native.Nat.add
use sec_pro_gis.Sm4.{Context, one_round, setkey_enc, setkey_dec}
use sec_pro_gis.Sm4.Keys.{setkey_dec-Reversed}
use sec_pro_gis.Sm4.Round.{Reversed}
use sec_pro_gis.Sm4.Round.Block.{one_round-steps, one_round-IsBlock, one_round_undo, IsBlock}
use sec_pro_gis.Sm4.Modes.{crypt_ecb_loop, crypt_ecb, copy_at, crypt_ecb_16}

-- The first `n` blocks, each on its own.
pub blocks : List ℕ → ℕ → List ℕ → List ℕ
blocks sk zero input = []
blocks sk (suc n) input =
    one_round sk (take 16 input) (replicate 16 0) ++ blocks sk n (drop 16 input)

-- Whole blocks enciphered, the tail that fills none copied.
pub ecb_16 : List ℕ → List ℕ → List ℕ
ecb_16 sk input = let n = length input / 16 in blocks sk n input ++ drop (n * 16) input

one_round_output :
    (sk input out out' : List ℕ)
    → length out ≡ 16
    → length out' ≡ 16
    → one_round sk input out ≡ one_round sk input out'
one_round_output sk input out out' h h' =
    one_round-steps sk input out h ∙ sym (one_round-steps sk input out' h')

crypt_ecb_loop-blocks :
    (fuel n : ℕ) (sk input output : List ℕ)
    → n ≤ fuel
    → n * 16 ≤ length input
    → n * 16 ≤ length output
    → crypt_ecb_loop fuel sk (n * 16) input output
      ≡ some (blocks sk n input ++ drop (n * 16) output)
unfolding crypt_ecb_loop blocks
crypt_ecb_loop-blocks zero zero sk input output f hi ho = refl
crypt_ecb_loop-blocks zero (suc n) sk input output f hi ho = absurd (omega arith)
crypt_ecb_loop-blocks (suc fuel) zero sk input output f hi ho = refl
crypt_ecb_loop-blocks (suc fuel) (suc n) sk input output f hi ho =
    let less : suc n * 16 - 16 ≡ n * 16 = omega arith in
    let rest =
      crypt_ecb_loop-blocks fuel n sk (drop 16 input) (drop 16 output) (omega arith)
        (rw (length-drop 16 input) (omega arith)) (rw (length-drop 16 output) (omega arith)) in
    let block =
      one_round_output sk (take 16 input) (take 16 output) (replicate 16 0)
        (rw (length-take 16 output) (omega arith)) refl in
    let tail : drop (n * 16) (drop 16 output) ≡ drop (suc n * 16) output =
      drop-drop (n * 16) 16 output ∙ ap (λ (t : ℕ). drop t output) (omega arith) in
    ground (
      arith,
      append_assoc (one_round sk (take 16 input) (replicate 16 0)) (blocks sk n (drop 16 input))
          (drop (suc n * 16) output),
    )

length-blocks : (sk : List ℕ) (n : ℕ) (input : List ℕ) → length (blocks sk n input) ≡ n * 16
unfolding blocks
length-blocks sk zero input = refl
length-blocks sk (suc n) input =
    let block = one_round-IsBlock sk (take 16 input) (replicate 16 0) refl in
    length-append (one_round sk (take 16 input) (replicate 16 0)) (blocks sk n (drop 16 input))
    ∙ omega (arith, block.0, length-blocks sk n (drop 16 input))

blocks-take :
    (sk : List ℕ) (n m : ℕ) (input : List ℕ)
    → n * 16 ≤ m
    → blocks sk n (take m input) ≡ blocks sk n input
unfolding blocks
blocks-take sk zero m input h = refl
blocks-take sk (suc n) m input h =
    let rest : drop 16 (take m input) ≡ take (m - 16) (drop 16 input) =
      ap (λ (t : ℕ). drop 16 (take t input)) {x = m} {y = 16 + (m - 16)} (omega arith)
      ∙ sym (take-drop (m - 16) 16 input) in
    ap₂ (λ (b r : List ℕ). one_round sk b (replicate 16 0) ++ r)
      (take-take 16 m input (omega arith))
      (ap (blocks sk n) rest ∙ blocks-take sk n (m - 16) (drop 16 input) (omega arith))

pub copy_at-append :
    (i n : ℕ) (src pre post : List ℕ)
    → length pre ≡ i
    → i + n ≤ length src
    → n ≤ length post
    → copy_at i n src (pre ++ post) ≡ some (pre ++ (take n (drop i src) ++ drop n post))
unfolding copy_at
copy_at-append i n src pre post hi hs hp =
    let skipped : drop (i + n) (pre ++ post) ≡ drop n post =
      sym (drop-drop n i (pre ++ post)) ∙ ap (drop n) (drop-append_at i pre post hi) in
    ground (arith, take-append_at i pre post hi, skipped, length-append pre post)

-- `sm_crypt_ecb_16` stays within buffers of `len` bytes or more. It writes the description above to
-- the first `len` bytes of the output, and leaves the others.
pub crypt_ecb_16-blocks :
    (ctx : Context) (mode len : ℕ) (input output : List ℕ)
    → len ≤ length input
    → len ≤ length output
    → crypt_ecb_16 ctx mode len input output
      ≡ some (ecb_16 ctx.sk (take len input) ++ drop len output)
unfolding crypt_ecb_16 ecb_16
crypt_ecb_16-blocks ctx mode len input output hi ho =
    let n = len / 16 in
    let pre = blocks ctx.sk n input in
    let post = drop (n * 16) output in
    let ecb : crypt_ecb ctx mode (n * 16) input output ≡ some (pre ++ post) =
      unfold crypt_ecb in
      crypt_ecb_loop-blocks (n * 16) n ctx.sk input output (omega arith) (omega arith)
        (omega arith) in
    let same : length (take len input) ≡ len = length-take len input ∙ omega arith in
    let copied =
      copy_at-append (n * 16) (len - n * 16) input pre post (length-blocks ctx.sk n input)
        (omega arith) (rw (length-drop (n * 16) output) (omega arith)) in
    let end : n * 16 + (len - n * 16) ≡ len = omega arith in
    let tail : take (len - n * 16) (drop (n * 16) input) ≡ drop (n * 16) (take len input) =
      take-drop (len - n * 16) (n * 16) input ∙ ap (λ (t : ℕ). drop (n * 16) (take t input)) end in
    let kept : drop (len - n * 16) post ≡ drop len output =
      drop-drop (len - n * 16) (n * 16) output ∙ ap (λ (t : ℕ). drop t output) end in
    let head : blocks ctx.sk n (take len input) ≡ pre =
      blocks-take ctx.sk n len input (omega arith) in
    ground (arith, append_assoc pre (drop (n * 16) (take len input)) (drop len output))

pub length-ecb_16 : (sk input : List ℕ) → length (ecb_16 sk input) ≡ length input
unfolding ecb_16
length-ecb_16 sk input =
    let n = length input / 16 in
    length-append (blocks sk n input) (drop (n * 16) input)
    ∙ omega (arith, length-blocks sk n input, length-drop (n * 16) input)

take-IsBlock : (b : List ℕ) → 16 ≤ length b → IsBytes b → IsBlock (take 16 b)
take-IsBlock b h k = (length-take 16 b ∙ omega arith, All-take _ 16 b k)

blocks-suc :
    (sk : List ℕ) (n : ℕ) (input : List ℕ)
    → blocks sk (suc n) input
      ≡ one_round sk (take 16 input) (replicate 16 0) ++ blocks sk n (drop 16 input)
unfolding blocks
blocks-suc sk n input = refl

-- Piece by piece: enciphering two buffers one after the other is enciphering them joined, when the
-- first is made of whole blocks.
blocks-append :
    (sk : List ℕ) (k m : ℕ) (a b : List ℕ)
    → length a ≡ k * 16
    → blocks sk (k + m) (a ++ b) ≡ blocks sk k a ++ blocks sk m b
blocks-append sk zero m [] b h = unfold blocks in ap (λ (t : ℕ). blocks sk t b) (omega arith)
blocks-append sk zero m (x ∷ a) b h = absurd (omega arith)
blocks-append sk (suc k) m a b h =
    let first =
      ap (λ (t : List ℕ). one_round sk t (replicate 16 0)) (take-append_le 16 a b (omega arith)) in
    let rest = ap (blocks sk (k + m)) (drop-append_le 16 a b (omega arith)) in
    let ih = blocks-append sk k m (drop 16 a) b (length-drop 16 a ∙ omega arith) in
    ap (λ (t : ℕ). blocks sk t (a ++ b)) (add.suc k m)
    ∙ blocks-suc sk (k + m) (a ++ b)
    ∙ ap₂ ◌++◌ first (rest ∙ ih)
    ∙ sym (
        append_assoc (one_round sk (take 16 a) (replicate 16 0)) (blocks sk k (drop 16 a))
          (blocks sk m b))
    ∙ sym (ap (λ (t : List ℕ). t ++ blocks sk m b) (blocks-suc sk k a))

pub ecb_16-append :
    (sk a b : List ℕ) (k : ℕ) → length a ≡ k * 16 → ecb_16 sk (a ++ b) ≡ ecb_16 sk a ++ ecb_16 sk b
unfolding ecb_16
ecb_16-append sk a b k h =
    let m = length b / 16 in
    let all_blocks : length (a ++ b) / 16 ≡ k + m = omega (arith, length-append a b) in
    let own : length a / 16 ≡ k = omega arith in
    let past : drop ((k + m) * 16) (a ++ b) ≡ drop (m * 16) b =
      ap (λ (t : ℕ). drop t (a ++ b)) {x = (k + m) * 16} {y = length a + m * 16} (omega arith)
      ∙ sym (drop-drop (m * 16) (length a) (a ++ b))
      ∙ ap (drop (m * 16)) (drop-append a b) in
    ap (λ (t : ℕ). blocks sk t (a ++ b) ++ drop (t * 16) (a ++ b)) all_blocks
    ∙ ap₂ ◌++◌ (blocks-append sk k m a b h) past
    ∙ append_assoc (blocks sk k a) (blocks sk m b) (drop (m * 16) b)
    ∙ ap (λ (t : List ℕ). t ++ ecb_16 sk b) (sym (append-nil (blocks sk k a)))
    ∙ ap (λ (t : List ℕ). (blocks sk k a ++ t) ++ ecb_16 sk b)
        (sym (drop_all (k * 16) a (omega arith)))
    ∙ ap (λ (t : ℕ). (blocks sk t a ++ drop (t * 16) a) ++ ecb_16 sk b) (sym own)

pub ecb_16_block :
    (sk input : List ℕ) → length input ≡ 16 → ecb_16 sk input ≡ one_round sk input (replicate 16 0)
unfolding ecb_16 blocks
ecb_16_block sk input h =
    let one : length input / 16 ≡ 1 = ap (λ (n : ℕ). n / 16) h in
    ap (λ (n : ℕ). blocks sk n input ++ drop (n * 16) input) one
    ∙ ap₂ (λ (a b : List ℕ). (one_round sk a (replicate 16 0) ++ []) ++ b)
        (take_all 16 input (omega arith)) (drop_all 16 input (omega arith))
    ∙ append-nil (one_round sk input (replicate 16 0) ++ [])
    ∙ append-nil (one_round sk input (replicate 16 0))

pub ecb_16_short : (sk input : List ℕ) → length input < 16 → ecb_16 sk input ≡ input
unfolding ecb_16 blocks
ecb_16_short sk input h =
    ap (λ (n : ℕ). blocks sk n input ++ drop (n * 16) input) {x = length input / 16} {y = 0}
      (omega arith)

module _ (sk sk' : List ℕ) (keys : Reversed sk sk' 32 0 0) where
  blocks_undo :
      (n : ℕ) (b rest : List ℕ)
      → n * 16 ≤ length b
      → IsBytes b
      → blocks sk' n (blocks sk n b ++ rest) ≡ take (n * 16) b
  unfolding blocks
  blocks_undo zero b rest h k = refl
  blocks_undo (suc n) b rest h k =
      let c = one_round sk (take 16 b) (replicate 16 0) in
      let more = blocks sk n (drop 16 b) ++ rest in
      let block = one_round-IsBlock sk (take 16 b) (replicate 16 0) refl in
      let first : take 16 ((c ++ blocks sk n (drop 16 b)) ++ rest) ≡ c =
        ap (take 16) (append_assoc c (blocks sk n (drop 16 b)) rest)
        ∙ take-append_at 16 c more block.0 in
      let others : drop 16 ((c ++ blocks sk n (drop 16 b)) ++ rest) ≡ more =
        ap (drop 16) (append_assoc c (blocks sk n (drop 16 b)) rest)
        ∙ drop-append_at 16 c more block.0 in
      let opened =
        one_round_undo sk sk' (take 16 b) (replicate 16 0) (replicate 16 0) keys
          (take-IsBlock b (omega arith) k) refl refl in
      ap₂ (λ (x y : List ℕ). one_round sk' x (replicate 16 0) ++ blocks sk' n y) first others
      ∙ ap₂ ◌++◌ opened
          (blocks_undo n (drop 16 b) rest (rw (length-drop 16 b) (omega arith)) (All-drop _ 16 b k))
      ∙ sym (take_split 16 (n * 16) b)
      ∙ ap (λ (t : ℕ). take t b) (omega arith)

  -- Deciphering with the reversed keys gives the bytes back, at any length.
  pub ecb_16_undo : (b : List ℕ) → IsBytes b → ecb_16 sk' (ecb_16 sk b) ≡ b
  unfolding ecb_16
  ecb_16_undo b k =
      let n = length b / 16 in
      let c = blocks sk n b ++ drop (n * 16) b in
      let same : length c / 16 ≡ n = ap (λ (t : ℕ). t / 16) (length-ecb_16 sk b) in
      ap (λ (t : ℕ). blocks sk' t c ++ drop (t * 16) c) same
      ∙ ap₂ ◌++◌ (blocks_undo n b (drop (n * 16) b) (omega arith) k)
          (drop-append_at (n * 16) (blocks sk n b) (drop (n * 16) b) (length-blocks sk n b))
      ∙ take-append-drop (n * 16) b

-- What the program writes under one key it reads back under the same key: `sm_crypt_ecb_16` with
-- the schedule of `sm4_setkey_enc` and then with that of `sm4_setkey_dec` succeeds on buffers of
-- `len` bytes or more, restores the first `len` bytes, and leaves the others, whatever the two
-- contexts, the mode arguments and the output buffers held before.
pub crypt_ecb_16_undo :
    (ctx ctx' : Context) (key : List ℕ) (mode mode' len : ℕ) (input output output' : List ℕ)
    → length ctx.sk ≡ 32
    → length ctx'.sk ≡ 32
    → IsBytes input
    → len ≤ length input
    → len ≤ length output
    → len ≤ length output'
    → (cipher : List ℕ) × (crypt_ecb_16 (setkey_enc ctx key) mode len input output ≡ some cipher)
      × (crypt_ecb_16 (setkey_dec ctx' key) mode' len cipher output'
          ≡ some (take len input ++ drop len output'))
crypt_ecb_16_undo ctx ctx' key mode mode' len input output output' h h' bytes hi ho ho' =
    let enc = setkey_enc ctx key in
    let dec = setkey_dec ctx' key in
    let plain = take len input in
    let text = ecb_16 enc.sk plain in
    let same : length text ≡ len =
      length-ecb_16 enc.sk plain ∙ length-take len input ∙ omega arith in
    let cipher = text ++ drop len output in
    let long : len ≤ length cipher = rw (length-append text (drop len output)) (omega arith) in
    let front : take len cipher ≡ text = take-append_at len text (drop len output) same in
    let opened =
      ecb_16_undo enc.sk dec.sk (setkey_dec-Reversed ctx ctx' key h h') plain
        (All-take _ len input bytes) in
    (
      cipher,
      crypt_ecb_16-blocks enc mode len input output hi ho,
      crypt_ecb_16-blocks dec mode' len cipher output' long ho'
          ∙ ap (λ (t : List ℕ). some (ecb_16 dec.sk t ++ drop len output')) front
          ∙ ap (λ (t : List ℕ). some (t ++ drop len output')) opened,
    )
