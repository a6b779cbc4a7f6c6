-- ===== src/Sm3/Absorb.antt =====
-- The state after a message, block by block, and what the buffered tail of a stream is.
use Prim.Native.Nat.add
use sec_pro_gis.Base.{ℕ, zero, suc, ◌+◌, ◌*◌, ◌/◌, ◌%◌, ◌≤◌, ◌<◌, List, [], ◌∷◌, ◌++◌}
use sec_pro_gis.Base.{
  append_assoc, append-nil, length, take, drop, ◌≡◌, refl, sym, ap, ap₂, ◌∙◌, arith,
}
use sec_pro_gis.Base.{length-append, length-take, length-drop, take-append_at, take-append_le}
use sec_pro_gis.Base.{drop-append, drop-append_le, drop-drop, drop_all, ◌⊎◌, inl, inr}
use sec_pro_gis.Base.{le→leb}
use sec_pro_gis.Sm3.Compress.{compress}
use sec_pro_gis.Sm3.{Context, process, write_at, block_loop, store_rest, drain}

-- The state `s` after the first `n` blocks of `m`.
pub absorb : List ℕ → ℕ → List ℕ → List ℕ
absorb s zero m = s
absorb s (suc n) m = absorb (compress s (take 64 m)) n (drop 64 m)

pub absorb-zero : (s m : List ℕ) → absorb s zero m ≡ s
unfolding absorb
absorb-zero s m = refl

pub absorb-suc :
    (s : List ℕ) (n : ℕ) (m : List ℕ)
    → absorb s (suc n) m ≡ absorb (compress s (take 64 m)) n (drop 64 m)
unfolding absorb
absorb-suc s n m = refl

-- Blocks past the first `n` do not matter.
pub absorb-append_le :
    (s : List ℕ) (n : ℕ) (a b : List ℕ) → n * 64 ≤ length a → absorb s n (a ++ b) ≡ absorb s n a
unfolding absorb
absorb-append_le s zero a b h = refl
absorb-append_le s (suc n) a b h =
    ap₂ (λ (x y : List ℕ). absorb (compress s x) n y) (take-append_le 64 a b (omega arith))
      (drop-append_le 64 a b (omega arith))
    ∙ absorb-append_le (compress s (take 64 a)) n (drop 64 a) b
        (rw (length-drop 64 a) (omega arith))

pub absorb-append :
    (s : List ℕ) (n k : ℕ) (a b : List ℕ)
    → length a ≡ n * 64
    → absorb s (n + k) (a ++ b) ≡ absorb (absorb s n a) k b
absorb-append s zero k [] b h =
    ap (λ (t : ℕ). absorb s t b) {x = zero + k} {y = k} (omega arith)
    ∙ ap (λ (t : List ℕ). absorb t k b) (sym (absorb-zero s []))
absorb-append s zero k (x ∷ a) b h = absurd (omega arith)
absorb-append s (suc n) k a b h =
    ap (λ (t : ℕ). absorb s t (a ++ b)) (add.suc n k)
    ∙ absorb-suc s (n + k) (a ++ b)
    ∙ ap₂ (λ (x y : List ℕ). absorb (compress s x) (n + k) y) (take-append_le 64 a b (omega arith))
        (drop-append_le 64 a b (omega arith))
    ∙ absorb-append (compress s (take 64 a)) n k (drop 64 a) b (length-drop 64 a ∙ omega arith)
    ∙ ap (λ (t : List ℕ). absorb t k b) (sym (absorb-suc s n a))

-- `ctx` stands after the message `m`, begun from the state `s`; the counter is another matter.
pub record Holds (s m : List ℕ) (ctx : Context) : Type 0 where
  pub state_is : ctx.state ≡ absorb s (length m / 64) m
  pub buffer_length : length ctx.buffer ≡ 64
  pub buffer_is : take (length m % 64) ctx.buffer ≡ drop (length m / 64 * 64) m

-- The loop takes as many blocks as the input has, and touches nothing but the state.
pub block_loop-absorb :
    (fuel n : ℕ) (ctx : Context) (input : List ℕ)
    → n ≤ fuel
    → n ≡ length input / 64
    → block_loop fuel ctx input
      ≡ (record ctx { state = absorb ctx.state n input }, drop (n * 64) input)
unfolding block_loop process
block_loop-absorb zero zero ctx input f e = unfold absorb in refl
block_loop-absorb zero (suc n) ctx input f e = absurd (omega arith)
block_loop-absorb (suc fuel) zero ctx input f e = unfold absorb in ground arith
block_loop-absorb (suc fuel) (suc n) ctx input f e =
    let next = process ctx (take 64 input) in
    let rest =
      block_loop-absorb fuel n next (drop 64 input) (omega arith)
        (omega (arith, length-drop 64 input)) in
    let ends : drop (n * 64) (drop 64 input) ≡ drop (suc n * 64) input =
      drop-drop (n * 64) 64 input ∙ ap (λ (t : ℕ). drop t input) (omega arith) in
    let long : 64 ≤ length input = omega arith in
    let after : Context = record next { state = absorb next.state n (drop 64 input) } in
    rw (le→leb 64 (length input) long) (
      rest
      ∙ ap (λ (t : List ℕ). (after, t)) ends
      ∙ ap (λ (t : List ℕ). (record ctx { state = t }, drop (suc n * 64) input))
          (sym (absorb-suc ctx.state n input)))

store_rest-cons :
    (r x : ℕ) (xs : List ℕ) (ctx : Context)
    → store_rest r (ctx, x ∷ xs) ≡ record ctx { buffer = write_at ctx.buffer r (x ∷ xs) }
unfolding store_rest
store_rest-cons r x xs ctx = ground arith

-- What the last copy of `sm3_update` leaves.
store_rest-Holds :
    (s m front rest : List ℕ) (r : ℕ) (ctx : Context)
    → ctx.state ≡ absorb s (length m / 64) m
    → length ctx.buffer ≡ 64
    → take r ctx.buffer ≡ front
    → drop (length m / 64 * 64) m ≡ front ++ rest
    → length m % 64 ≡ r + length rest
    → Holds s m (store_rest r (ctx, rest))
unfolding store_rest
store_rest-Holds s m front [] r ctx hs hb hf hd hr = record {
  state_is = hs;
  buffer_length = hb;
  buffer_is =
      ap (λ (t : ℕ). take t ctx.buffer) {x = length m % 64} {y = r} (omega arith)
      ∙ hf
      ∙ sym (append-nil front)
      ∙ sym hd;
}
store_rest-Holds s m front (x ∷ xs) r ctx hs hb hf hd hr =
    let rest = x ∷ xs in
    let kept = take r ctx.buffer in
    let short : length kept ≡ r = length-take r ctx.buffer ∙ omega arith in
    let tail = drop (r + length rest) ctx.buffer in
    let joined : kept ++ (rest ++ tail) ≡ (kept ++ rest) ++ tail =
      sym (append_assoc kept rest tail) in
    rw (store_rest-cons r x xs ctx) (record {
      state_is = hs;
      buffer_length =
          ap length joined
          ∙ length-append (kept ++ rest) tail
          ∙ omega (arith, length-append kept rest, length-drop (r + length rest) ctx.buffer);
      buffer_is =
          ap₂ take hr joined
          ∙ take-append_at (r + length rest) (kept ++ rest) tail
              (length-append kept rest ∙ omega arith)
          ∙ ap (λ (t : List ℕ). t ++ rest) hf
          ∙ sym hd;
    })

-- The blocks and the tail of a message that goes on.
blocks_of :
    (s m input : List ℕ)
    → (length m % 64 ≡ 0) ⊎ (length m % 64 + length input < 64)
    → (absorb (absorb s (length m / 64) m) (length input / 64) input
        ≡ absorb s (length (m ++ input) / 64) (m ++ input))
      × (drop (length (m ++ input) / 64 * 64) (m ++ input)
          ≡ drop (length m / 64 * 64) m ++ drop (length input / 64 * 64) input)
blocks_of s m input (inl even) =
    let q = length m / 64 in
    let n = length input / 64 in
    let count : q + n ≡ length (m ++ input) / 64 = omega (arith, length-append m input) in
    let exact : length m ≡ q * 64 = omega arith in
    (
      sym (absorb-append s q n m input exact) ∙ ap (λ (t : ℕ). absorb s t (m ++ input)) count,
      ap (λ (t : ℕ). drop t (m ++ input)) {x = length (m ++ input) / 64 * 64}
            {y = length m + n * 64} (omega (arith, length-append m input))
          ∙ sym (drop-drop (n * 64) (length m) (m ++ input))
          ∙ ap (drop (n * 64)) (drop-append m input)
          ∙ ap (λ (t : List ℕ). t ++ drop (n * 64) input) (sym (drop_all (q * 64) m (omega arith))),
    )
blocks_of s m input (inr small) =
    let q = length m / 64 in
    let none_whole : length input / 64 ≡ 0 = omega arith in
    let count : length (m ++ input) / 64 ≡ q = omega (arith, length-append m input) in
    (
      ap (λ (t : ℕ). absorb (absorb s q m) t input) none_whole
          ∙ absorb-zero (absorb s q m) input
          ∙ sym (absorb-append_le s q m input (omega arith))
          ∙ ap (λ (t : ℕ). absorb s t (m ++ input)) (sym count),
      ap (λ (t : ℕ). drop (t * 64) (m ++ input)) count
          ∙ drop-append_le (q * 64) m input (omega arith)
          ∙ ap (λ (t : ℕ). drop (q * 64) m ++ drop (t * 64) input) (sym none_whole),
    )

-- With nothing buffered, or with too little input to fill a block, the end of `sm3_update` keeps the
-- description.
pub drain-Holds :
    (s m input : List ℕ) (ctx : Context)
    → Holds s m ctx
    → (length m % 64 ≡ 0) ⊎ (length m % 64 + length input < 64)
    → Holds s (m ++ input) (drain ctx input (length m % 64))
unfolding drain
drain-Holds s m input ctx h room =
    let n = length input / 64 in
    let rest = drop (n * 64) input in
    let after : Context = record ctx { state = absorb ctx.state n input } in
    let whole = blocks_of s m input room in
    rw (block_loop-absorb (length input) n ctx input (omega arith) refl) (
      store_rest-Holds s (m ++ input) (drop (length m / 64 * 64) m) rest (length m % 64) after
        (ap (λ (t : List ℕ). absorb t n input) h.state_is ∙ whole.0) h.buffer_length h.buffer_is
        whole.1 (omega (arith, length-append m input, length-drop (n * 64) input)))
