-- ===== src/Sm4/Round.antt =====
-- `sm4_one_round` is a Feistel network of 32 steps, so the reversed keys undo it.
pub mod Block
use sec_pro_gis.Base.{
  ℕ, zero, suc, ◌+◌, ◌-◌, ◌*◌, ◌^◌, ◌≤◌, ◌<◌, List, [], ◌∷◌, ◌++◌, bit_xor, u8, u32,
}
use sec_pro_gis.Base.{◌≡◌, refl, sym, ap, ap₂, ◌∙◌, arith, set, length, length-set, replicate, ◌≢◌}
use sec_pro_gis.Base.{get_or-set_self, get_or-set_ne, IsBytes, IsByte, IsWord, ◌<<◌, ◌>>◌}
use sec_pro_gis.Bits.Xor.{bit_xor_comm, bit_xor_assoc, bit_xor_self, bit_xor_zero, bit_xor-lt}
use sec_pro_gis.Endian.{at, get_ulong_be, put_ulong_be, be_bytes, be_word, or_bytes}
use sec_pro_gis.Endian.{get_ulong_be-IsWord, rotl-IsWord}
use sec_pro_gis.Sm4.{◌⊕◌, lt, f, round_loop, one_round, substitute, sbox}

-- Four consecutive words of the buffer.
pub record Quad : Type 0 where
  pub x0 : ℕ
  pub x1 : ℕ
  pub x2 : ℕ
  pub x3 : ℕ

abbrev pub IsWords : Quad → Type 0
IsWords q = IsWord q.x0 × IsWord q.x1 × IsWord q.x2 × IsWord q.x3

abbrev pub backwards : Quad → Quad
backwards q = record { x0 = q.x3; x1 = q.x2; x2 = q.x1; x3 = q.x0 }

abbrev pub step : ℕ → Quad → Quad
step rk q = record { x0 = q.x1; x1 = q.x2; x2 = q.x3; x3 = f q.x0 q.x1 q.x2 q.x3 rk }

-- `n` steps with the keys of `sk` from position `i` on.
pub steps : List ℕ → ℕ → ℕ → Quad → Quad
steps sk zero i q = q
steps sk (suc n) i q = steps sk n (i + 1) (step (at sk i) q)

abbrev pub window : List ℕ → ℕ → Quad
window b i = record { x0 = at b i; x1 = at b (i + 1); x2 = at b (i + 2); x3 = at b (i + 3) }

-- The words of a substituted word are words.
substitute-IsWord : (ka : ℕ) → IsWord (substitute ka)
unfolding substitute sbox
substitute-IsWord ka =
    let a = put_ulong_be ka (replicate 4 0) 0 in
    get_ulong_be-IsWord (sbox (at a 0) ∷ sbox (at a 1) ∷ sbox (at a 2) ∷ sbox (at a 3) ∷ []) 0
      (omega arith)

pub lt-IsWord : (ka : ℕ) → IsWord (lt ka)
unfolding lt
lt-IsWord ka =
    let w = substitute-IsWord ka in
    bit_xor-lt 32 _ _
      (bit_xor-lt 32 _ _
        (bit_xor-lt 32 _ _ (bit_xor-lt 32 _ _ w (rotl-IsWord _ 2 w)) (rotl-IsWord _ 10 w))
        (rotl-IsWord _ 18 w))
      (rotl-IsWord _ 24 w)

f-IsWord : (a b c d rk : ℕ) → IsWord a → IsWord (f a b c d rk)
unfolding f
f-IsWord a b c d rk h = bit_xor-lt 32 _ _ h (lt-IsWord (b ⊕ c ⊕ d ⊕ rk))

pub steps-IsWords : (sk : List ℕ) (n i : ℕ) (q : Quad) → IsWords q → IsWords (steps sk n i q)
unfolding steps
steps-IsWords sk zero i q h = h
steps-IsWords sk (suc n) i q h =
    steps-IsWords sk n (i + 1) (step (at sk i) q)
      (h.1, h.2, h.3, f-IsWord q.x0 q.x1 q.x2 q.x3 (at sk i) h.0)

-- Three words in either order.
xor_turn : (a b c : ℕ) → a ⊕ b ⊕ c ≡ c ⊕ b ⊕ a
xor_turn a b c =
    bit_xor_comm (a ⊕ b) c ∙ ap (bit_xor c) (bit_xor_comm a b) ∙ sym (bit_xor_assoc c b a)

xor_cancel : (a t : ℕ) → a ⊕ t ⊕ t ≡ a
xor_cancel a t = bit_xor_assoc a t t ∙ ap (bit_xor a) (bit_xor_self t) ∙ bit_xor_zero a

-- A step, run on the reversed quad, gives the word that it mixed back.
f_undo : (a b c d rk : ℕ) → f (f a b c d rk) d c b rk ≡ a
unfolding f
f_undo a b c d rk = rw (xor_turn d c b) (xor_cancel a (lt (b ⊕ c ⊕ d ⊕ rk)))

step_undo : (rk : ℕ) (q : Quad) → step rk (backwards (step rk q)) ≡ backwards q
step_undo rk q = rw (f_undo q.x0 q.x1 q.x2 q.x3 rk)

steps_last :
    (sk : List ℕ) (n i : ℕ) (q : Quad)
    → steps sk (suc n) i q ≡ step (at sk (i + n)) (steps sk n i q)
unfolding steps
steps_last sk zero i q = ap (λ (t : ℕ). step (at sk t) q) (omega arith)
steps_last sk (suc n) i q =
    steps_last sk n (i + 1) (step (at sk i) q)
    ∙ ap (λ (t : ℕ). step (at sk t) (steps sk (suc n) i q)) (omega arith)

-- The keys of `sk'` from `j` on are those of `sk` from `i` on, last first.
abbrev pub Reversed : List ℕ → List ℕ → ℕ → ℕ → ℕ → Type 0
Reversed sk sk' n i j = (m : ℕ) → m < n → at sk' (j + m) ≡ at sk (i + n - 1 - m)

pub steps_undo :
    (sk sk' : List ℕ) (n i j : ℕ) (q : Quad)
    → Reversed sk sk' n i j
    → steps sk' n j (backwards (steps sk n i q)) ≡ backwards q
unfolding steps
steps_undo sk sk' zero i j q h = refl
steps_undo sk sk' (suc n) i j q h =
    let moved = step (at sk i) q in
    let inner : steps sk' n j (backwards (steps sk n (i + 1) moved)) ≡ backwards moved =
      steps_undo sk sk' n (i + 1) j moved λ m p. h m (omega arith) ∙ ap (at sk) (omega arith) in
    let key : at sk' (j + n) ≡ at sk i = h n (omega arith) ∙ ap (at sk) (omega arith) in
    steps_last sk' n j _ ∙ ap₂ step key inner ∙ step_undo (at sk i) q

-- The array loop computes the steps.
window-set :
    (b : List ℕ) (i v : ℕ)
    → i + 5 ≤ length b
    → window (set b (i + 4) v) (i + 1)
      ≡ record { x0 = at b (i + 1); x1 = at b (i + 2); x2 = at b (i + 3); x3 = v }
window-set b i v h = ground (
  arith,
  get_or-set_ne b (i + 4) (i + 1) v 0,
  get_or-set_ne b (i + 4) (i + 1 + 1) v 0,
  get_or-set_ne b (i + 4) (i + 1 + 2) v 0,
  get_or-set_self b (i + 4) v 0,
)

pub loop-window :
    (sk : List ℕ) (n i : ℕ) (b : List ℕ)
    → i + n + 4 ≤ length b
    → window (round_loop sk n i b) (i + n) ≡ steps sk n i (window b i)
unfolding round_loop steps
loop-window sk zero i b h = ap (window b) (omega arith)
loop-window sk (suc n) i b h =
    let v = f (at b i) (at b (i + 1)) (at b (i + 2)) (at b (i + 3)) (at sk i) in
    ap (window (round_loop sk n (i + 1) (set b (i + 4) v))) (omega arith)
    ∙ loop-window sk n (i + 1) (set b (i + 4) v) (rw (length-set b (i + 4) v) (omega arith))
    ∙ ap (steps sk n (i + 1)) (window-set b i v (omega arith))
