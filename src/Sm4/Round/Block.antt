-- ===== src/Sm4/Round/Block.antt =====
-- A block of 16 bytes as four big-endian words, and `sm4_one_round` on blocks.
use sec_pro_gis.Base.{ℕ, ◌^◌, ◌<◌, List, [], ◌∷◌, ◌++◌, u8}
use sec_pro_gis.Base.{
  ◌≡◌, refl, sym, ap, ap₂, ◌∙◌, subst, arith, set, length, replicate, IsBytes, IsByte,
}
use sec_pro_gis.Base.{◌>>◌}
use sec_pro_gis.Endian.{get_ulong_be, put_ulong_be, be_bytes, be_word, or_bytes}
use sec_pro_gis.Endian.{get_ulong_be-IsWord}
use sec_pro_gis.Sm4.{round_loop, one_round}
use sec_pro_gis.Sm4.Round.{
  window, Quad, IsWords, backwards, steps, loop-window, Reversed, steps_undo, steps-IsWords,
}

abbrev pub load : List ℕ → Quad
load b = record {
  x0 = get_ulong_be b 0;
  x1 = get_ulong_be b 4;
  x2 = get_ulong_be b 8;
  x3 = get_ulong_be b 12;
}

abbrev pub store : Quad → List ℕ
store q = be_bytes q.x0 ++ (be_bytes q.x1 ++ (be_bytes q.x2 ++ be_bytes q.x3))

-- What a block is: 16 bytes.
abbrev pub IsBlock : List ℕ → Type 0
IsBlock b = (length b ≡ 16) × IsBytes b

-- To prove something of a block, prove it of 16 bytes.
block_cases {ℓ} :
    (P : List ℕ → Type ℓ)
    → ((a0 a1 a2 a3 a4 a5 a6 a7 a8 a9 a10 a11 a12 a13 a14 a15 : ℕ)
        → P (
            a0 ∷ a1 ∷ a2 ∷ a3 ∷ a4 ∷ a5 ∷ a6 ∷ a7 ∷ a8 ∷ a9 ∷ a10 ∷ a11 ∷ a12 ∷ a13 ∷ a14 ∷ a15
            ∷ []))
    → (b : List ℕ) → length b ≡ 16
    → P b
block_cases P base
      (a0 ∷ a1 ∷ a2 ∷ a3 ∷ a4 ∷ a5 ∷ a6 ∷ a7 ∷ a8 ∷ a9 ∷ a10 ∷ a11 ∷ a12 ∷ a13 ∷ a14 ∷ a15 ∷ []) h =
    base a0 a1 a2 a3 a4 a5 a6 a7 a8 a9 a10 a11 a12 a13 a14 a15
block_cases P base _ h = absurd (omega arith)

pub store-IsBlock : (q : Quad) → IsBlock (store q)
unfolding be_bytes
store-IsBlock q = (refl, omega arith)

pub load-IsWords : (b : List ℕ) → IsBlock b → IsWords (load b)
unfolding get_ulong_be
load-IsWords b h = block_cases (λ t. IsBytes t → IsWords (load t)) bytes b h.0 h.1
  where
    bytes :
        (a0 a1 a2 a3 a4 a5 a6 a7 a8 a9 a10 a11 a12 a13 a14 a15 : ℕ)
        → IsBytes (
            a0 ∷ a1 ∷ a2 ∷ a3 ∷ a4 ∷ a5 ∷ a6 ∷ a7 ∷ a8 ∷ a9 ∷ a10 ∷ a11 ∷ a12 ∷ a13 ∷ a14 ∷ a15
            ∷ [])
        → IsWords (
            load (
              a0 ∷ a1 ∷ a2 ∷ a3 ∷ a4 ∷ a5 ∷ a6 ∷ a7 ∷ a8 ∷ a9 ∷ a10 ∷ a11 ∷ a12 ∷ a13 ∷ a14 ∷ a15
              ∷ []))
    bytes a0 a1 a2 a3 a4 a5 a6 a7 a8 a9 a10 a11 a12 a13 a14 a15 k = (
      get_ulong_be-IsWord
          (a0 ∷ a1 ∷ a2 ∷ a3 ∷ a4 ∷ a5 ∷ a6 ∷ a7 ∷ a8 ∷ a9 ∷ a10 ∷ a11 ∷ a12 ∷ a13 ∷ a14 ∷ a15 ∷ [])
          0 (omega arith),
      get_ulong_be-IsWord
          (a0 ∷ a1 ∷ a2 ∷ a3 ∷ a4 ∷ a5 ∷ a6 ∷ a7 ∷ a8 ∷ a9 ∷ a10 ∷ a11 ∷ a12 ∷ a13 ∷ a14 ∷ a15 ∷ [])
          4 (omega arith),
      get_ulong_be-IsWord
          (a0 ∷ a1 ∷ a2 ∷ a3 ∷ a4 ∷ a5 ∷ a6 ∷ a7 ∷ a8 ∷ a9 ∷ a10 ∷ a11 ∷ a12 ∷ a13 ∷ a14 ∷ a15 ∷ [])
          8 (omega arith),
      get_ulong_be-IsWord
          (a0 ∷ a1 ∷ a2 ∷ a3 ∷ a4 ∷ a5 ∷ a6 ∷ a7 ∷ a8 ∷ a9 ∷ a10 ∷ a11 ∷ a12 ∷ a13 ∷ a14 ∷ a15 ∷ [])
          12 (omega arith),
    )

be_bytes-get :
    (a b c d : ℕ)
    → IsByte a
    → IsByte b
    → IsByte c
    → IsByte d
    → be_bytes (be_word a b c d) ≡ a ∷ b ∷ c ∷ d ∷ []
unfolding be_bytes
be_bytes-get a b c d ha hb hc hd = ground arith

get-be_bytes : (n : ℕ) → n < 2 ^ 32 → get_ulong_be (be_bytes n) 0 ≡ n
unfolding be_bytes get_ulong_be
get-be_bytes n h =
    or_bytes (u8 (n >> 24)) (u8 (n >> 16)) (u8 (n >> 8)) (u8 n) (omega arith) (omega arith)
      (omega arith) (omega arith)
    ∙ omega arith

pub load-store : (q : Quad) → IsWords q → load (store q) ≡ q
unfolding be_bytes get_ulong_be
load-store q h = λ i. record {
  x0 = get-be_bytes q.x0 h.0 i;
  x1 = get-be_bytes q.x1 h.1 i;
  x2 = get-be_bytes q.x2 h.2 i;
  x3 = get-be_bytes q.x3 h.3 i;
}

pub store-load : (b : List ℕ) → IsBlock b → store (load b) ≡ b
unfolding get_ulong_be
store-load b h = block_cases (λ t. IsBytes t → store (load t) ≡ t) bytes b h.0 h.1
  where
    word :
        (a b c d : ℕ)
        → IsByte a
        → IsByte b
        → IsByte c
        → IsByte d
        → be_bytes (get_ulong_be (a ∷ b ∷ c ∷ d ∷ []) 0) ≡ a ∷ b ∷ c ∷ d ∷ []
    word a b c d ha hb hc hd =
        ap be_bytes (or_bytes a b c d ha hb hc hd) ∙ be_bytes-get a b c d ha hb hc hd

    bytes :
        (a0 a1 a2 a3 a4 a5 a6 a7 a8 a9 a10 a11 a12 a13 a14 a15 : ℕ)
        → IsBytes (
            a0 ∷ a1 ∷ a2 ∷ a3 ∷ a4 ∷ a5 ∷ a6 ∷ a7 ∷ a8 ∷ a9 ∷ a10 ∷ a11 ∷ a12 ∷ a13 ∷ a14 ∷ a15
            ∷ [])
        → store (
            load (
              a0 ∷ a1 ∷ a2 ∷ a3 ∷ a4 ∷ a5 ∷ a6 ∷ a7 ∷ a8 ∷ a9 ∷ a10 ∷ a11 ∷ a12 ∷ a13 ∷ a14 ∷ a15
              ∷ []))
          ≡ a0 ∷ a1 ∷ a2 ∷ a3 ∷ a4 ∷ a5 ∷ a6 ∷ a7 ∷ a8 ∷ a9 ∷ a10 ∷ a11 ∷ a12 ∷ a13 ∷ a14 ∷ a15 ∷ []
    bytes a0 a1 a2 a3 a4 a5 a6 a7 a8 a9 a10 a11 a12 a13 a14 a15 k =
        ap₂ ◌++◌ (word a0 a1 a2 a3 (omega arith) (omega arith) (omega arith) (omega arith)) (
          ap₂ ◌++◌ (word a4 a5 a6 a7 (omega arith) (omega arith) (omega arith) (omega arith)) (
            ap₂ ◌++◌ (word a8 a9 a10 a11 (omega arith) (omega arith) (omega arith) (omega arith))
              (word a12 a13 a14 a15 (omega arith) (omega arith) (omega arith) (omega arith))))

abbrev writes : Quad → List ℕ → List ℕ
writes q o =
    let o0 = put_ulong_be q.x0 o 0 in
    let o1 = put_ulong_be q.x1 o0 4 in let o2 = put_ulong_be q.x2 o1 8 in put_ulong_be q.x3 o2 12

writes-store : (q : Quad) (o : List ℕ) → length o ≡ 16 → writes q o ≡ store q
unfolding put_ulong_be be_bytes
writes-store q =
    block_cases (λ t. writes q t ≡ store q)
      (λ a0 a1 a2 a3 a4 a5 a6 a7 a8 a9 a10 a11 a12 a13 a14 a15. refl)

-- `sm4_one_round` runs 32 Feistel steps on the four big-endian words of its input and stores the
-- words in reverse order, whatever the 16 bytes of the output held.
pub one_round-steps :
    (sk input output : List ℕ)
    → length output ≡ 16
    → one_round sk input output ≡ store (backwards (steps sk 32 0 (load input)))
unfolding one_round
one_round-steps sk input output h =
    let b0 = set (replicate 36 0) 0 (get_ulong_be input 0) in
    let b1 = set b0 1 (get_ulong_be input 4) in
    let b2 = set b1 2 (get_ulong_be input 8) in
    let b3 = set b2 3 (get_ulong_be input 12) in
    let last = window (round_loop sk 32 0 b3) 32 in
    writes-store (backwards last) output h
    ∙ ap (λ (q : Quad). store (backwards q)) (loop-window sk 32 0 b3 (omega arith))

pub one_round-IsBlock :
    (sk input output : List ℕ) → length output ≡ 16 → IsBlock (one_round sk input output)
one_round-IsBlock sk input output h =
    subst IsBlock (sym (one_round-steps sk input output h)) (store-IsBlock _)

-- `sm4_one_round` with the keys reversed gives a block back.
pub one_round_undo :
    (sk sk' b out out' : List ℕ)
    → Reversed sk sk' 32 0 0
    → IsBlock b
    → length out ≡ 16
    → length out' ≡ 16
    → one_round sk' (one_round sk b out) out' ≡ b
one_round_undo sk sk' b out out' keys h ho ho' =
    let q = load b in
    let enc = steps sk 32 0 q in
    let words = steps-IsWords sk 32 0 q (load-IsWords b h) in
    let turned : IsWords (backwards enc) = (words.3, words.2, words.1, words.0) in
    one_round-steps sk' (one_round sk b out) out' ho'
    ∙ ap (λ (t : List ℕ). store (backwards (steps sk' 32 0 (load t)))) (one_round-steps sk b out ho)
    ∙ ap (λ (t : Quad). store (backwards (steps sk' 32 0 t))) (load-store (backwards enc) turned)
    ∙ ap (λ (t : Quad). store (backwards t)) (steps_undo sk sk' 32 0 0 q keys)
    ∙ store-load b h
