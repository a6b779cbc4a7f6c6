-- ===== src/Sm3/Digest.antt =====
-- The digest: `sm3`, `sm3_file` and `sm3_finish` against the padding rule of the standard.
use sec_pro_gis.Base.{ℕ, zero, suc, ◌+◌, ◌-◌, ◌*◌, ◌/◌, ◌%◌, ◌^◌, ◌≤◌, ◌<◌, List, [], ◌∷◌, ◌++◌}
use sec_pro_gis.Base.{
  append_assoc, append-nil, length, take, drop, ◌≡◌, refl, sym, ap, ap₂, ◌∙◌, subst, subst₂, arith,
}
use sec_pro_gis.Base.{length-append, length-take, replicate, length-replicate, All}
use sec_pro_gis.Base.{bit_or, u32, if◌then◌else◌, ◌>>◌, ◌<<◌, some, Bool, IsBytes}
use sec_pro_gis.Bits.Fields.{bit_or-fields, bit_or_comm}
use sec_pro_gis.Endian.{be_bytes}
use sec_pro_gis.Sm3.Compress.{compress}
use sec_pro_gis.Sm3.Absorb.{absorb, absorb-zero, absorb-suc}
use sec_pro_gis.Sm3.Stream.{Absorbed, starts-Absorbed, update-Absorbed, left-eq}
use sec_pro_gis.Sm3.{
  Context, initial_state, starts, update, padding, padn, msglen, digest, finish, sm3, update_all,
  sm3_file, opened,
}

-- A number below 2 ^ 64 in eight bytes, most significant first.
be_bytes64 : ℕ → List ℕ
be_bytes64 n = be_bytes (n / 2 ^ 32 % 2 ^ 32) ++ be_bytes (n % 2 ^ 32)

-- The padding rule: a one bit, the fewest zero bits that leave eight bytes of a block, and the
-- length in bits.
pub padded : List ℕ → List ℕ
padded m = m ++ ((0x80 ∷ replicate ((119 - length m % 64) % 64) 0) ++ be_bytes64 (length m * 8))

-- The hash of the standard: every block of the padded message compressed in turn.
pub hash : List ℕ → List ℕ
hash m = digest (absorb initial_state (length (padded m) / 64) (padded m))

padn_cases : (r : ℕ) → r < 64 → padn r ≡ suc ((119 - r) % 64)
unfolding padn
padn_cases r h = ground arith

take-replicate : (n l a : ℕ) → n ≤ l → take n (replicate l a) ≡ replicate n a
take-replicate zero l a p = refl
take-replicate (suc n) zero a p = absurd (omega arith)
take-replicate (suc n) (suc l) a p = ap (λ (t : List ℕ). a ∷ t) (take-replicate n l a (omega arith))

take-padding : (k : ℕ) → k < 64 → take (suc k) padding ≡ 0x80 ∷ replicate k 0
take-padding k h = ap (λ (t : List ℕ). 0x80 ∷ t) (take-replicate k 63 0 (omega arith))

msglen-eq : (m : List ℕ) (ctx : Context) → Absorbed m ctx → msglen ctx ≡ be_bytes64 (length m * 8)
unfolding msglen be_bytes64
msglen-eq m ctx h =
    let high : bit_or (ctx.total0 >> 29) (u32 (ctx.total1 << 3)) ≡ length m * 8 / 2 ^ 32 % 2 ^ 32 =
      ap (bit_or (ctx.total0 >> 29)) {y = (ctx.total1 % 2 ^ 29) << 3} (omega arith)
      ∙ bit_or_comm (ctx.total0 >> 29) ((ctx.total1 % 2 ^ 29) << 3)
      ∙ bit_or-fields 3 (ctx.total1 % 2 ^ 29) (ctx.total0 >> 29) (omega (arith, h.low))
      ∙ omega (arith, h.low, h.high) in
    ap₂ (λ (a b : ℕ). be_bytes a ++ be_bytes b) high (omega (arith, h.low))

length-be_bytes64 : (n : ℕ) → length (be_bytes64 n) ≡ 8
unfolding be_bytes64 be_bytes
length-be_bytes64 n = refl

length-take-padding : (r : ℕ) → r < 64 → length (take (padn r) padding) ≡ padn r
length-take-padding r h = length-take (padn r) padding ∙ omega (arith, padn_cases r h)

-- `sm3_finish` feeds the padding.
pub finish-Absorbed :
    (m : List ℕ) (ctx : Context) → Absorbed m ctx → Absorbed (padded m) (finish ctx).0
unfolding finish
finish-Absorbed m ctx h =
    let r = length m % 64 in
    let pad = take (padn r) padding in
    let size : length pad < 2 ^ 32 =
      omega (arith, length-take-padding r (omega arith), padn_cases r (omega arith)) in
    let once = update-Absorbed m pad ctx h size in
    let eight : length (msglen ctx) ≡ 8 =
      ap length (msglen-eq m ctx h) ∙ length-be_bytes64 (length m * 8) in
    let twice =
      update-Absorbed (m ++ pad) (msglen ctx) (update ctx pad) once (omega (arith, eight)) in
    let start : pad ≡ 0x80 ∷ replicate ((119 - r) % 64) 0 =
      ap (λ (t : ℕ). take t padding) (padn_cases r (omega arith))
      ∙ take-padding ((119 - r) % 64) (omega arith) in
    let message : (m ++ pad) ++ msglen ctx ≡ padded m =
      unfold padded in
      append_assoc m pad (msglen ctx)
      ∙ ap₂ (λ (x y : List ℕ). m ++ (x ++ y)) start (msglen-eq m ctx h) in
    subst₂
      (λ (t : List ℕ) (k : ℕ).
        Absorbed t (update (update ctx (take (padn k) padding)) (msglen ctx)))
      message (sym (left-eq m ctx h)) twice

-- `sm3_finish` on a context that stands for `m` gives the hash of `m`.
pub finish-hash : (m : List ℕ) (ctx : Context) → Absorbed m ctx → (finish ctx).1 ≡ hash m
unfolding hash
finish-hash m ctx h = digest_of ctx ∙ ap digest (finish-Absorbed m ctx h).holds.state_is
  where
    digest_of : (c : Context) → (finish c).1 ≡ digest (finish c).0.state
    digest_of c = unfold finish in refl

-- The padded message is whole blocks.
pub length-padded : (m : List ℕ) → length (padded m) % 64 ≡ 0
unfolding padded
length-padded m =
    let zeros = (119 - length m % 64) % 64 in
    let pad = (0x80 ∷ replicate zeros 0) ++ be_bytes64 (length m * 8) in
    let size : length pad ≡ zeros + 9 =
      length-append (0x80 ∷ replicate zeros 0) (be_bytes64 (length m * 8))
      ∙ omega (arith, length-replicate {A = ℕ} zeros 0, length-be_bytes64 (length m * 8)) in
    omega (arith, length-append m pad, size)

length-absorb : (s : List ℕ) (n : ℕ) (m : List ℕ) → length s ≡ 8 → length (absorb s n m) ≡ 8
length-absorb s zero m h = ap length (absorb-zero s m) ∙ h
length-absorb s (suc n) m h =
    ap length (absorb-suc s n m)
    ∙ length-absorb (compress s (take 64 m)) n (drop 64 m) (unfold compress in refl)

length-digest : (xs : List ℕ) → length (digest xs) ≡ length xs * 4
unfolding digest be_bytes
length-digest [] = refl
length-digest (x ∷ xs) = omega (arith, length-digest xs)

pub length-hash : (m : List ℕ) → length (hash m) ≡ 32
unfolding hash
length-hash m =
    length-digest (absorb initial_state (length (padded m) / 64) (padded m))
    ∙ ap (λ (t : ℕ). t * 4) (length-absorb initial_state (length (padded m) / 64) (padded m) refl)

digest-IsBytes : (xs : List ℕ) → IsBytes (digest xs)
unfolding digest be_bytes
digest-IsBytes [] = tt
digest-IsBytes (x ∷ xs) =
    (omega arith, (omega arith, (omega arith, (omega arith, digest-IsBytes xs))))

pub hash-IsBytes : (m : List ℕ) → IsBytes (hash m)
unfolding hash
hash-IsBytes m = digest-IsBytes (absorb initial_state (length (padded m) / 64) (padded m))

-- `sm3` computes the standard's hash of its input, whatever the context held, for every length that
-- an `int` can state.
pub sm3-hash :
    (ctx : Context) (input : List ℕ)
    → length ctx.buffer ≡ 64
    → length input < 2 ^ 31
    → sm3 ctx input ≡ hash input
unfolding sm3
sm3-hash ctx input h lt =
    finish-hash input (update (starts ctx) input)
      (update-Absorbed [] input (starts ctx) (starts-Absorbed ctx h) (omega arith))

-- The pieces joined.
abbrev pub joined : List (List ℕ) → List ℕ
joined [] = []
joined (piece ∷ pieces) = piece ++ joined pieces

abbrev pub Short : List ℕ → Type 0
Short piece = length piece ≤ 1024

pub update_all-Absorbed :
    (m : List ℕ) (pieces : List (List ℕ)) (ctx : Context)
    → Absorbed m ctx
    → All Short pieces
    → Absorbed (m ++ joined pieces) (update_all ctx pieces)
unfolding update_all
update_all-Absorbed m [] ctx h short = rw (append-nil m) h
update_all-Absorbed m (piece ∷ pieces) ctx h short =
    subst (λ (t : List ℕ). Absorbed t (update_all (update ctx piece) pieces))
      (append_assoc m piece (joined pieces))
      (update_all-Absorbed (m ++ piece) pieces (update ctx piece)
        (update-Absorbed m piece ctx h (omega (arith, short.0))) short.1)

-- `sm3_file` gives the hash of the file's bytes, however `fread` cuts them into pieces of at most
-- 1024, and says 2 exactly when `ferror` does.
pub sm3_file-hash :
    (ctx : Context) (pieces : List (List ℕ)) (failed : Bool)
    → length ctx.buffer ≡ 64
    → All Short pieces
    → sm3_file ctx (opened pieces failed) ≡ (if failed then 2 else 0, some (hash (joined pieces)))
unfolding sm3_file
sm3_file-hash ctx pieces failed h short =
    ap (λ (t : List ℕ). (if failed then 2 else 0, some t))
      (finish-hash (joined pieces) (update_all (starts ctx) pieces)
        (update_all-Absorbed [] pieces (starts ctx) (starts-Absorbed ctx h) short))
