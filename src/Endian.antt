-- ===== src/Endian.antt =====
-- The macros that sm3.cpp and sm4.cpp both define: big-endian loads and stores of a 32-bit word,
-- and the rotation. Shift counts are taken modulo 32, as the x86 shift instructions do; C leaves
-- a count of 32 or more undefined.
use sec_pro_gis.Base.{ℕ, ◌+◌, ◌-◌, ◌*◌, ◌%◌, ◌^◌, List, [], ◌∷◌, bit_and, bit_or, u8, u32}
use sec_pro_gis.Base.{◌<<◌, ◌>>◌, get_or, set, IsByte, IsWord, ◌≡◌, arith}
use native.Mathlib.Nat.{div-le_self}
use sec_pro_gis.Bits.Fields.{bit_or-fields, bit_or-lt}

-- Element `i` of an array; every use is within the array's bounds.
abbrev pub at : List ℕ → ℕ → ℕ
at b i = get_or b i 0

-- `GET_ULONG_BE`
unfoldable pub get_ulong_be : List ℕ → ℕ → ℕ
get_ulong_be b i =
    bit_or
      (bit_or (bit_or (u32 (at b i << 24)) (u32 (at b (i + 1) << 16))) (u32 (at b (i + 2) << 8)))
      (at b (i + 3))

-- `PUT_ULONG_BE`
unfoldable pub put_ulong_be : ℕ → List ℕ → ℕ → List ℕ
put_ulong_be n b i =
    let b0 = set b i (u8 (n >> 24)) in
    let b1 = set b0 (i + 1) (u8 (n >> 16)) in
    let b2 = set b1 (i + 2) (u8 (n >> 8)) in set b2 (i + 3) (u8 n)

abbrev shl32 : ℕ → ℕ → ℕ
shl32 x n = u32 (x << (n % 32))

abbrev shr32 : ℕ → ℕ → ℕ
shr32 x n = x >> (n % 32)

-- `ROTL`; 64 is added since `32 - n` may be negative, and 64 is 0 modulo 32.
unfoldable pub rotl : ℕ → ℕ → ℕ
rotl x n = bit_or (shl32 (bit_and x 0xffff_ffff) n) (shr32 x (96 - n))

-- The four bytes that `PUT_ULONG_BE` stores.
unfoldable pub be_bytes : ℕ → List ℕ
be_bytes n = u8 (n >> 24) ∷ u8 (n >> 16) ∷ u8 (n >> 8) ∷ u8 n ∷ []

-- The word whose bytes are `a b c d`, most significant first.
abbrev pub be_word : ℕ → ℕ → ℕ → ℕ → ℕ
be_word a b c d = a * 2 ^ 24 + b * 2 ^ 16 + c * 2 ^ 8 + d

pub or_bytes :
    (a b c d : ℕ)
    → IsByte a
    → IsByte b
    → IsByte c
    → IsByte d
    → bit_or (bit_or (bit_or (u32 (a << 24)) (u32 (b << 16))) (u32 (c << 8))) d ≡ be_word a b c d
or_bytes a b c d ha hb hc hd =
    let ea : u32 (a << 24) ≡ a << 24 = omega arith in
    let eb : u32 (b << 16) ≡ b << 16 = omega arith in
    let ec : u32 (c << 8) ≡ c << 8 = omega arith in
    let ab : a * 2 ^ 24 + b * 2 ^ 16 ≡ (a * 256 + b) << 16 = omega arith in
    let abc : (a * 256 + b) * 2 ^ 16 + c * 2 ^ 8 ≡ ((a * 256 + b) * 256 + c) << 8 = omega arith in
    rw (ea, eb, ec, bit_or-fields 24 a (b << 16) (omega arith), ab)
      (rw (bit_or-fields 16 (a * 256 + b) (c << 8) (omega arith), abc)
        (rw (bit_or-fields 8 ((a * 256 + b) * 256 + c) d hd) (omega arith)))

pub get_ulong_be-IsWord : (b : List ℕ) (i : ℕ) → IsByte (at b (i + 3)) → IsWord (get_ulong_be b i)
unfolding get_ulong_be
get_ulong_be-IsWord b i h =
    bit_or-lt 32 _ _ (bit_or-lt 32 _ _ (bit_or-lt 32 _ _ (omega arith) (omega arith)) (omega arith))
      (omega arith)

pub rotl-IsWord : (x n : ℕ) → IsWord x → IsWord (rotl x n)
unfolding rotl
rotl-IsWord x n h =
    bit_or-lt 32 _ _ (omega arith) (omega (arith, div-le_self x (2 ^ ((96 - n) % 32))))
