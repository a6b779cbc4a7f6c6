-- ===== src/Sm3/Compress.antt =====
-- `sm3_process` of sm3.cpp: the compression of one block of 64 bytes into eight words.
use sec_pro_gis.Base.{
  ℕ, zero, suc, ◌+◌, ◌-◌, ◌*◌, List, [], ◌∷◌, bit_xor, bit_and, bit_or, u32, set,
}
use sec_pro_gis.Base.{replicate, ◌++◌}
use sec_pro_gis.Endian.{at, get_ulong_be, rotl}

infixl 65 ◌⊕◌ ◌⊞◌
-- `^`
abbrev ◌⊕◌ : ℕ → ℕ → ℕ
a ⊕ b = bit_xor a b

-- `+` on `u32`
abbrev ◌⊞◌ : ℕ → ℕ → ℕ
a ⊞ b = u32 (a + b)

-- `~`
abbrev not32 : ℕ → ℕ
not32 x = 0xffff_ffff - x

-- `FF0`, `FF1`, `GG0`, `GG1`, `P0`, `P1`
ff0 : ℕ → ℕ → ℕ → ℕ
ff0 x y z = x ⊕ y ⊕ z

ff1 : ℕ → ℕ → ℕ → ℕ
ff1 x y z = bit_or (bit_or (bit_and x y) (bit_and x z)) (bit_and y z)

gg0 : ℕ → ℕ → ℕ → ℕ
gg0 x y z = x ⊕ y ⊕ z

gg1 : ℕ → ℕ → ℕ → ℕ
gg1 x y z = bit_or (bit_and x y) (bit_and (not32 x) z)

p0 : ℕ → ℕ
unfolding rotl
p0 x = x ⊕ rotl x 9 ⊕ rotl x 17

p1 : ℕ → ℕ
unfolding rotl
p1 x = x ⊕ rotl x 15 ⊕ rotl x 23

-- `T`
constants : List ℕ
constants = replicate 16 0x79cc4519 ++ replicate 48 0x7a879d8a

-- The loads of `W[0]` to `W[15]`, `left` from word `j` on. The rest of `W` is not initialised in the
-- source and is written before it is read.
load_loop : ℕ → ℕ → List ℕ → List ℕ → List ℕ
unfolding get_ulong_be
load_loop zero j block w = w
load_loop (suc left) j block w = load_loop left (j + 1) block (set w j (get_ulong_be block (4 * j)))

-- The loop that expands the block to `W[67]`.
expand_loop : ℕ → ℕ → List ℕ → List ℕ
unfolding p1 rotl
expand_loop zero j w = w
expand_loop (suc left) j w =
    let temp1 = at w (j - 16) ⊕ at w (j - 9) in
    let temp2 = rotl (at w (j - 3)) 15 in
    let temp4 = p1 (temp1 ⊕ temp2) in
    let temp5 = rotl (at w (j - 13)) 7 ⊕ at w (j - 6) in
    expand_loop left (j + 1) (set w j (temp4 ⊕ temp5))

-- The loop that fills `W1`.
mix_loop : ℕ → ℕ → List ℕ → List ℕ → List ℕ
mix_loop zero j w w1 = w1
mix_loop (suc left) j w w1 = mix_loop left (j + 1) w (set w1 j (at w j ⊕ at w (j + 4)))

-- The working variables.
pub record Vars : Type 0 where
  pub a : ℕ
  pub b : ℕ
  pub c : ℕ
  pub d : ℕ
  pub e : ℕ
  pub f : ℕ
  pub g : ℕ
  pub h : ℕ

-- The body of the two round loops, which differ in the Boolean functions.
round : (ℕ → ℕ → ℕ → ℕ) → (ℕ → ℕ → ℕ → ℕ) → List ℕ → List ℕ → ℕ → Vars → Vars
unfolding rotl p0 constants
round ff gg w w1 j v =
    let ss1 = rotl (rotl v.a 12 ⊞ v.e ⊞ rotl (at constants j) j) 7 in
    let ss2 = ss1 ⊕ rotl v.a 12 in
    let tt1 = ff v.a v.b v.c ⊞ v.d ⊞ ss2 ⊞ at w1 j in
    let tt2 = gg v.e v.f v.g ⊞ v.h ⊞ ss1 ⊞ at w j in
    record {
      a = tt1;
      b = v.a;
      c = rotl v.b 9;
      d = v.c;
      e = p0 tt2;
      f = v.e;
      g = rotl v.f 19;
      h = v.g;
    }

round_loop : (ℕ → ℕ → ℕ → ℕ) → (ℕ → ℕ → ℕ → ℕ) → List ℕ → List ℕ → ℕ → ℕ → Vars → Vars
unfolding round
round_loop ff gg w w1 zero j v = v
round_loop ff gg w w1 (suc left) j v = round_loop ff gg w w1 left (j + 1) (round ff gg w w1 j v)

-- `sm3_process` on `ctx->state`.
unfoldable pub compress : List ℕ → List ℕ → List ℕ
unfolding load_loop expand_loop mix_loop round_loop ff0 ff1 gg0 gg1
compress state block =
    let w = expand_loop 52 16 (load_loop 16 0 block (replicate 68 0)) in
    let w1 = mix_loop 64 0 w (replicate 64 0) in
    let v0 : Vars = record {
      a = at state 0;
      b = at state 1;
      c = at state 2;
      d = at state 3;
      e = at state 4;
      f = at state 5;
      g = at state 6;
      h = at state 7;
    } in
    let v = round_loop ff1 gg1 w w1 48 16 (round_loop ff0 gg0 w w1 16 0 v0) in
    (at state 0 ⊕ v.a)
    ∷ (at state 1 ⊕ v.b)
    ∷ (at state 2 ⊕ v.c)
    ∷ (at state 3 ⊕ v.d)
    ∷ (at state 4 ⊕ v.e)
    ∷ (at state 5 ⊕ v.f)
    ∷ (at state 6 ⊕ v.g)
    ∷ (at state 7 ⊕ v.h)
    ∷ []
