-- ===== src/Bits/Fields.antt =====
-- `|` of disjoint fields and `&` with a mask of low bits, as arithmetic.
use native.Mathlib.Nat.{pow-suc, one-le-pow}
use sec_pro_gis.Base.{ℕ, zero, suc, ◌+◌, ◌-◌, ◌*◌, ◌/◌, ◌%◌, ◌^◌, ◌<◌, bit_and, bit_or}
use sec_pro_gis.Base.{◌≡◌, refl, arith, ap, ◌<<◌}
use sec_pro_gis.Bits.Step.{or_halves, and_halves, by_halves}

bit_or_zero : (x : ℕ) → bit_or x 0 ≡ x
bit_or_zero = by_halves (λ x. bit_or x 0 ≡ x) refl λ k ih. omega (arith, or_halves (suc k) 0, ih)

bit_and_zero : (x : ℕ) → bit_and x 0 ≡ 0
bit_and_zero = by_halves (λ x. bit_and x 0 ≡ 0) refl λ k ih. omega (arith, and_halves (suc k) 0, ih)

double-pow : (top width : ℕ) → top * 2 ^ suc width ≡ 2 * (top * 2 ^ width)
double-pow top width = omega (arith, ap (λ (t : ℕ). top * t) (pow-suc 2 width))

-- A field above `width` bits joined with one that h them.
pub bit_or-fields :
    (width top low : ℕ) → low < 2 ^ width → bit_or (top << width) low ≡ top * 2 ^ width + low
bit_or-fields zero top low h = ground (arith, bit_or_zero top)
bit_or-fields (suc width) top low h = ground (
  arith,
  or_halves (top * 2 ^ suc width) low,
  double-pow top width,
  bit_or-fields width top (low / 2) (omega (arith, pow-suc 2 width)),
)

bit_and-mask_low :
    (width top low : ℕ) → low < 2 ^ width → bit_and (top * 2 ^ width + low) (2 ^ width - 1) ≡ low
bit_and-mask_low zero top low h = ground (arith, bit_and_zero (top * 1 + low))
bit_and-mask_low (suc width) top low h = ground (
  arith,
  and_halves (top * 2 ^ suc width + low) (2 ^ suc width - 1),
  double-pow top width,
  pow-suc 2 width,
  bit_and-mask_low width top (low / 2) (omega (arith, pow-suc 2 width)),
)

-- A mask of ones keeps the remainder.
pub bit_and-mask : (width a : ℕ) → bit_and a (2 ^ width - 1) ≡ a % 2 ^ width
bit_and-mask width a =
    ground (arith, one-le-pow width 2, bit_and-mask_low width (a / 2 ^ width) (a % 2 ^ width))

pub bit_or-lt : (k a b : ℕ) → a < 2 ^ k → b < 2 ^ k → bit_or a b < 2 ^ k
bit_or-lt zero zero zero h l = omega arith
bit_or-lt zero (suc a) b h l = absurd (omega arith)
bit_or-lt zero zero (suc b) h l = absurd (omega arith)
bit_or-lt (suc k) a b h l = omega (
  arith,
  or_halves a b,
  pow-suc 2 k,
  bit_or-lt k (a / 2) (b / 2) (omega (arith, pow-suc 2 k)) (omega (arith, pow-suc 2 k)),
)

bit_or-zero_left : (y : ℕ) → bit_or 0 y ≡ y
bit_or-zero_left =
    by_halves (λ y. bit_or 0 y ≡ y) refl λ k ih. omega (arith, or_halves 0 (suc k), ih)

pub bit_or_comm : (a b : ℕ) → bit_or a b ≡ bit_or b a
bit_or_comm a =
    by_halves (λ x. (y : ℕ) → bit_or x y ≡ bit_or y x)
      (λ y. omega (arith, bit_or-zero_left y, bit_or_zero y))
      (λ k ih y. omega (arith, or_halves (suc k) y, or_halves y (suc k), ih (y / 2))) a
