-- ===== src/Bits/Xor.antt =====
-- Exclusive or: a commutative group on the numbers below each power of two.
use mathlib.Core.WellFounded
use native.Mathlib.Nat.{pow-suc}
use sec_pro_gis.Base.{ℕ, zero, suc, ◌/◌, ◌^◌, ◌<◌, bit_xor, ◌≡◌, refl, arith, lt_wf}
use sec_pro_gis.Bits.Step.{xor_halves, by_halves}

-- Each law goes from the halves to the whole.
halves :
    (P : ℕ → ℕ → ℕ → Type 0)
    → ((b c : ℕ) → P 0 b c)
    → ((a b c : ℕ) → P (suc a / 2) (b / 2) (c / 2) → P (suc a) b c)
    → (a b c : ℕ) → P a b c
halves P base up a = WellFounded.induction lt_wf {C = λ n. (b c : ℕ) → P n b c} a λ n ih. step n ih
  where
    step : (n : ℕ) → ((m : ℕ) → m < n → (b c : ℕ) → P m b c) → (b c : ℕ) → P n b c
    step zero ih b c = base b c
    step (suc n) ih b c = up n b c (ih (suc n / 2) (omega arith) (b / 2) (c / 2))

pub bit_xor-zero_left : (b : ℕ) → bit_xor 0 b ≡ b
bit_xor-zero_left =
    by_halves (λ y. bit_xor 0 y ≡ y) refl λ k ih. omega (arith, xor_halves 0 (suc k), ih)

pub bit_xor_self : (a : ℕ) → bit_xor a a ≡ 0
bit_xor_self a =
    halves (λ x y z. bit_xor x x ≡ 0) (λ b c. refl)
      (λ x b c ih. omega (arith, xor_halves (suc x) (suc x), ih)) a 0 0

pub bit_xor_zero : (a : ℕ) → bit_xor a 0 ≡ a
bit_xor_zero a =
    halves (λ x y z. bit_xor x 0 ≡ x) (λ b c. refl)
      (λ x b c ih. omega (arith, xor_halves (suc x) 0, ih)) a 0 0

pub bit_xor_comm : (a b : ℕ) → bit_xor a b ≡ bit_xor b a
bit_xor_comm a b =
    halves (λ x y z. bit_xor x y ≡ bit_xor y x)
      (λ y z. omega (arith, bit_xor-zero_left y, bit_xor_zero y))
      (λ x y z ih. omega (arith, xor_halves (suc x) y, xor_halves y (suc x), ih)) a b 0

pub bit_xor_assoc : (a b c : ℕ) → bit_xor (bit_xor a b) c ≡ bit_xor a (bit_xor b c)
bit_xor_assoc a b c =
    halves (λ x y z. bit_xor (bit_xor x y) z ≡ bit_xor x (bit_xor y z))
      (λ y z. rw (bit_xor-zero_left y, bit_xor-zero_left (bit_xor y z)) refl)
      (λ x y z ih. omega (
        arith,
        xor_halves (suc x) y,
        xor_halves y z,
        xor_halves (bit_xor (suc x) y) z,
        xor_halves (suc x) (bit_xor y z),
        halved (suc x) y z,
        ih,
      ))
      a b c
  where
    half : (u v : ℕ) → bit_xor u v / 2 ≡ bit_xor (u / 2) (v / 2)
    half u v = omega (arith, xor_halves u v)

    halved :
        (u v w : ℕ)
        → (bit_xor (bit_xor u v / 2) (w / 2) ≡ bit_xor (bit_xor (u / 2) (v / 2)) (w / 2))
          × (bit_xor (u / 2) (bit_xor v w / 2) ≡ bit_xor (u / 2) (bit_xor (v / 2) (w / 2)))
    halved u v w = (rw (half u v), rw (half v w))

pub bit_xor-lt : (k a b : ℕ) → a < 2 ^ k → b < 2 ^ k → bit_xor a b < 2 ^ k
bit_xor-lt zero zero zero h l = omega arith
bit_xor-lt zero (suc a) b h l = absurd (omega arith)
bit_xor-lt zero zero (suc b) h l = absurd (omega arith)
bit_xor-lt (suc k) a b h l = omega (
  arith,
  xor_halves a b,
  pow-suc 2 k,
  bit_xor-lt k (a / 2) (b / 2) (omega (arith, pow-suc 2 k)) (omega (arith, pow-suc 2 k)),
)
