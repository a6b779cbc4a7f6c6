-- ===== src/Bits/Step.antt =====
-- One equation for the lowest digit of each bit operation, and induction that halves a number.
use Prim.Native.Nat.{digits, bitwise, bit_and-bitwise, bit_or-bitwise, bit_xor-bitwise, differ}
use mathlib.Core.WellFounded
use sec_pro_gis.Base.{
  ℕ, zero, suc, ◌+◌, ◌*◌, ◌/◌, ◌%◌, ◌≤◌, ◌<◌, min, max, bit_and, bit_or, bit_xor, lt_wf,
}
use sec_pro_gis.Base.{◌≡◌, refl, sym, ap, ◌∙◌, arith}

-- What holds of 0, and of a positive number when it holds of the half, holds of every number.
pub by_halves : (P : ℕ → Type 0) → P 0 → ((k : ℕ) → P (suc k / 2) → P (suc k)) → (x : ℕ) → P x
by_halves P base up x = WellFounded.induction lt_wf {C = P} x half
  where
    half : (k : ℕ) → ((i : ℕ) → i < k → P i) → P k
    half zero below = base
    half (suc k) below = up k (below (suc k / 2) (omega arith))

module _ (edge : ℕ → ℕ) (digit : ℕ → ℕ → ℕ) where
  digits_done : (fuel y : ℕ) → digits edge digit fuel 0 y ≡ edge y
  digits_done zero y = refl
  digits_done (suc fuel) y = refl

  -- More fuel than the first number does not matter.
  digits_agree :
      (y x more less : ℕ)
      → x ≤ less
      → less ≤ more
      → digits edge digit more x y ≡ digits edge digit less x y
  digits_agree y zero more less p q = digits_done more y ∙ sym (digits_done less y)
  digits_agree y (suc x) more zero p q = absurd (omega arith)
  digits_agree y (suc x) zero (suc less) p q = absurd (omega arith)
  digits_agree y (suc x) (suc more) (suc less) p q =
      ap (λ (t : ℕ). t * 2 + digit (suc x % 2) (y % 2))
        (digits_agree (y / 2) (suc x / 2) more less (omega arith) (omega arith))

  bitwise_halves :
      (op : ℕ → ℕ → ℕ)
      → ((x y : ℕ) → op x y ≡ bitwise edge digit x y)
      → ((y : ℕ) → edge y ≡ edge (y / 2) * 2 + digit 0 (y % 2))
      → (x y : ℕ) → op x y ≡ op (x / 2) (y / 2) * 2 + digit (x % 2) (y % 2)
  bitwise_halves op means at_edge zero y = rw (means 0 y, means 0 (y / 2)) (at_edge y)
  bitwise_halves op means at_edge (suc x) y =
      rw (means (suc x) y, means (suc x / 2) (y / 2))
        (ap (λ (t : ℕ). t * 2 + digit (suc x % 2) (y % 2))
          (digits_agree (y / 2) (suc x / 2) x (suc x / 2) (omega arith) (omega arith)))

pub and_halves : (x y : ℕ) → bit_and x y ≡ bit_and (x / 2) (y / 2) * 2 + min (x % 2) (y % 2)
and_halves = bitwise_halves (λ y. 0) min bit_and bit_and-bitwise λ y. omega arith

pub or_halves : (x y : ℕ) → bit_or x y ≡ bit_or (x / 2) (y / 2) * 2 + max (x % 2) (y % 2)
or_halves = bitwise_halves (λ y. y) max bit_or bit_or-bitwise λ y. omega arith

-- The lowest digit of an exclusive or.
abbrev pub flip : ℕ → ℕ → ℕ
flip a b = (a + b) % 2

differ_digits : (x y : ℕ) → x < 2 → y < 2 → differ x y ≡ flip x y
differ_digits zero y h l = omega arith
differ_digits (suc zero) zero h l = refl
differ_digits (suc zero) (suc zero) h l = refl
differ_digits (suc zero) (suc (suc y)) h l = absurd (omega arith)
differ_digits (suc (suc x)) y h l = absurd (omega arith)

differ-flip : (a b : ℕ) → differ (a % 2) (b % 2) ≡ flip a b
differ-flip a b = omega (arith, differ_digits (a % 2) (b % 2) (omega arith) (omega arith))

pub xor_halves : (x y : ℕ) → bit_xor x y ≡ bit_xor (x / 2) (y / 2) * 2 + flip x y
xor_halves x y =
    bitwise_halves (λ t. t) differ bit_xor bit_xor-bitwise (λ t. at_edge t) x y
    ∙ ap (λ (t : ℕ). bit_xor (x / 2) (y / 2) * 2 + t) (differ-flip x y)
  where
    at_edge : (t : ℕ) → t ≡ t / 2 * 2 + differ 0 (t % 2)
    at_edge t = omega (arith, differ_digits 0 (t % 2) (omega arith) (omega arith))
