-- ===== src/Base/Integers.antt =====
-- The `int` of the sources where it may be negative, and the index that `((i % n) + n) % n` gives.
use Prim.Native.Nat.{ℕ, zero, suc, ◌+◌, ◌-◌, ◌%◌, ◌<◌}
use mathlib.Core.Path.{◌≡◌, ap, ◌∙◌}
use mathlib.Core.Bool.{Bool}
use native.Mathlib.Omega.{arith}
use native.Mathlib.Nat.{mod-add-mod, add-mod_right, mod_self, mod-eq_of_lt}
use native.Mathlib.Decide.{ℕ_discrete}
use sec_pro_gis.Base.Tests.{leb, le→leb, if◌then◌else◌}

-- `negsuc n` is -(n + 1).
pub data ℤ : Type 0 where
  pos : ℕ → ℤ
  negsuc : ℕ → ℤ

-- a - b
abbrev pub sub_ℕ : ℕ → ℕ → ℤ
sub_ℕ a b = if leb b a then pos (a - b) else negsuc (b - a - 1)

infixl 65 ◌+ℤ◌
abbrev pub ◌+ℤ◌ : ℤ → ℤ → ℤ
pos a +ℤ pos b = pos (a + b)
pos a +ℤ negsuc b = sub_ℕ a (suc b)
negsuc a +ℤ pos b = sub_ℕ b (suc a)
negsuc a +ℤ negsuc b = negsuc (suc (a + b))

abbrev pub neg : ℕ → ℤ
neg zero = pos 0
neg (suc n) = negsuc n

-- `i % n`, which takes the sign of `i`.
abbrev pub rem : ℤ → ℕ → ℤ
rem (pos a) n = pos (a % n)
rem (negsuc a) n = neg (suc a % n)

-- An index into an array: what is negative lies outside.
abbrev pub index : ℤ → ℕ → ℕ
index (pos a) outside = a
index (negsuc a) outside = outside

-- `((i % n) + n) % n`
unfoldable pub wrap : ℤ → ℕ → ℕ
wrap i n = index (rem (rem i n +ℤ pos n) n) n

-- An index that is not negative goes round.
pub wrap-pos : (i n : ℕ) → wrap (pos i) n ≡ i % n
unfolding wrap
wrap-pos i n = mod-add-mod i n n ∙ add-mod_right i n

-- A negative index counts from the end.
pub wrap-negsuc : (k n : ℕ) → k < n → wrap (negsuc k) n ≡ n - 1 - k
unfolding wrap
wrap-negsuc k n h =
    let turn : ℕ → ℕ = λ t. index (rem (neg t +ℤ pos n) n) n in
    elim (ℕ_discrete (suc k) n) [
      | yes last ↦
          ap turn {x = suc k % n} {y = 0} (ap (λ (t : ℕ). t % n) last ∙ mod_self n)
          ∙ ap (λ (t : ℕ). t % n) {x = 0 + n} {y = n} (omega arith)
          ∙ mod_self n
          ∙ omega arith
      | no inner ↦
          ap turn {x = suc k % n} {y = suc k} (mod-eq_of_lt (omega arith))
          ∙ ap
              (λ (b : Bool).
                index (rem (if b then pos (n - suc k) else negsuc (suc k - n - 1)) n) n)
              (le→leb (suc k) n (omega arith))
          ∙ mod-eq_of_lt {n = n - suc k} {m = n} (omega arith)
          ∙ omega arith
    ]
