-- ===== src/Prelude/Int.antt =====
-- Go's signed integers, `negsuc n` being -(n + 1). No value here comes near the ends of int64.
use Prim.Native.Nat.{ℕ, zero, suc, ◌-◌, ◌<◌}
use mathlib.Core.Bool.{Bool, true, false, not}
use mathlib.Core.Path.{◌≡◌}
use native.Mathlib.Omega.{arith}
use retry_endpoint.Prelude.Tests.{leb, if◌then◌else◌}

pub data ℤ : Type 0 where
  pos : ℕ → ℤ
  negsuc : ℕ → ℤ

-- a - b, as an integer.
abbrev pub sub_ℕ : ℕ → ℕ → ℤ
sub_ℕ a b = if leb b a then pos (a - b) else negsuc (b - a - 1)

-- `x <= 0`
abbrev pub not_positive : ℤ → Bool
not_positive (pos zero) = true
not_positive (pos (suc n)) = false
not_positive (negsuc n) = true

-- `x < 0`
abbrev pub is_negative : ℤ → Bool
is_negative (pos n) = false
is_negative (negsuc n) = true

-- The value as a natural number, 0 where it is negative.
abbrev pub to_ℕ : ℤ → ℕ
to_ℕ (pos n) = n
to_ℕ (negsuc n) = 0

pub not_positive→pos : (x : ℤ) → not (not_positive x) ≡ true → 0 < to_ℕ x
not_positive→pos (pos zero) h = absurd (cc h)
not_positive→pos (pos (suc n)) h = omega arith
not_positive→pos (negsuc n) h = absurd (cc h)
