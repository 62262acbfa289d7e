-- ===== src/Prelude/Int.antt =====
-- Signed counters, `int64_t`. A counter that counts allocated nodes does not overflow.
use Prim.Native.Nat.{ℕ, zero, suc}
use mathlib.Core.Bool.{Bool, true, false}

-- `negsuc n` is -(n + 1).
pub data ℤ : Type 0 where
  pos : ℕ → ℤ
  negsuc : ℕ → ℤ

-- `x++` and `x--`.
abbrev pub incr : ℤ → ℤ
incr (pos n) = pos (suc n)
incr (negsuc zero) = pos 0
incr (negsuc (suc n)) = negsuc n

abbrev pub decr : ℤ → ℤ
decr (pos zero) = negsuc 0
decr (pos (suc n)) = pos n
decr (negsuc n) = negsuc (suc n)

-- `x < 0`, `x <= 0`, `x == 0` and `x <= -2`.
abbrev pub is_neg : ℤ → Bool
is_neg (pos n) = false
is_neg (negsuc n) = true

abbrev pub is_nonpos : ℤ → Bool
is_nonpos (pos zero) = true
is_nonpos (pos (suc n)) = false
is_nonpos (negsuc n) = true

abbrev pub is_null : ℤ → Bool
is_null (pos zero) = true
is_null _ = false

abbrev pub is_minus_two_or_less : ℤ → Bool
is_minus_two_or_less (negsuc (suc n)) = true
is_minus_two_or_less _ = false
