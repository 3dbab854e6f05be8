-- ===== src/Prelude/Int.antt =====
-- Signed integers over the native numbers; `negsuc n` is -(n + 1).
use Prim.Native.Nat.{ℕ, zero, suc, ◌-◌, ◌/◌, ◌^◌, ◌<◌}
use mathlib.Core.Path.{◌≡◌}
use native.Mathlib.Omega.{arith}
use mathlib.Core.Bool.{Bool, true, false}
use qtopcua.Prelude.Tests.{ltb, leb, ◌==◌, if◌then◌else◌}

pub data ℤ : Type 0 where
  pos : ℕ → ℤ
  negsuc : ℕ → ℤ

-- The int32_t with the bit pattern `w`, and back.
abbrev pub to_int32 : ℕ → ℤ
to_int32 w = if ltb w (2 ^ 31) then pos w else negsuc (2 ^ 32 - 1 - w)

abbrev pub of_int32 : ℤ → ℕ
of_int32 (pos n) = n
of_int32 (negsuc n) = 2 ^ 32 - 1 - n

abbrev pub IsInt32 : ℤ → Type 0
IsInt32 (pos n) = n < 2 ^ 31
IsInt32 (negsuc n) = n < 2 ^ 31

pub to_int32-of_int32 : (z : ℤ) → IsInt32 z → to_int32 (of_int32 z) ≡ z
to_int32-of_int32 (pos n) h = ground arith
to_int32-of_int32 (negsuc n) h = ground arith

pub of_int32-lt : (z : ℤ) → IsInt32 z → of_int32 z < 2 ^ 32
of_int32-lt (pos n) h = omega arith
of_int32-lt (negsuc n) h = omega arith

-- The int64_t with the bit pattern `w`.
abbrev pub to_int64 : ℕ → ℤ
to_int64 w = if ltb w (2 ^ 63) then pos w else negsuc (2 ^ 64 - 1 - w)

-- The integer -n.
abbrev pub neg : ℕ → ℤ
neg zero = pos zero
neg (suc n) = negsuc n

-- Division of signed integers in C++ by a positive divisor: towards zero.
abbrev pub trunc_div : ℤ → ℕ → ℤ
trunc_div (pos n) d = pos (n / d)
trunc_div (negsuc n) d = neg (suc n / d)

-- `a ≤ b` for a natural number `a`.
abbrev pub nat_leb_int : ℕ → ℤ → Bool
nat_leb_int a (pos b) = leb a b
nat_leb_int a (negsuc b) = false

-- `b ≤ 0`
abbrev pub int_leb_zero : ℤ → Bool
int_leb_zero (pos b) = b == 0
int_leb_zero (negsuc b) = true

abbrev pub int_eq_nat : ℤ → ℕ → Bool
int_eq_nat (pos a) b = a == b
int_eq_nat (negsuc a) b = false
