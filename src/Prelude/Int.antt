-- ===== src/Prelude/Int.antt =====
-- Integers over the native numbers, for Go's `int`, `int32` and `time.Duration`.
use Prim.Native.Nat.{ℕ, suc, ◌-◌, ◌*◌, ◌%◌, ◌^◌}
use mathlib.Core.Bool.{Bool, true, false}
use browser_automation_byte.Prelude.Tests.{ltb, if◌then◌else◌}

-- `negsuc n` is -(n + 1).
pub data ℤ : Type 0 where
  pos : ℕ → ℤ
  negsuc : ℕ → ℤ

-- `z < 0`
abbrev pub is_negative : ℤ → Bool
is_negative (pos n) = false
is_negative (negsuc n) = true

-- `0 < z`
abbrev pub is_positive : ℤ → Bool
is_positive (pos n) = ltb 0 n
is_positive (negsuc n) = false

-- The value of an integer that is not negative.
abbrev pub to_ℕ : ℤ → ℕ
to_ℕ (pos n) = n
to_ℕ (negsuc n) = 0

-- The signed number that has the bits of `n`, which is below 2 ^ 64 or below 2 ^ 32.
abbrev pub as_int64 : ℕ → ℤ
as_int64 n = if ltb n (2 ^ 63) then pos n else negsuc (2 ^ 64 - 1 - n)

abbrev pub as_int32 : ℕ → ℤ
as_int32 n = if ltb n (2 ^ 31) then pos n else negsuc (2 ^ 32 - 1 - n)

-- The last `w` bits of `z * k`, in two's complement
abbrev pub low_bits : ℕ → ℤ → ℕ → ℕ
low_bits w (pos n) k = (n * k) % 2 ^ w
low_bits w (negsuc n) k = (2 ^ w - (suc n * k) % 2 ^ w) % 2 ^ w
