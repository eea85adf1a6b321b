-- ===== src/Prelude/Int.antt =====
-- Signed machine integers: an int64 is an integer, and conversions give its two's complement.
use Prim.Native.Nat.{ℕ, ◌-◌, ◌%◌, ◌^◌, ◌<◌}
use mathlib.Core.Path.{◌≡◌}
use native.Mathlib.Omega.{arith}
use objectfile.Prelude.Tests.{ltb, if◌then◌else◌}

-- `negsuc n` is -(n + 1).
pub data ℤ : Type 0 where
  pos : ℕ → ℤ
  negsuc : ℕ → ℤ

-- The value fits an int64, or an int32.
abbrev pub IsInt64 : ℤ → Type 0
IsInt64 (pos n) = n < 2 ^ 63
IsInt64 (negsuc n) = n < 2 ^ 63

abbrev pub IsInt32 : ℤ → Type 0
IsInt32 (pos n) = n < 2 ^ 31
IsInt32 (negsuc n) = n < 2 ^ 31

-- The low 64 bits of an integer: what binary.Write puts out for an int64.
unfoldable pub int64_bits : ℤ → ℕ
int64_bits (pos n) = n % 2 ^ 64
int64_bits (negsuc n) = 2 ^ 64 - 1 - n % 2 ^ 64

-- uint32(int32(x)): the low 32 bits.
unfoldable pub int32_bits : ℤ → ℕ
int32_bits (pos n) = n % 2 ^ 32
int32_bits (negsuc n) = 2 ^ 32 - 1 - n % 2 ^ 32

-- The integer that a bit pattern stands for.
unfoldable pub int64_of_bits : ℕ → ℤ
int64_of_bits w = if ltb w (2 ^ 63) then pos w else negsuc (2 ^ 64 - 1 - w)

unfoldable pub int32_of_bits : ℕ → ℤ
int32_of_bits w = if ltb w (2 ^ 31) then pos w else negsuc (2 ^ 32 - 1 - w)

pub int64_of_bits-int64_bits : (z : ℤ) → IsInt64 z → int64_of_bits (int64_bits z) ≡ z
unfolding int64_bits int64_of_bits
int64_of_bits-int64_bits (pos n) h = ground arith
int64_of_bits-int64_bits (negsuc n) h = ground arith

pub int32_of_bits-int32_bits : (z : ℤ) → IsInt32 z → int32_of_bits (int32_bits z) ≡ z
unfolding int32_bits int32_of_bits
int32_of_bits-int32_bits (pos n) h = ground arith
int32_of_bits-int32_bits (negsuc n) h = ground arith

pub int64_bits-lt : (z : ℤ) → int64_bits z < 2 ^ 64
unfolding int64_bits
int64_bits-lt (pos n) = omega arith
int64_bits-lt (negsuc n) = omega arith

pub int32_bits-lt : (z : ℤ) → int32_bits z < 2 ^ 32
unfolding int32_bits
int32_bits-lt (pos n) = omega arith
int32_bits-lt (negsuc n) = omega arith
