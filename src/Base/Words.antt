-- ===== src/Base/Words.antt =====
-- Machine words as natural numbers: casts to a width, and the reading of a 32-bit pattern as `int`.
use Prim.Native.Nat.{ℕ, ◌+◌, ◌-◌, ◌%◌, ◌^◌}
use mathlib.Core.Bool.{Bool}
use hawkeye.Base.Tests.{ltb, leb, if◌then◌else◌}

-- (uint8_t), (uint32_t), and (size_t) on a 64-bit target.
abbrev pub u8 : ℕ → ℕ
u8 n = n % 2 ^ 8

abbrev pub u32 : ℕ → ℕ
u32 n = n % 2 ^ 32

abbrev pub u64 : ℕ → ℕ
u64 n = n % 2 ^ 64

-- uint32_t a - b for operands below 2 ^ 32.
abbrev pub sub_u32 : ℕ → ℕ → ℕ
sub_u32 a b = (a + 2 ^ 32 - b) % 2 ^ 32

-- a <= b where both patterns are read as int32_t.
abbrev pub int_leb : ℕ → ℕ → Bool
int_leb a b = leb ((a + 2 ^ 31) % 2 ^ 32) ((b + 2 ^ 31) % 2 ^ 32)

-- The size_t that an int32_t converts to: the sign is extended.
abbrev pub size_of_int : ℕ → ℕ
size_of_int v = if ltb v (2 ^ 31) then v else v + (2 ^ 64 - 2 ^ 32)
