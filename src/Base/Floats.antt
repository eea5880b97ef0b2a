-- ===== src/Base/Floats.antt =====
-- Single precision floats, as far as the components compute with them on non-negative values:
-- a float is an integer in units of a power of two, and each operation rounds its exact result to
-- 24 significant bits, ties to even. Exponents do not leave the range of the format here.
use Prim.Native.Nat.{ℕ, zero, suc, ◌+◌, ◌*◌, ◌/◌, ◌%◌, ◌^◌}
use hawkeye.Base.Tests.{ltb, ◌==◌, if◌then◌else◌}

-- How many low bits of `n` do not fit 24 significant ones. The fuel is a bound on the bits of `n`.
excess_bits : ℕ → ℕ → ℕ
excess_bits zero n = 0
excess_bits (suc fuel) n = if ltb n (2 ^ 24) then 0 else suc (excess_bits fuel (n / 2))

-- `n` rounded to a multiple of 2 ^ s, ties to even.
round_bits : ℕ → ℕ → ℕ
round_bits s n =
    let unit = 2 ^ s in
    let q = n / unit in
    let twice = 2 * (n % unit) in
    if ltb twice unit
    then q * unit
    else if twice == unit
    then (q + q % 2) * unit
    else (q + 1) * unit

-- (float) n for an integer, and the rounding of a product. Products here stay below 2 ^ 128.
unfoldable pub round_float : ℕ → ℕ
unfolding excess_bits round_bits
round_float n = round_bits (excess_bits 128 n) n

-- (int) (c * (float) n) for the float constant c = sig / 2 ^ exp.
unfoldable pub scale : ℕ → ℕ → ℕ → ℕ
unfolding round_float
scale sig exp n = round_float (sig * round_float n) / 2 ^ exp

-- a / b for floats a, b that are integers, in units of 2 ^ -61: the last bit records that the
-- quotient is inexact, which is below all the bits that rounding looks at.
unfoldable pub div_float : ℕ → ℕ → ℕ
unfolding round_float
div_float a b = round_float (2 * (a * 2 ^ 60 / b) + (if a * 2 ^ 60 % b == 0 then 0 else 1))
