-- ===== src/Base/Print.antt =====
-- What snprintf writes for %d, and the length of it.
use Prim.Native.Nat.{ℕ, zero, suc, ◌+◌, ◌-◌, ◌/◌, ◌%◌, ◌^◌, ◌≤◌}
use mathlib.Core.List.{[], ◌∷◌, ◌++◌}
use native.Mathlib.Omega.{arith}
use hawkeye.Base.Tests.{ltb, if◌then◌else◌}
use hawkeye.Base.Lists.{length, take, length-append}
use hawkeye.Base.Memory.{Bytes}

-- At most `fuel` + 1 decimal digits; ten are enough for every number below 10 ^ 10.
unfoldable pub digits : ℕ → ℕ → Bytes
digits zero n = (48 + n % 10) ∷ []
digits (suc fuel) n =
    let front = digits fuel (n / 10) in
    if ltb n 10 then (48 + n) ∷ [] else front ++ ((48 + n % 10) ∷ [])

-- %d for the int with this 32-bit pattern.
unfoldable pub print_int : ℕ → Bytes
unfolding digits
print_int v = if ltb v (2 ^ 31) then digits 9 v else b'-' ∷ digits 9 (2 ^ 32 - v)

-- The first size - 1 bytes of a text, which snprintf stores before the NUL.
unfoldable pub snprintf : ℕ → Bytes → Bytes
snprintf size text = take (size - 1) text

pub length-digits : (fuel n : ℕ) → length (digits fuel n) ≤ suc fuel
unfolding digits
length-digits zero n = omega arith
length-digits (suc fuel) n = ground (
  arith,
  length-digits fuel (n / 10),
  length-append {0} (digits fuel (n / 10)) ((48 + n % 10) ∷ []),
)

pub length-print_int : (v : ℕ) → length (print_int v) ≤ 11
unfolding print_int
length-print_int v = ground (arith, length-digits 9 v, length-digits 9 (2 ^ 32 - v))
