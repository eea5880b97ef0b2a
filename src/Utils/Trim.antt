-- ===== src/Utils/Trim.antt =====
-- src/utils.c: `is_blank` and `trim`, on the bytes of the buffer that the pointer leads to.
use hawkeye.Base.{
  ℕ, zero, suc, ◌+◌, ◌-◌, Bool, ◌||◌, ◌++◌, Bytes, length, get_or, set, take, drop, ◌==◌,
  if◌then◌else◌,
}
use hawkeye.Base.Text.{cstr}

unfoldable pub is_blank : ℕ → Bool
is_blank c = c == 0 || c == b' ' || c == b'\t' || c == b'\n' || c == b'\r'

-- The first loop: `i` is one more than the C index. It stops at the first byte that is not blank.
unfoldable pub clear_trailing : ℕ → Bytes → Bytes
clear_trailing zero buf = buf
clear_trailing (suc i) buf =
    let rest = clear_trailing i (set buf i 0) in if is_blank (get_or buf i 0) then rest else buf

-- memmove(&c[0], &c[i], len - i); c[len - i] = 0, where i <= len and len is inside the buffer.
unfoldable pub move_down : ℕ → ℕ → Bytes → Bytes
move_down len i buf = set (take (len - i) (drop i buf) ++ drop (len - i) buf) (len - i) 0

-- The second loop, with `n` rounds left, from index `i`.
unfoldable pub skip_leading : ℕ → ℕ → ℕ → Bytes → Bytes
skip_leading zero len i buf = buf
skip_leading (suc n) len i buf =
    let rest = skip_leading n len (i + 1) buf in
    if is_blank (get_or buf i 0) then rest else move_down len i buf

-- `trim`; strlen is taken before the first loop.
unfoldable pub trim : Bytes → Bytes
trim buf = let len = length (cstr buf) in skip_leading len len 0 (clear_trailing len buf)
