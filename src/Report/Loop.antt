-- ===== src/Report/Loop.antt =====
-- src/stripe_filter.c, src/color_detect.c: the loop that appends texts to a buffer of limited size.
use hawkeye.Base.{
  ℕ, ◌+◌, ◌-◌, Option, none, some, List, [], ◌∷◌, ◌++◌, Bytes, ◌>>=◌, length, ltb, if◌then◌else◌,
}
use hawkeye.Base.Print.{print_int, snprintf}

-- strcat(buffer, text) in a buffer of `size` bytes.
unfoldable pub strcat : ℕ → Bytes → Bytes → Option Bytes
strcat size buffer text =
    if ltb (length buffer + length text) size then some (buffer ++ text) else none

-- ",%d" for each of the numbers.
unfoldable pub comma_separated : List ℕ → Bytes
comma_separated [] = []
comma_separated (v ∷ vs) = b',' ∷ (print_int v ++ comma_separated vs)

-- The buffer and feature_list_string_remaining.
pub record Report : Type 0 where
  pub buffer : Bytes
  pub remaining : ℕ

-- The loop over the texts. `remaining` never gets negative: the text that would is not appended.
unfoldable pub append_texts : ℕ → List Bytes → Report → Option Report
append_texts size [] r = some r
append_texts size (text ∷ texts) r =
    if ltb r.remaining (length text)
    then some r
    else (strcat size r.buffer (snprintf 128 text) >>= λ buffer.
        append_texts size texts (record { buffer = buffer; remaining = r.remaining - length text }))

-- The line-feed at the end.
unfoldable pub end_report : ℕ → Report → Option Bytes
end_report size r = if ltb 0 r.remaining then strcat size r.buffer (10 ∷ []) else some r.buffer

-- The number in front, the texts and the line-feed. The number is short, and remaining positive.
unfoldable pub report : ℕ → ℕ → List Bytes → Option Bytes
report size n texts =
    let head = print_int n in
    append_texts size texts (record { buffer = snprintf size head; remaining = size - length head })
    >>= end_report size

-- The pointer returned: `none` inside is NULL.
abbrev pub returned : Option Bytes → Option (Option Bytes)
returned none = none
returned (some text) = some (some text)
