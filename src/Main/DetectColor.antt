-- ===== src/Main/DetectColor.antt =====
-- src/main.c: `parseDetectColor`, which nothing calls. strtoul for base 16 is a parameter, and the colour is its three
-- components as ints.
use hawkeye.Base.{
  ◌+◌, ◌*◌, ◌<◌, ◌≡◌, refl, arith, ℕ, ◌/◌, ◌%◌, ◌^◌, not, ◌||◌, Option, none, some, [], ◌∷◌, Bytes,
  ◌==◌, if◌then◌else◌,
}
use hawkeye.ColorDetect.Color.{Pixel}

abbrev pub detect_color_length : ℕ
detect_color_length = 7

-- The colour of the low 24 bits.
unfoldable pub color_of_bits : ℕ → Pixel
color_of_bits value =
    let hex = value % 2 ^ 24 in
    record { red = hex / 2 ^ 16; green = hex / 2 ^ 8 % 2 ^ 8; blue = hex % 2 ^ 8 }

-- `none` is the result false; a string is not empty, since its end has a NUL.
unfoldable pub parse_detect_color : (Bytes → ℕ) → Option Bytes → ℕ → Option Pixel
parse_detect_color strtoul none detect_color_len = none
parse_detect_color strtoul (some []) detect_color_len = none
parse_detect_color strtoul (some (c ∷ digits)) detect_color_len =
    if not (detect_color_len == detect_color_length) || not (c == b'#')
    then none
    else some (color_of_bits (strtoul digits))

-- Of a string that starts with # and a length of 7, `parseDetectColor` makes a colour of three
-- bytes that together are the low 24 bits of the number that strtoul reads behind the #.
pub parse_detect_color-bits :
    (strtoul : Bytes → ℕ) (digits : Bytes)
    → (p : Pixel) × (parse_detect_color strtoul (some (b'#' ∷ digits)) 7 ≡ some p)
      × (p.red < 256)
      × (p.green < 256)
      × (p.blue < 256)
      × (p.red * 2 ^ 16 + p.green * 2 ^ 8 + p.blue ≡ strtoul digits % 2 ^ 24)
unfolding parse_detect_color color_of_bits
parse_detect_color-bits strtoul digits =
    (color_of_bits (strtoul digits), refl, omega arith, omega arith, omega arith, omega arith)
