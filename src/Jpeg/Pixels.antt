-- ===== src/Jpeg/Pixels.antt =====
-- src/image_utils.c: the pixels that `compress_yuyv_to_jpeg` and `compress_z16_to_jpeg` compute.
-- Negative numbers are avoided by clamping first: an arithmetic shift of a negative number is
-- negative, and is stored as 0. `none` is a read past the source.
use hawkeye.Base.{
  ℕ, zero, suc, ◌+◌, ◌-◌, ◌*◌, ◌/◌, Bool, true, false, Option, none, some, [], ◌∷◌, ◌++◌, Bytes,
  ltb, ◌==◌, if◌then◌else◌, ◌>>=◌,
}

-- The stored byte for (plus - minus) >> 8.
unfoldable pub shifted : ℕ → ℕ → ℕ
shifted plus minus =
    if ltb plus minus
    then 0
    else if ltb 255 ((plus - minus) / 256)
    then 255
    else (plus - minus) / 256

-- r, g and b of luminance y and the bytes src[1] and src[3], from which the code takes 128.
unfoldable pub red : ℕ → ℕ → ℕ
red y v = shifted (y * 256 + 359 * v) (359 * 128)

unfoldable pub green : ℕ → ℕ → ℕ → ℕ
green y u v = shifted (y * 256 + 88 * 128 + 183 * 128) (88 * u + 183 * v)

unfoldable pub blue : ℕ → ℕ → ℕ
blue y u = shifted (y * 256 + 454 * u) (454 * 128)

-- What the loops have written: frame_buffer and p_gray_image.
pub record Pixels : Type 0 where
  pub rgb : Bytes
  pub gray : Bytes

unfoldable pub add_pixel : ℕ → ℕ → ℕ → Pixels → Pixels
add_pixel y u v p = record {
  rgb = p.rgb ++ (red y v ∷ green y u v ∷ blue y u ∷ []);
  gray = p.gray ++ (y ∷ []);
}

-- Where the loops stand: z is 0 or 1, and src moves behind every second pixel, also across lines.
pub record Position : Type 0 where
  pub z : Bool
  pub src : Bytes
  pub pixels : Pixels

unfoldable pub convert_pixel : Position → Option Position
convert_pixel p = at_source p.z p.src p.pixels
  where
    at_source : Bool → Bytes → Pixels → Option Position
    at_source false (a ∷ b ∷ c ∷ d ∷ rest) out =
        some (record { z = true; src = a ∷ b ∷ c ∷ d ∷ rest; pixels = add_pixel a b d out })
    at_source true (a ∷ b ∷ c ∷ d ∷ rest) out =
        some (record { z = false; src = rest; pixels = add_pixel c b d out })
    at_source _ _ out = none

-- `n` pixels, which the two loops visit one after the other.
unfoldable pub convert_pixels : ℕ → Position → Option Position
convert_pixels zero p = some p
convert_pixels (suc n) p = convert_pixel p >>= convert_pixels n

-- One pixel of `compress_z16_to_jpeg`, for a scale that is not negative; PIX_MIN_DISTANCE_MM is 20.
unfoldable pub z16_pixel : ℕ → ℕ → ℕ → ℕ
z16_pixel mm_scale low high =
    let pix_in = low + high * 256 in
    let scaled = if mm_scale == 0 then pix_in / 20 else pix_in / mm_scale in
    if ltb 255 scaled then 255 else scaled
