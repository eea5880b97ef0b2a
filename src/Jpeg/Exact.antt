-- ===== src/Jpeg/Exact.antt =====
-- src/image_utils.c: proofs about the colours of a YUYV pixel, compared with the conversion that JFIF defines, in
-- millionths: R = Y + 1.402 (Cr - 128), G = Y - 0.344136 (Cb - 128) - 0.714136 (Cr - 128) and B = Y + 1.772 (Cb - 128),
-- each clamped to a byte.
use hawkeye.Base.{ℕ, ◌+◌, ◌-◌, ◌*◌, ◌^◌, ◌≤◌, ◌<◌, min, arith}
use hawkeye.Jpeg.Pixels.{shifted, red, green, blue}

abbrev pub million : ℕ
million = 10 ^ 6

-- plus - minus, clamped.
abbrev pub clamped : ℕ → ℕ → ℕ
clamped plus minus = min (255 * million) (plus - minus)

abbrev pub jfif_red : ℕ → ℕ → ℕ
jfif_red y v = clamped (million * y + 1402000 * v) (1402000 * 128)

abbrev pub jfif_green : ℕ → ℕ → ℕ → ℕ
jfif_green y u v = clamped (million * y + 344136 * 128 + 714136 * 128) (344136 * u + 714136 * v)

abbrev pub jfif_blue : ℕ → ℕ → ℕ
jfif_blue y u = clamped (million * y + 1772000 * u) (1772000 * 128)

-- A byte that is above the exact value by a fifth at most, and below it by less than one and a fifth.
abbrev pub Near : ℕ → ℕ → Type 0
Near stored exact =
    (stored ≤ 255) × (million * stored ≤ exact + 200000) × (exact < million * stored + 1200000)

-- For all bytes y, u and v, the red, green and blue that the YUYV conversion computes with
-- coefficients of 8 bits are bytes, and each is at most 0.2 above and less than 1.2 below the value
-- of the JFIF formula, clamped to 0 and 255.
pub colors-Near :
    (y u v : ℕ)
    → y < 256
    → u < 256
    → v < 256
    → Near (red y v) (jfif_red y v)
      × Near (green y u v) (jfif_green y u v)
      × Near (blue y u) (jfif_blue y u)
unfolding red green blue shifted
colors-Near y u v hy hu hv = (
  (ground arith, ground arith, ground arith),
  (ground arith, ground arith, ground arith),
  (ground arith, ground arith, ground arith),
)
