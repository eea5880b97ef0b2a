-- ===== src/Jpeg/Depth.antt =====
-- The picture that `compress_z16_to_jpeg` makes of depths.
use hawkeye.Base.{
  ℕ, zero, suc, ◌+◌, ◌*◌, ◌/◌, ◌≤◌, ◌≡◌, refl, sym, ap, min, none, some, [], ◌∷◌, ◌++◌, arith,
  Bytes, length, length-drop, take, drop, ◌==◌, if◌then◌else◌,
}
use hawkeye.Jpeg.Pixels.{z16_pixel}
use hawkeye.Jpeg.Compress.{z16_line, z16_lines, scan_z16}

-- The unit of a gray level: 20 where the setting is 0.
abbrev pub depth_unit : ℕ → ℕ
depth_unit mm_scale = if mm_scale == 0 then 20 else mm_scale

-- Each pair of bytes is a little-endian depth, shown in units and at most as 255.
abbrev pub gray_levels : ℕ → Bytes → Bytes
gray_levels unit (low ∷ high ∷ src) = min 255 ((low + 256 * high) / unit) ∷ gray_levels unit src
gray_levels unit _ = []

z16_pixel-min :
    (mm_scale low high : ℕ)
    → z16_pixel mm_scale low high ≡ min 255 ((low + 256 * high) / depth_unit mm_scale)
unfolding z16_pixel
z16_pixel-min mm_scale low high =
    let same : low + high * 256 ≡ low + 256 * high = omega arith in rw same (ground arith)

z16_line-gray_levels :
    (mm_scale n : ℕ) (src : Bytes)
    → 2 * n ≤ length src
    → z16_line mm_scale n src
      ≡ some (gray_levels (depth_unit mm_scale) (take (2 * n) src), drop (2 * n) src)
unfolding z16_line
z16_line-gray_levels mm_scale zero src h = refl
z16_line-gray_levels mm_scale (suc n) [] h = absurd (omega arith)
z16_line-gray_levels mm_scale (suc n) (low ∷ []) h = absurd (omega arith)
z16_line-gray_levels mm_scale (suc n) (low ∷ high ∷ src) h =
    let two : 2 * suc n ≡ suc (suc (2 * n)) = omega arith in
    rw (two, z16_line-gray_levels mm_scale n src (omega arith), z16_pixel-min mm_scale low high)
      refl

gray_levels-take :
    (unit a b : ℕ) (src : Bytes)
    → 2 * a ≤ length src
    → gray_levels unit (take (2 * (a + b)) src)
      ≡ gray_levels unit (take (2 * a) src) ++ gray_levels unit (take (2 * b) (drop (2 * a) src))
gray_levels-take unit zero b src h = ap (λ k. gray_levels unit (take (2 * k) src)) (omega arith)
gray_levels-take unit (suc a) b (low ∷ high ∷ src) h =
    let whole : 2 * (suc a + b) ≡ suc (suc (2 * (a + b))) = omega arith in
    let front : 2 * suc a ≡ suc (suc (2 * a)) = omega arith in
    rw (whole, front)
      (ap (◌∷◌ (min 255 ((low + 256 * high) / unit))) (gray_levels-take unit a b src (omega arith)))
gray_levels-take unit (suc a) b [] h = absurd (omega arith)
gray_levels-take unit (suc a) b (low ∷ []) h = absurd (omega arith)

z16_lines-gray_levels :
    (mm_scale width n : ℕ) (src : Bytes)
    → 2 * (n * width) ≤ length src
    → z16_lines mm_scale width n src
      ≡ some (gray_levels (depth_unit mm_scale) (take (2 * (n * width)) src))
unfolding z16_lines
z16_lines-gray_levels mm_scale width zero src h =
    ap (λ k. some (gray_levels (depth_unit mm_scale) (take k src))) zero_bytes
  where
    zero_bytes : 0 ≡ 2 * (zero * width)
    zero_bytes = omega arith
z16_lines-gray_levels mm_scale width (suc n) src h =
    let more : suc n * width ≡ width + n * width = grind arith in
    let first = z16_line-gray_levels mm_scale width src (omega (arith, more, h)) in
    let rest =
      z16_lines-gray_levels mm_scale width n (drop (2 * width) src)
        (omega (arith, more, h, length-drop (2 * width) src)) in
    rw (more, first, rest)
      (ap some (
        sym
          (gray_levels-take (depth_unit mm_scale) width (n * width) src (omega (arith, more, h)))))

-- For a source of two bytes for each pixel, `compress_z16_to_jpeg` hands libjpeg one gray level for
-- each little-endian depth: the depth divided by the scale, or by 20 where the scale is 0, and
-- at most 255.
pub scan_z16-gray_levels :
    (src : Bytes) (width height quality mm_scale : ℕ)
    → 2 * (height * width) ≤ length src
    → scan_z16 src width height quality mm_scale
      ≡ some (record {
        components = 1;
        width = width;
        height = height;
        quality = quality;
        comment = none;
        rows = gray_levels (depth_unit mm_scale) (take (2 * (height * width)) src);
      })
unfolding scan_z16
scan_z16-gray_levels src width height quality mm_scale h =
    rw (z16_lines-gray_levels mm_scale width height src h) refl
