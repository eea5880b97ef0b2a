-- ===== src/ColorDetect/Detect.antt =====
-- src/color_detect.c: `detect_blobs`, the scan of the image by rows.
use hawkeye.Base.{
  ℕ, zero, suc, ◌+◌, Bool, true, false, ◌||◌, Option, none, some, [], ◌∷◌, ◌==◌, if◌then◌else◌,
  Bytes, ◌>>=◌,
}
use hawkeye.ColorDetect.Blob.{Detections, clear_blobs, new_or_append_blob}
use hawkeye.ColorDetect.Merge.{cull_blobs, combine_blobs_from_largest}

-- NO_DETECT_COLOR_TABLE_INDEX, which is BLACK_COLOR_TABLE_INDEX.
abbrev pub no_detect : ℕ
no_detect = 2

-- The local variables of `detect_blobs`, with the static `detections`.
pub record Scan : Type 0 where
  pub line_min : ℕ
  pub line_max : ℕ
  pub in_line : Bool
  pub line_color : ℕ
  pub detections : Detections

abbrev pub start_line : Scan → ℕ → ℕ → Scan
start_line s w color = record s { in_line = true; line_min = w; line_max = w; line_color = color }

module _ (width height : ℕ) where
  -- Hands the current line over, as each of the three calls of `new_or_append_blob` does.
  unfoldable pub end_line : ℕ → Scan → Scan
  end_line h s = record s {
    in_line = false;
    detections = new_or_append_blob s.detections s.line_min s.line_max h width height s.line_color;
  }

  -- The body of the inner loop, on the pixel at column `w` of row `h`.
  unfoldable pub scan_pixel : ℕ → ℕ → ℕ → Scan → Scan
  scan_pixel h w color s =
      if color == no_detect
      then (if s.in_line then end_line h s else s)
      else if s.in_line
      then (if color == s.line_color
          then record s { line_max = w }
          else start_line (end_line h s) w color)
      else start_line s w color

  -- The inner loop with `n` rounds left; `none` is a read past the image. Returns the pixels left.
  unfoldable pub scan_row : ℕ → ℕ → ℕ → Bytes → Scan → Option (Scan × Bytes)
  scan_row zero h w pixels s = some (s, pixels)
  scan_row (suc n) h w [] s = none
  scan_row (suc n) h w (color ∷ pixels) s = scan_row n h (w + 1) pixels (scan_pixel h w color s)

  -- What follows the inner loop in each row.
  unfoldable pub end_row : ℕ → ℕ → Scan → Scan
  end_row min_detect_conf h s =
      let t = if s.in_line then end_line h s else s in
      record t { detections = cull_blobs t.detections h width height min_detect_conf }

  -- The outer loop with `n` rows left.
  unfoldable pub scan_rows : ℕ → ℕ → ℕ → Bytes → Scan → Option Scan
  scan_rows min_detect_conf zero h pixels s = some s
  scan_rows min_detect_conf (suc n) h pixels s = scan_row width h 0 pixels s >>= λ (t, rest).
      scan_rows min_detect_conf n (h + 1) rest (end_row min_detect_conf h t)

abbrev pub initial_scan : Scan
initial_scan = record {
  line_min = 0;
  line_max = 0;
  in_line = false;
  line_color = 0;
  detections = clear_blobs;
}

-- The result code: 0, or -1.
pub data Status : Type 0 where
  success failure : Status

-- `detect_blobs`: the result code and the static `detections` afterwards. A null image is `none`;
-- the outer `none` is a read past the image.
unfoldable pub detect_blobs :
    Detections → Option Bytes → ℕ → ℕ → ℕ → ℕ → Option (Status × Detections)
detect_blobs d none width height detect_color_count min_detect_conf = some (failure, d)
detect_blobs d (some image) width height detect_color_count min_detect_conf =
    if width == 0 || height == 0
    then some (failure, d)
    else (scan_rows width height min_detect_conf height 0 image initial_scan >>= λ s.
        some (success, combine_blobs_from_largest s.detections detect_color_count))
