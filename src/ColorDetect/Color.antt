-- ===== src/ColorDetect/Color.antt =====
-- src/color_detect.c: the colours that are looked for, and whether a pixel matches one. Arithmetic in single
-- precision is a parameter.
use hawkeye.Base.{
  ℕ, zero, suc, Bool, ◌&&◌, Option, none, some, List, [], ◌∷◌, Bytes, set, ltb, if◌then◌else◌,
}
use hawkeye.Bitmap.Format.{ColorEntry, gray_table}

-- float, with the constants and operations that the code uses; sqrt is that of double, rounded.
pub record Floats : Type 1 where
  pub Float : Type 0
  pub of_int : ℕ → Float
  pub thousandth : Float
  pub plus : Float → Float → Float
  pub minus : Float → Float → Float
  pub times : Float → Float → Float
  pub divide : Float → Float → Float
  pub sqrt : Float → Float
  pub less : Float → Float → Bool
  pub less_equal : Float → Float → Bool

abbrev pub max_detect_colors : ℕ
max_detect_colors = 2

-- detect_color_table, by the index of the colour, and the entry for no colour.
abbrev pub detect_color_table : Bytes
detect_color_table = 0 ∷ 1 ∷ []

abbrev pub no_detect_color : ℕ
no_detect_color = 2

abbrev pub color_entry : ℕ → ℕ → ℕ → ColorEntry
color_entry blue green red = record { blue = blue; green = green; red = red; reserved = 0 }

-- `colorDetectInit`: grays, and the special values in their order.
unfoldable pub color_detect_color_table : List ColorEntry
color_detect_color_table =
    set
      (set
        (set
          (set (set (set gray_table 2 (color_entry 0 0 0)) 3 (color_entry 255 255 255)) 4
            (color_entry 40 255 10))
          0 (color_entry 255 50 255))
        1 (color_entry 0 255 255))
      5 (color_entry 0 165 255)

-- The bytes of a pixel.
pub record Pixel : Type 0 where
  pub red : ℕ
  pub green : ℕ
  pub blue : ℕ

module _ (floats : Floats) where
  open floats use {Float, of_int, thousandth, plus, minus, times, divide, sqrt, less, less_equal}

  -- detect_color_t
  pub record DetectColor : Type 0 where
    pub red : Float
    pub green : Float
    pub blue : Float
    pub norm : Float
    pub red_norm : Float
    pub green_norm : Float
    pub blue_norm : Float
    pub gr_norm : Float
    pub gb_norm : Float
    pub rb_norm : Float

  unfoldable pub not_zero : Float → Float
  not_zero x = if less_equal x (of_int 0) then thousandth else x

  -- `calcNorms`, for the three colours of its argument.
  unfoldable pub calc_norms : Float → Float → Float → DetectColor
  calc_norms red green blue =
      let r = not_zero red in
      let g = not_zero green in
      let b = not_zero blue in
      let norm = sqrt (plus (plus (times r r) (times g g)) (times b b)) in
      let red_norm = divide r norm in
      let green_norm = divide g norm in
      let blue_norm = divide b norm in
      record {
        red = r;
        green = g;
        blue = b;
        norm = norm;
        red_norm = red_norm;
        green_norm = green_norm;
        blue_norm = blue_norm;
        gr_norm = divide green_norm red_norm;
        gb_norm = divide green_norm blue_norm;
        rb_norm = divide red_norm blue_norm;
      }

  -- `setDetectColor`, on detect_colors.
  unfoldable pub set_detect_color : List DetectColor → DetectColor → ℕ → List DetectColor
  set_detect_color colors color index =
      if ltb index max_detect_colors then set colors index color else colors

  -- A ratio between the two skewed ones.
  unfoldable pub between : Float → Float → Float → Float → Bool
  between ratio wanted norm_min norm_max =
      less (times wanted norm_min) ratio && less ratio (times wanted norm_max)

  -- `rgb_match`, where calcNorms returns true always.
  unfoldable pub rgb_match : DetectColor → Pixel → Float → Bool
  rgb_match color p tolerance =
      let norm_min = minus (of_int 1) tolerance in
      let norm_max = plus (of_int 1) tolerance in
      let pix = calc_norms (of_int p.red) (of_int p.green) (of_int p.blue) in
      between pix.gr_norm color.gr_norm norm_min norm_max
      && (between pix.gb_norm color.gb_norm norm_min norm_max
          && between pix.rb_norm color.rb_norm norm_min norm_max)

  -- The loop over the colours, with `n` of them left, from p_detect_color and its entry of the table on.
  -- `none` is a read behind an array.
  unfoldable pub find_color : ℕ → List DetectColor → Bytes → Pixel → Float → Option ℕ
  find_color zero colors table p tolerance = some no_detect_color
  find_color (suc n) (c ∷ colors) (t ∷ table) p tolerance =
      let rest = find_color n colors table p tolerance in
      if rgb_match c p tolerance then some t else rest
  find_color (suc n) _ _ p tolerance = none
