-- ===== src/StripeFilter/Gradients.antt =====
-- src/stripe_filter.c, src/stripe_filter.h: the filter over one line of pixels and the list of
-- gradients found in it. `sf_find_gradients` installs `sf_boxcar_filter` and clears the filter.
use hawkeye.Base.{
  ℕ, ◌+◌, ◌-◌, ◌/◌, List, [], ◌∷◌, ◌++◌, Option, none, some, Bytes, length, ltb, leb, if◌then◌else◌,
  u8,
}
use hawkeye.Base.Floats.{scale}

-- sf_gradient_t
pub data Gradient : Type 0 where
  negative : Gradient
  positive : Gradient

-- sf_gradient_info_t
pub record GradientInfo : Type 0 where
  pub grad_type : Gradient
  pub x_coord : ℕ
  pub y_coord : ℕ
  pub value : ℕ

-- The defined constants of the header.
abbrev pub max_gradients : ℕ
max_gradients = 100000

abbrev pub filter_num_elem : ℕ
filter_num_elem = 2

-- The two elements of struct sf_filter, the older one first.
pub record Filter : Type 0 where
  pub older : ℕ
  pub newer : ℕ

abbrev pub zero_filter : Filter
zero_filter = record { older = 0; newer = 0 }

-- `sf_boxcar_filter`: the output is the mean of the elements before the input is inserted. A float
-- holds it exactly, and the cast drops the half.
pub record Filtered : Type 0 where
  pub filter : Filter
  pub output : ℕ

unfoldable pub sf_boxcar_filter : Filter → ℕ → Filtered
sf_boxcar_filter f input = record {
  filter = record { older = f.newer; newer = input };
  output = (f.older + f.newer) / filter_num_elem;
}

-- sf_gradient_list_t: the first num_elem entries of the array, in order.
-- `sf_add_gradient` leaves the last entry unused; what it reports is ignored by its caller.
unfoldable pub sf_add_gradient : List GradientInfo → GradientInfo → List GradientInfo
sf_add_gradient grads info =
    if leb (max_gradients - 1) (length grads) then grads else grads ++ (info ∷ [])

-- (uint8_t)(0.35f * (float)filter_value)
unfoldable pub threshold_level : ℕ → ℕ
threshold_level filter_value = u8 (scale 11744051 25 filter_value)

unfoldable pub filter_max : ℕ → ℕ
filter_max v = v + threshold_level v

unfoldable pub filter_min : ℕ → ℕ
filter_min v = if ltb v (threshold_level v) then 0 else v - threshold_level v

-- sf_threshold_state_t
pub data ThresholdState : Type 0 where
  above : ThresholdState
  below : ThresholdState

-- The variables of the loop over the line. curr_threshold.value is never read, and has no field.
pub record LineState : Type 0 where
  pub line_filter : Filter
  pub threshold : ThresholdState
  pub grads : List GradientInfo

unfoldable pub rising : ThresholdState → List GradientInfo → GradientInfo → List GradientInfo
rising below grads info = sf_add_gradient grads info
rising above grads info = grads

unfoldable pub falling : ThresholdState → List GradientInfo → GradientInfo → List GradientInfo
falling above grads info = sf_add_gradient grads info
falling below grads info = grads

-- One round of the loop, for pixel `pixel` at x = `i`.
unfoldable pub scan_gradient : ℕ → ℕ → ℕ → LineState → LineState
scan_gradient y i pixel s =
    let r = sf_boxcar_filter s.line_filter pixel in
    if ltb (filter_max r.output) pixel
    then record {
      line_filter = r.filter;
      threshold = above;
      grads =
          rising s.threshold s.grads
            (record { grad_type = positive; x_coord = i; y_coord = y; value = pixel });
    }
    else if ltb pixel (filter_min r.output)
    then record {
      line_filter = r.filter;
      threshold = below;
      grads =
          falling s.threshold s.grads
            (record { grad_type = negative; x_coord = i; y_coord = y; value = pixel });
    }
    else record { line_filter = r.filter; threshold = s.threshold; grads = s.grads }

unfoldable pub scan_gradients : ℕ → ℕ → Bytes → LineState → LineState
scan_gradients y i [] s = s
scan_gradients y i (p ∷ ps) s = scan_gradients y (i + 1) ps (scan_gradient y i p s)

-- `sf_find_gradients` on the `len` bytes at p_gray; `none` is the result false.
unfoldable pub sf_find_gradients : List GradientInfo → Bytes → ℕ → Option (List GradientInfo)
sf_find_gradients grads [] y = none
sf_find_gradients grads (a ∷ []) y = none
sf_find_gradients grads (a ∷ b ∷ []) y = none
sf_find_gradients grads (a ∷ b ∷ c ∷ line) y =
    let f = (sf_boxcar_filter (sf_boxcar_filter zero_filter a).filter b).filter in
    some
      (scan_gradients y filter_num_elem (c ∷ line)
        (record { line_filter = f; threshold = below; grads = grads })).grads
