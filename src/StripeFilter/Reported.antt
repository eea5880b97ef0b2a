-- ===== src/StripeFilter/Reported.antt =====
-- How much of the list of features the text holds, and when it runs over its buffer.
use hawkeye.Base.{
  ℕ, ◌+◌, ◌-◌, ◌≡◌, ap, ◌∙◌, none, some, List, [], ◌∷◌, ◌++◌, arith, Bytes, length, ltb,
  if◌then◌else◌, All, sub_u32,
}
use hawkeye.Base.Print.{print_int}
use hawkeye.Report.{returned}
use hawkeye.Report.Fitting.{
  joined, IsShort, fitting, finished, report-finished, length-comma_separated,
}
use hawkeye.StripeFilter.Features.{FeatureInfo}
use hawkeye.StripeFilter.Report.{feature_text, feature_texts, sf_get_feature_list_data_string}

feature_texts-IsShort : (i : ℕ) (fs : List FeatureInfo) → All IsShort (feature_texts i fs)
unfolding feature_texts feature_text
feature_texts-IsShort i [] = tt
feature_texts-IsShort i (f ∷ fs) = (
  omega (
    arith,
    length-comma_separated
        (i ∷ f.x_min ∷ f.x_max ∷ f.y_center ∷ f.y_center ∷ 1 ∷ sub_u32 f.x_max f.x_min ∷ []),
  ),
  feature_texts-IsShort (i + 1) fs,
)

-- The number of features, and the texts of those in front of the first that has no room left.
abbrev pub feature_body : List FeatureInfo → Bytes
feature_body fs =
    let head = print_int (length fs) in
    head ++ joined (fitting (256 - length head) (feature_texts 0 fs))

-- For a list with features, `sf_get_feature_list_data_string` writes the number of all of them, then
-- the texts of those in front of the first that has no room left in 256 bytes. If that takes at
-- most 254 bytes, it returns this text with a line-feed; if it takes 255 or 256 bytes, the
-- function writes one byte past its buffer.
pub sf_get_feature_list_data_string-finished :
    (f : FeatureInfo) (fs : List FeatureInfo)
    → sf_get_feature_list_data_string (f ∷ fs) ≡ (
        if ltb (length (feature_body (f ∷ fs))) 255
        then some (some (feature_body (f ∷ fs) ++ (10 ∷ [])))
        else none)
unfolding sf_get_feature_list_data_string
sf_get_feature_list_data_string-finished f fs =
    ap returned (
      report-finished 256 (length (f ∷ fs)) (feature_texts 0 (f ∷ fs)) (omega arith)
        (feature_texts-IsShort 0 (f ∷ fs)))
    ∙ shape (feature_body (f ∷ fs))
  where
    shape :
        (body : Bytes)
        → returned (finished 256 body)
          ≡ (if ltb (length body) 255 then some (some (body ++ (10 ∷ []))) else none)
    shape body = ground arith
