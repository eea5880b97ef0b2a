-- ===== src/StripeFilter/Report.antt =====
-- src/stripe_filter.c: the text that lists the features, in a static buffer of 256 bytes.
use hawkeye.Base.{ℕ, ◌+◌, Option, none, some, List, [], ◌∷◌, Bytes, length, sub_u32}
use hawkeye.Report.{comma_separated, report, returned}
use hawkeye.StripeFilter.Features.{FeatureInfo}

abbrev pub feature_list_string_max_length : ℕ
feature_list_string_max_length = 256

-- What feat_string would hold without the limit of 128 bytes; its length is what snprintf returns.
unfoldable pub feature_text : ℕ → FeatureInfo → Bytes
feature_text i f =
    comma_separated
      (i ∷ f.x_min ∷ f.x_max ∷ f.y_center ∷ f.y_center ∷ 1 ∷ sub_u32 f.x_max f.x_min ∷ [])

-- The text of each feature from index `i` on.
unfoldable pub feature_texts : ℕ → List FeatureInfo → List Bytes
feature_texts i [] = []
feature_texts i (f ∷ fs) = feature_text i f ∷ feature_texts (i + 1) fs

-- `sf_get_feature_list_data_string`
unfoldable pub sf_get_feature_list_data_string : List FeatureInfo → Option (Option Bytes)
sf_get_feature_list_data_string [] = some none
sf_get_feature_list_data_string (f ∷ fs) =
    returned (report feature_list_string_max_length (length (f ∷ fs)) (feature_texts 0 (f ∷ fs)))
