-- ===== src/StripeFilter/Tests.antt =====
-- The stripe filter at concrete inputs.
use hawkeye.Base.{
  get_or, ◌-◌, ◌^◌, ℕ, ◌+◌, ◌≤◌, ◌<◌, ◌≡◌, refl, ◌⊎◌, Bytes, none, some, Bool, List, [], ◌∷◌, arith,
  length, All, replicate, ltb, if◌then◌else◌, ◌++◌,
}
use hawkeye.StripeFilter.Gradients.{
  GradientInfo, positive, negative, below, sf_boxcar_filter, sf_add_gradient, threshold_level,
  filter_max, filter_min, rising, falling, scan_gradient, scan_gradients, sf_find_gradients,
}
use hawkeye.StripeFilter.Clusters.{ClusterInfo, sf_cluster_gradients}
use hawkeye.StripeFilter.Features.{FeatureInfo, sf_find_features, sf_find_nearest_neighbor_in_box}
use hawkeye.StripeFilter.Edges.{Adds, sf_find_gradients-Adds}
use hawkeye.StripeFilter.Members.{
  Grouped, capacity, tally, tally_groups, sf_cluster_gradients-Grouped,
}
use hawkeye.StripeFilter.Nearest.{Nearest, sf_find_nearest_neighbor_in_box-Nearest}
use hawkeye.StripeFilter.Stripes.{Reports, sf_find_features-Reports}
use hawkeye.StripeFilter.Report.{feature_text, feature_texts, sf_get_feature_list_data_string}
use hawkeye.StripeFilter.Reported.{feature_body, sf_get_feature_list_data_string-finished}
use hawkeye.Report.{report, append_texts, end_report, strcat, comma_separated}
use hawkeye.Base.Print.{print_int, snprintf}
use hawkeye.Base.Text.{codes}

abbrev gradient : ℕ → GradientInfo
gradient x = record { grad_type = positive; x_coord = x; y_coord = 7; value = 200 }

-- A dark line with a bright stripe.
stripe_in_line :
    sf_find_gradients [] (10 ∷ 10 ∷ 10 ∷ 200 ∷ 200 ∷ 200 ∷ 10 ∷ []) 7
    ≡ some (gradient 3 ∷ record { grad_type = negative; x_coord = 6; y_coord = 7; value = 10 } ∷ [])
unfolding sf_find_gradients scan_gradients scan_gradient rising falling sf_add_gradient
    sf_boxcar_filter filter_max filter_min threshold_level hawkeye.Base.Floats.scale
stripe_in_line = refl

abbrev bright_line : Bytes
bright_line = 10 ∷ 10 ∷ 10 ∷ 200 ∷ 200 ∷ 200 ∷ 10 ∷ []

sf_find_gradients-Adds_example :
    ((length bright_line ≤ 2) × (sf_find_gradients [] bright_line 7 ≡ none))
    ⊎ ((2 < length bright_line)
        × (out : List GradientInfo) × (sf_find_gradients [] bright_line 7 ≡ some out)
        × Adds bright_line 7 below 0 [] out)
sf_find_gradients-Adds_example = sf_find_gradients-Adds bright_line 7 []

abbrev cluster : ℕ → ClusterInfo
cluster x = record {
  x_cent = x;
  y_cent = 50;
  count = 6;
  x_sum = 0;
  y_sum = 0;
  cluster_type = positive;
}

abbrev three_clusters : List ClusterInfo
three_clusters = cluster 162 ∷ cluster 100 ∷ cluster 200 ∷ []

sf_cluster_gradients-Grouped_example :
    (out : List ClusterInfo) × (sf_cluster_gradients
        (gradient 100 ∷ gradient 102 ∷ gradient 300 ∷ [])
        []
      ≡ some out)
    × (length out ≤ capacity)
    × (groups : List (List GradientInfo)) × Grouped out groups
    × ((p : GradientInfo → Bool)
        → tally_groups p groups ≤ tally p (gradient 100 ∷ gradient 102 ∷ gradient 300 ∷ []))
    × (length out < capacity
        → (p : GradientInfo → Bool)
        → tally_groups p groups ≡ tally p (gradient 100 ∷ gradient 102 ∷ gradient 300 ∷ []))
sf_cluster_gradients-Grouped_example =
    sf_cluster_gradients-Grouped (gradient 100) (gradient 102 ∷ gradient 300 ∷ [])
      ((omega arith, omega arith), ((omega arith, omega arith), ((omega arith, omega arith), tt)))

sf_find_features-Reports_example :
    (out : _) × (sf_find_features three_clusters [] ≡ some out) × Reports three_clusters out
sf_find_features-Reports_example =
    sf_find_features-Reports (cluster 162) (cluster 100 ∷ cluster 200 ∷ [])
      ((omega arith, omega arith), ((omega arith, omega arith), ((omega arith, omega arith), tt)))

sf_find_nearest_neighbor_in_box-Nearest_example :
    Nearest
      (cluster 162)
      10
      100
      10
      0
      0
      three_clusters
      (2 ^ 32 - 1)
      0
      (sf_find_nearest_neighbor_in_box three_clusters 0 10 100 10)
sf_find_nearest_neighbor_in_box-Nearest_example =
    sf_find_nearest_neighbor_in_box-Nearest three_clusters 0 10 100 10 (omega arith)

abbrev feature : ℕ → FeatureInfo
feature x = record {
  x_min = x;
  x_max = x + 100;
  x_width = 100;
  x_center = x + 50;
  y_center = 50;
  ratio_error = 0;
}

text_of_feature :
    sf_get_feature_list_data_string (feature 100 ∷ [])
    ≡ some (some (codes "1,0,100,200,50,50,1,100\n"))
unfolding sf_get_feature_list_data_string feature_texts feature_text report append_texts end_report
    strcat comma_separated print_int snprintf
text_of_feature = refl

-- Ten features whose texts leave one byte of the buffer.
abbrev ten_features : List FeatureInfo
ten_features =
    record (feature 9999) { x_max = 10099; y_center = 500 }
      ∷ replicate 5 (record (feature 1000) { x_max = 1100; y_center = 500 })
    ++ replicate 4 (record (feature 1000) { x_max = 1100; y_center = 50 })

report_overruns : sf_get_feature_list_data_string ten_features ≡ none
unfolding sf_get_feature_list_data_string feature_texts feature_text report append_texts end_report
    strcat comma_separated print_int snprintf
report_overruns = refl

sf_get_feature_list_data_string-finished_example :
    sf_get_feature_list_data_string (feature 100 ∷ ten_features) ≡ (
      if ltb (length (feature_body (feature 100 ∷ ten_features))) 255
      then some (some (feature_body (feature 100 ∷ ten_features) ++ (10 ∷ [])))
      else none)
sf_get_feature_list_data_string-finished_example =
    sf_get_feature_list_data_string-finished (feature 100) ten_features
