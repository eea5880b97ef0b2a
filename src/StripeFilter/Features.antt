-- ===== src/StripeFilter/Features.antt =====
-- src/stripe_filter.c: nearest clusters and features. The array of clusters is the list of its first
-- num_elem entries; ratios are floats in units of 2 ^ -61.
use hawkeye.Base.{
  ℕ, zero, suc, ◌+◌, ◌-◌, ◌*◌, ◌/◌, ◌^◌, Bool, true, false, ◌||◌, ◌&&◌, not, List, [], ◌∷◌, ◌++◌,
  Option, none, some, length, get_or, ltb, leb, ◌==◌, if◌then◌else◌, u32, sub_u32,
}
use hawkeye.Base.Floats.{round_float, div_float}
use hawkeye.StripeFilter.Gradients.{negative}
use hawkeye.StripeFilter.Clusters.{ClusterInfo}

-- sf_feature_info_t; ratio_error is in units of 2 ^ -62.
pub record FeatureInfo : Type 0 where
  pub x_min : ℕ
  pub x_max : ℕ
  pub x_center : ℕ
  pub y_center : ℕ
  pub x_width : ℕ
  pub ratio_error : ℕ

abbrev pub max_features : ℕ
max_features = 100

abbrev pub cluster_min_gradient_count : ℕ
cluster_min_gradient_count = 5

abbrev pub min_stripe_width : ℕ
min_stripe_width = 10

abbrev pub max_stripe_width : ℕ
max_stripe_width = 100

abbrev pub nearest_neighbor_delta_y : ℕ
nearest_neighbor_delta_y = 10

-- An entry of the array that no cluster was written to: the callers clear the whole list.
abbrev pub zero_cluster : ClusterInfo
zero_cluster = record {
  x_cent = 0;
  y_cent = 0;
  count = 0;
  x_sum = 0;
  y_sum = 0;
  cluster_type = negative;
}

unfoldable pub sf_add_feature : List FeatureInfo → FeatureInfo → List FeatureInfo
sf_add_feature features info =
    if leb (max_features - 1) (length features) then features else features ++ (info ∷ [])

module _ (base : ClusterInfo) (x_off delta_x delta_y : ℕ) where
  unfoldable pub in_box : ClusterInfo → Bool
  in_box cur =
      let top_box_y = if ltb base.y_cent delta_y then 0 else base.y_cent - delta_y in
      if leb cur.x_cent (u32 (base.x_cent + x_off))
        || ltb (u32 (base.x_cent + x_off + delta_x)) cur.x_cent
      then false
      else if leb cur.y_cent top_box_y || leb (u32 (base.y_cent + delta_y)) cur.y_cent
      then false
      else true

  -- The loop from index `i`, with min_x and min_index.
  unfoldable pub nearest_from : ℕ → ℕ → List ClusterInfo → ℕ → ℕ → ℕ
  nearest_from base_index i [] min_x min_index = min_index
  nearest_from base_index i (cur ∷ cs) min_x min_index =
      let distance = sub_u32 cur.x_cent base.x_cent in
      let closer = nearest_from base_index (i + 1) cs distance i in
      let same = nearest_from base_index (i + 1) cs min_x min_index in
      if not (i == base_index) && (in_box cur && ltb distance min_x) then closer else same

unfoldable pub sf_find_nearest_neighbor_in_box : List ClusterInfo → ℕ → ℕ → ℕ → ℕ → ℕ
sf_find_nearest_neighbor_in_box clusters base_index x_off delta_x delta_y =
    if ltb (length clusters) base_index
    then 0
    else nearest_from (get_or clusters base_index zero_cluster) x_off delta_x delta_y base_index 0
        clusters (2 ^ 32 - 1) 0

-- fabs(ratio - 1.618f), and the comparison with 0.10f.
unfoldable pub ratio_err : ℕ → ℕ
ratio_err ratio =
    let expected = 13572768 * 2 ^ 38 in
    round_float (if ltb ratio expected then expected - ratio else ratio - expected)

unfoldable pub is_allowable : ℕ → Bool
is_allowable err = ltb err (13421773 * 2 ^ 34)

-- The widths are int32_t: a negative one has bit 31 set.
unfoldable pub bad_width : ℕ → Bool
bad_width w = leb (2 ^ 31) w || ltb w min_stripe_width || ltb max_stripe_width w

unfoldable pub too_small : ClusterInfo → Bool
too_small c = ltb c.count cluster_min_gradient_count

-- a and b, the two errors, the test of both, and their mean. The widths are small integers, which a
-- float holds exactly, and so is their sum.
unfoldable pub larger : ℕ → ℕ → ℕ
larger w21 w32 = if ltb w32 w21 then w21 else w32

unfoldable pub smaller : ℕ → ℕ → ℕ
smaller w21 w32 = if ltb w32 w21 then w32 else w21

unfoldable pub ab_ratio_err : ℕ → ℕ → ℕ
ab_ratio_err w21 w32 = ratio_err (div_float (larger w21 w32) (smaller w21 w32))

unfoldable pub ab_sum_a_ratio_err : ℕ → ℕ → ℕ
ab_sum_a_ratio_err w21 w32 =
    ratio_err (div_float (larger w21 w32 + smaller w21 w32) (larger w21 w32))

unfoldable pub has_ratio : ℕ → ℕ → Bool
has_ratio w21 w32 = is_allowable (ab_ratio_err w21 w32) && is_allowable (ab_sum_a_ratio_err w21 w32)

unfoldable pub mean_error : ℕ → ℕ → ℕ
mean_error w21 w32 = round_float (ab_ratio_err w21 w32 + ab_sum_a_ratio_err w21 w32)

unfoldable pub stripe_feature : ClusterInfo → ClusterInfo → ClusterInfo → ℕ → ℕ → FeatureInfo
stripe_feature c1 c2 c3 width ratio_error = record {
  x_min = c1.x_cent;
  x_max = c3.x_cent;
  x_center = u32 (c1.x_cent + width / 2);
  y_center = c2.y_cent;
  x_width = width;
  ratio_error = ratio_error;
}

-- The end of a round, from the three clusters on.
unfoldable pub compare_stripes :
    ClusterInfo → ClusterInfo → ClusterInfo → List FeatureInfo → List FeatureInfo
compare_stripes c1 c2 c3 features =
    let x_width21 = sub_u32 c2.x_cent c1.x_cent in
    let x_width32 = sub_u32 c3.x_cent c2.x_cent in
    let x_width = u32 (x_width21 + x_width32) in
    if too_small c1 || too_small c2 || too_small c3
    then features
    else if bad_width x_width21 || bad_width x_width32
    then features
    else if has_ratio x_width21 x_width32
    then sf_add_feature features (stripe_feature c1 c2 c3 x_width (mean_error x_width21 x_width32))
    else features

unfoldable pub nearest_stripe : List ClusterInfo → ℕ → ℕ
nearest_stripe clusters index =
    sf_find_nearest_neighbor_in_box clusters index min_stripe_width max_stripe_width
      nearest_neighbor_delta_y

-- One round of the loop of `sf_find_features`, for cluster `i`.
unfoldable pub find_feature : List ClusterInfo → ℕ → List FeatureInfo → List FeatureInfo
find_feature clusters i features =
    let cluster2_index = nearest_stripe clusters i in
    let cluster3_index = nearest_stripe clusters cluster2_index in
    if cluster2_index == 0 || cluster3_index == 0
    then features
    else compare_stripes (get_or clusters i zero_cluster)
        (get_or clusters cluster2_index zero_cluster) (get_or clusters cluster3_index zero_cluster)
        features

-- The loop, with `n` rounds left.
unfoldable pub find_features_from : List ClusterInfo → ℕ → ℕ → List FeatureInfo → List FeatureInfo
find_features_from clusters zero i features = features
find_features_from clusters (suc n) i features =
    find_features_from clusters n (i + 1) (find_feature clusters i features)

-- `sf_find_features`; `none` is the result false.
unfoldable pub sf_find_features : List ClusterInfo → List FeatureInfo → Option (List FeatureInfo)
sf_find_features [] features = none
sf_find_features (c ∷ cs) features = some (find_features_from (c ∷ cs) (length (c ∷ cs)) 0 features)
