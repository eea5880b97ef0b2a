-- ===== src/StripeFilter/Stripes.antt =====
-- What `sf_find_features` reports: three clusters that bound two stripes next to each other.
use hawkeye.Base.{
  ℕ, zero, suc, ◌+◌, ◌-◌, ◌/◌, ◌^◌, ◌≤◌, ◌<◌, ◌≡◌, refl, Bool, true, false, ◌||◌, List, [], ◌∷◌,
  some, arith, length, length-append, get_or, ltb, leb, ◌==◌, if-intro, u32, sub_u32, All,
  All-append, All-get_or,
}
use hawkeye.StripeFilter.Clusters.{ClusterInfo}
use hawkeye.StripeFilter.Features.{
  FeatureInfo, max_features, cluster_min_gradient_count, min_stripe_width, max_stripe_width,
  zero_cluster, sf_add_feature, bad_width, too_small, has_ratio, mean_error, stripe_feature,
  compare_stripes, nearest_stripe, find_feature, find_features_from, sf_find_features,
}

-- Centroids are pixel coordinates.
abbrev pub IsPixel : ClusterInfo → Type 0
IsPixel c = (c.x_cent < 2 ^ 31) × (c.y_cent < 2 ^ 31)

-- `b` is one stripe to the right of `a`, and both have enough gradients.
abbrev pub Stripe : ClusterInfo → ClusterInfo → Type 0
Stripe a b =
    (a.x_cent + min_stripe_width ≤ b.x_cent)
    × (b.x_cent ≤ a.x_cent + max_stripe_width)
    × (cluster_min_gradient_count ≤ a.count)
    × (cluster_min_gradient_count ≤ b.count)

-- The feature of three clusters.
abbrev pub Between : ClusterInfo → ClusterInfo → ClusterInfo → FeatureInfo → Type 0
Between c1 c2 c3 f =
    Stripe c1 c2
    × Stripe c2 c3
    × (f.x_min ≡ c1.x_cent)
    × (f.x_max ≡ c3.x_cent)
    × (f.y_center ≡ c2.y_cent)
    × (f.x_min + f.x_width ≡ f.x_max)
    × (f.x_center ≡ f.x_min + f.x_width / 2)

-- A feature and the three clusters it comes from.
abbrev pub IsFeature : List ClusterInfo → FeatureInfo → Type 0
IsFeature clusters f =
    (i : ℕ) × (j : ℕ) × (k : ℕ) × Between (get_or clusters i zero_cluster)
      (get_or clusters j zero_cluster) (get_or clusters k zero_cluster) f

abbrev pub Reports : List ClusterInfo → List FeatureInfo → Type 0
Reports clusters features = (length features ≤ max_features - 1) × All (IsFeature clusters) features

sf_add_feature-Reports :
    (clusters : List ClusterInfo) (features : List FeatureInfo) (f : FeatureInfo)
    → Reports clusters features
    → IsFeature clusters f
    → Reports clusters (sf_add_feature features f)
unfolding sf_add_feature
sf_add_feature-Reports clusters features f h new =
    if-intro (Reports clusters) (leb (max_features - 1) (length features)) (λ on. h)
      (λ off. (
        omega (arith, length-append features (f ∷ []), room off),
        All-append (IsFeature clusters) features (f ∷ []) h.1 (new, tt),
      ))
  where
    room : leb (max_features - 1) (length features) ≡ false → length features < max_features - 1
    room h = ground (arith, h)

or_left : (a b : Bool) → (a || b) ≡ false → (a ≡ false) × (b ≡ false)
or_left true b h = absurd (ground (arith, h))
or_left false b h = (refl, h)

bad_width_off :
    (a b : ClusterInfo)
    → IsPixel a
    → IsPixel b
    → bad_width (sub_u32 b.x_cent a.x_cent) ≡ false
    → (a.x_cent + min_stripe_width ≤ b.x_cent)
      × (b.x_cent ≤ a.x_cent + max_stripe_width)
      × (sub_u32 b.x_cent a.x_cent ≡ b.x_cent - a.x_cent)
unfolding bad_width
bad_width_off a b p q h =
    let w = sub_u32 b.x_cent a.x_cent in
    let (rest, t) = or_left (leb (2 ^ 31) w || ltb w min_stripe_width) (ltb max_stripe_width w) h in
    let (first, s) = or_left (leb (2 ^ 31) w) (ltb w min_stripe_width) rest in
    let big : sub_u32 b.x_cent a.x_cent < 2 ^ 31 = ground (arith, first) in
    let low : min_stripe_width ≤ sub_u32 b.x_cent a.x_cent = ground (arith, s) in
    let high : sub_u32 b.x_cent a.x_cent ≤ max_stripe_width = ground (arith, t) in
    (omega (arith, big, low, high), omega (arith, big, low, high), omega (arith, big, low, high))

too_small_off : (c : ClusterInfo) → too_small c ≡ false → cluster_min_gradient_count ≤ c.count
unfolding too_small
too_small_off c h = ground (arith, h)

stripe_feature-Between :
    (c1 c2 c3 : ClusterInfo) (err : ℕ)
    → IsPixel c1
    → IsPixel c2
    → IsPixel c3
    → too_small c1 ≡ false
    → too_small c2 ≡ false
    → too_small c3 ≡ false
    → bad_width (sub_u32 c2.x_cent c1.x_cent) ≡ false
    → bad_width (sub_u32 c3.x_cent c2.x_cent) ≡ false
    → Between c1 c2 c3 (
        stripe_feature c1 c2 c3
          (u32 (sub_u32 c2.x_cent c1.x_cent + sub_u32 c3.x_cent c2.x_cent))
          err)
unfolding stripe_feature
stripe_feature-Between c1 c2 c3 err p1 p2 p3 n1 n2 n3 w21 w32 =
    let (a, b, e) = bad_width_off c1 c2 p1 p2 w21 in
    let (c, d, e') = bad_width_off c2 c3 p2 p3 w32 in
    (
      (a, b, too_small_off c1 n1, too_small_off c2 n2),
      (c, d, too_small_off c2 n2, too_small_off c3 n3),
      refl,
      refl,
      refl,
      omega (arith, a, b, c, d, e, e'),
      omega (arith, a, b, c, d, e, e', p1.0),
    )

compare_stripes-Reports :
    (clusters : List ClusterInfo) (features : List FeatureInfo) (i j k : ℕ)
    → All IsPixel clusters
    → Reports clusters features
    → Reports clusters (
        compare_stripes
          (get_or clusters i zero_cluster)
          (get_or clusters j zero_cluster)
          (get_or clusters k zero_cluster)
          features)
unfolding compare_stripes
compare_stripes-Reports clusters features i j k pixels h =
    let c1 = get_or clusters i zero_cluster in
    let c2 = get_or clusters j zero_cluster in
    let c3 = get_or clusters k zero_cluster in
    let pixel : (n : ℕ) → IsPixel (get_or clusters n zero_cluster) =
      λ n. All-get_or IsPixel clusters n zero_cluster pixels (omega arith, omega arith) in
    if-intro (Reports clusters) (too_small c1 || too_small c2 || too_small c3) (λ on. h)
      (λ enough.
        if-intro (Reports clusters)
          (bad_width (sub_u32 c2.x_cent c1.x_cent) || bad_width (sub_u32 c3.x_cent c2.x_cent))
          (λ on. h)
          (λ fit.
            if-intro (Reports clusters)
              (has_ratio (sub_u32 c2.x_cent c1.x_cent) (sub_u32 c3.x_cent c2.x_cent))
              (λ on.
                let (n12, n3) = or_left (too_small c1 || too_small c2) (too_small c3) enough in
                let (n1, n2) = or_left (too_small c1) (too_small c2) n12 in
                let (w21, w32) =
                  or_left (bad_width (sub_u32 c2.x_cent c1.x_cent))
                    (bad_width (sub_u32 c3.x_cent c2.x_cent)) fit in
                sf_add_feature-Reports clusters features
                  (stripe_feature c1 c2 c3
                    (u32 (sub_u32 c2.x_cent c1.x_cent + sub_u32 c3.x_cent c2.x_cent))
                    (mean_error (sub_u32 c2.x_cent c1.x_cent) (sub_u32 c3.x_cent c2.x_cent)))
                  h
                  (
                    i,
                    j,
                    k,
                    stripe_feature-Between c1 c2 c3
                        (mean_error (sub_u32 c2.x_cent c1.x_cent) (sub_u32 c3.x_cent c2.x_cent))
                        (pixel i) (pixel j) (pixel k) n1 n2 n3 w21 w32,
                  ))
              (λ off. h)))

find_feature-Reports :
    (clusters : List ClusterInfo) (features : List FeatureInfo) (i : ℕ)
    → All IsPixel clusters
    → Reports clusters features
    → Reports clusters (find_feature clusters i features)
unfolding find_feature
find_feature-Reports clusters features i pixels h =
    let j = nearest_stripe clusters i in
    let k = nearest_stripe clusters j in
    if-intro (Reports clusters) (j == 0 || k == 0) (λ on. h)
      (λ off. compare_stripes-Reports clusters features i j k pixels h)

find_features_from-Reports :
    (clusters : List ClusterInfo) (n i : ℕ) (features : List FeatureInfo)
    → All IsPixel clusters
    → Reports clusters features
    → Reports clusters (find_features_from clusters n i features)
unfolding find_features_from
find_features_from-Reports clusters zero i features pixels h = h
find_features_from-Reports clusters (suc n) i features pixels h =
    find_features_from-Reports clusters n (i + 1) (find_feature clusters i features) pixels
      (find_feature-Reports clusters features i pixels h)

-- For clusters with centroids below 2^31, `sf_find_features` succeeds on a non-empty list and leaves
-- at most 99 features in a list that started empty. Each of them reaches from a first to a third
-- cluster with a second between them, each pair 10 to 100 pixels apart and each cluster of at least
-- five gradients; its width is the distance of the outer two and its centre the middle.
pub sf_find_features-Reports :
    (c : ClusterInfo) (cs : List ClusterInfo)
    → All IsPixel (c ∷ cs)
    → (out : List FeatureInfo) × (sf_find_features (c ∷ cs) [] ≡ some out) × Reports (c ∷ cs) out
unfolding sf_find_features
sf_find_features-Reports c cs pixels =
    (_, refl, find_features_from-Reports (c ∷ cs) (length (c ∷ cs)) 0 [] pixels (omega arith, tt))
