-- ===== src/StripeFilter/Clusters.antt =====
-- src/stripe_filter.c: clusters of gradients.
use hawkeye.Base.{
  ℕ, ◌+◌, ◌-◌, ◌/◌, Bool, true, false, ◌||◌, ◌&&◌, List, [], ◌∷◌, ◌++◌, Option, none, some, length,
  ◌^◌, not, int_leb, sub_u32, ltb, leb, if◌then◌else◌, u32,
}
use hawkeye.Base.Floats.{scale}
use hawkeye.StripeFilter.Gradients.{Gradient, negative, positive, GradientInfo}

-- sf_gradient_cluster_info_t
pub record ClusterInfo : Type 0 where
  pub x_cent : ℕ
  pub y_cent : ℕ
  pub count : ℕ
  pub x_sum : ℕ
  pub y_sum : ℕ
  pub cluster_type : Gradient

abbrev pub max_gradient_clusters : ℕ
max_gradient_clusters = 1000

unfoldable pub same_type : Gradient → Gradient → Bool
same_type negative negative = true
same_type positive positive = true
same_type _ _ = false

-- range_delta for the float sig / 2 ^ exp as range; int32_t numbers are their patterns, and a negative base has a
-- negative one.
unfoldable pub range_delta : ℕ → ℕ → ℕ → ℕ
range_delta base sig exp =
    if ltb base (2 ^ 31) then scale sig exp base else u32 (2 ^ 32 - scale sig exp (2 ^ 32 - base))

-- `sf_value_in_range`
unfoldable pub sf_value_in_range : ℕ → ℕ → ℕ → ℕ → Bool
sf_value_in_range base sig exp value =
    let delta = range_delta base sig exp in
    if not (int_leb (sub_u32 base delta) value) || not (int_leb value (u32 (base + delta)))
    then false
    else true

-- SF_CLUSTER_PERCENT_X is 0.04f, SF_CLUSTER_PERCENT_Y is 0.2f.
unfoldable pub matches : GradientInfo → ClusterInfo → Bool
matches g c =
    sf_value_in_range c.x_cent 10737418 28 g.x_coord
    && (sf_value_in_range c.y_cent 13421773 26 g.y_coord && same_type g.grad_type c.cluster_type)

unfoldable pub add_to_cluster : GradientInfo → ClusterInfo → ClusterInfo
add_to_cluster g c =
    let x_sum = u32 (c.x_sum + g.x_coord) in
    let y_sum = u32 (c.y_sum + g.y_coord) in
    let count = u32 (c.count + 1) in
    record {
      x_cent = x_sum / count;
      y_cent = y_sum / count;
      count = count;
      x_sum = x_sum;
      y_sum = y_sum;
      cluster_type = c.cluster_type;
    }

unfoldable pub start_cluster : GradientInfo → ClusterInfo
start_cluster g = record {
  x_cent = g.x_coord;
  y_cent = g.y_coord;
  count = 1;
  x_sum = g.x_coord;
  y_sum = g.y_coord;
  cluster_type = g.grad_type;
}

abbrev pub behind : ClusterInfo → Option (List ClusterInfo) → Option (List ClusterInfo)
behind c none = none
behind c (some cs) = some (c ∷ cs)

-- `sf_cluster_grad`; `none` is the result false.
unfoldable pub sf_cluster_grad : GradientInfo → List ClusterInfo → Option (List ClusterInfo)
sf_cluster_grad g [] = none
sf_cluster_grad g (c ∷ cs) =
    let rest = sf_cluster_grad g cs in
    if matches g c then some (add_to_cluster g c ∷ cs) else behind c rest

-- `sf_create_cluster_from_grad`; its result is ignored by its caller.
unfoldable pub sf_create_cluster_from_grad : GradientInfo → List ClusterInfo → List ClusterInfo
sf_create_cluster_from_grad g cs =
    if leb (max_gradient_clusters - 1) (length cs) then cs else cs ++ (start_cluster g ∷ [])

unfoldable pub or_create :
    GradientInfo → List ClusterInfo → Option (List ClusterInfo) → List ClusterInfo
or_create g cs (some done) = done
or_create g cs none = sf_create_cluster_from_grad g cs

unfoldable pub cluster_all : List GradientInfo → List ClusterInfo → List ClusterInfo
cluster_all [] cs = cs
cluster_all (g ∷ gs) cs = cluster_all gs (or_create g cs (sf_cluster_grad g cs))

-- `sf_cluster_gradients`; `none` is the result false.
unfoldable pub sf_cluster_gradients :
    List GradientInfo → List ClusterInfo → Option (List ClusterInfo)
sf_cluster_gradients [] cs = none
sf_cluster_gradients (g ∷ gs) cs = some (cluster_all (g ∷ gs) cs)
