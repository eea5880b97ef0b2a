-- ===== src/StripeFilter/Centered.antt =====
-- The centroid of gradients in a picture lies in the picture, and so do the features between such
-- centroids.
use hawkeye.Base.{
  ℕ, ◌+◌, ◌-◌, ◌*◌, ◌/◌, ◌^◌, ◌≤◌, ◌<◌, ◌≡◌, refl, sym, ◌∙◌, Bool, true, not, ◌&&◌, some, List, [],
  ◌∷◌, arith, length, get_or, ltb, u32, All, All-get_or, subst,
}
use hawkeye.StripeFilter.Gradients.{GradientInfo, max_gradients}
use hawkeye.StripeFilter.Clusters.{ClusterInfo, sf_cluster_gradients}
use hawkeye.StripeFilter.Features.{FeatureInfo, zero_cluster, sf_find_features}
use hawkeye.StripeFilter.Members.{
  sum_of, tally, Summary, Grouped, group, tally_groups, IsWord, sf_cluster_gradients-Grouped,
}
use hawkeye.StripeFilter.Stripes.{IsPixel, IsFeature, sf_find_features-Reports}
use hawkeye.StripeFilter.Annotated.{InImage, CentersIn, LiesIn}
use hawkeye.StripeFilter.Located.{Located}

-- The widest picture whose sums of coordinates a uint32_t holds.
abbrev pub max_side : ℕ
max_side = 42949

module _ (width height : ℕ) where
  outside : GradientInfo → Bool
  outside g = not (ltb g.x_coord width && ltb g.y_coord height)

  tally-InImage : (gs : List GradientInfo) → All (InImage width height) gs → tally outside gs ≡ 0
  unfolding outside
  tally-InImage [] h = refl
  tally-InImage (g ∷ gs) h = ground (arith, h.0, tally-InImage gs h.1)

  InImage-tally : (gs : List GradientInfo) → tally outside gs ≡ 0 → All (InImage width height) gs
  unfolding outside
  InImage-tally [] h = tt
  InImage-tally (g ∷ gs) h =
      let here : InImage width height g = ground (arith, h) in
      (here, InImage-tally gs (omega (arith, h)))

  sum_of-lt :
      (f : GradientInfo → ℕ) (bound : ℕ) (gs : List GradientInfo)
      → All (λ g. f g < bound) gs
      → sum_of f gs + length gs ≤ bound * length gs
  sum_of-lt f bound [] h = omega arith
  sum_of-lt f bound (g ∷ gs) h = grind (arith, h.0, sum_of-lt f bound gs h.1)

  All-x :
      (gs : List GradientInfo)
      → All (InImage width height) gs
      → All (λ (g : GradientInfo). g.x_coord < width) gs
  All-x [] h = tt
  All-x (g ∷ gs) h = (h.0.0, All-x gs h.1)

  All-y :
      (gs : List GradientInfo)
      → All (InImage width height) gs
      → All (λ (g : GradientInfo). g.y_coord < height) gs
  All-y [] h = tt
  All-y (g ∷ gs) h = (h.0.1, All-y gs h.1)

-- A mean of `n` numbers below `bound`, computed modulo 2 ^ 32.
mean-lt :
    (bound n sum : ℕ)
    → bound ≤ max_side
    → 0 < n
    → n ≤ max_gradients - 1
    → sum + n ≤ bound * n
    → u32 sum / u32 n < bound
mean-lt bound n sum b pos few total =
    let whole : bound * n < 2 ^ 32 = grind arith in
    let same : u32 sum / u32 n ≡ sum / n = grind arith in
    let quotient : sum / n * n ≤ sum = grind arith in grind arith

abbrev any_gradient : GradientInfo → Bool
any_gradient g = true

tally_all : (gs : List GradientInfo) → tally any_gradient gs ≡ length gs
tally_all [] = refl
tally_all (g ∷ gs) = omega (arith, tally_all gs)

module _ (width height : ℕ) (narrow : width ≤ max_side) (flat : height ≤ max_side) where
  Summary-CentersIn :
      (c : ClusterInfo) (gs : List GradientInfo)
      → Summary c gs
      → All (InImage width height) gs
      → length gs ≤ max_gradients - 1
      → CentersIn width height c
  Summary-CentersIn c gs (some_in, count, x_sum, y_sum, x_cent, y_cent, same) inside few =
      let x =
        mean-lt width (length gs) (sum_of (λ g. g.x_coord) gs) narrow some_in few
          (sum_of-lt width height (λ g. g.x_coord) width gs (All-x width height gs inside)) in
      let y =
        mean-lt height (length gs) (sum_of (λ g. g.y_coord) gs) flat some_in few
          (sum_of-lt width height (λ g. g.y_coord) height gs (All-y width height gs inside)) in
      (
        subst (λ n. n < width) (sym (x_cent ∙ quotient c.x_sum c.count _ _ x_sum count)) x,
        subst (λ n. n < height) (sym (y_cent ∙ quotient c.y_sum c.count _ _ y_sum count)) y,
      )
    where
      quotient : (a b c d : ℕ) → a ≡ c → b ≡ d → a / b ≡ c / d
      quotient a b c d e f = cc

  Grouped-CentersIn :
      (cs : List ClusterInfo) (groups : List (List GradientInfo))
      → Grouped cs groups
      → tally_groups (outside width height) groups ≡ 0
      → tally_groups any_gradient groups ≤ max_gradients - 1
      → All (CentersIn width height) cs
  Grouped-CentersIn [] groups h none_out few = tt
  Grouped-CentersIn (c ∷ cs) [] h none_out few = elim h [ ]
  Grouped-CentersIn (c ∷ cs) (gs ∷ groups) (group s h) none_out few = (
    Summary-CentersIn c gs s (InImage-tally width height gs (omega (arith, none_out)))
        (omega (arith, few, tally_all gs)),
    Grouped-CentersIn cs groups h (omega (arith, none_out)) (omega (arith, few)),
  )

  All-IsWord : (gs : List GradientInfo) → All (InImage width height) gs → All IsWord gs
  All-IsWord [] h = tt
  All-IsWord (g ∷ gs) h =
      ((omega (arith, h.0.0, narrow), omega (arith, h.0.1, flat)), All-IsWord gs h.1)

  pub sf_cluster_gradients-CentersIn :
      (g : GradientInfo) (gs : List GradientInfo)
      → Located width height (g ∷ gs)
      → (out : List ClusterInfo) × (sf_cluster_gradients (g ∷ gs) [] ≡ some out)
        × All (CentersIn width height) out
  sf_cluster_gradients-CentersIn g gs (fit, inside) =
      let (out, runs, room, groups, h, most, all) =
        sf_cluster_gradients-Grouped g gs (All-IsWord (g ∷ gs) inside) in
      (
        out,
        runs,
        Grouped-CentersIn out groups h
            (omega (arith, most (outside width height), tally-InImage width height (g ∷ gs) inside))
            (omega (arith, most any_gradient, tally_all (g ∷ gs), fit)),
      )

  All-IsPixel : (cs : List ClusterInfo) → All (CentersIn width height) cs → All IsPixel cs
  All-IsPixel [] h = tt
  All-IsPixel (c ∷ cs) h =
      ((omega (arith, h.0.0, narrow), omega (arith, h.0.1, flat)), All-IsPixel cs h.1)

  module _ (wide : 0 < width) (tall : 0 < height) where
    IsFeature-LiesIn :
        (cs : List ClusterInfo) (f : FeatureInfo)
        → All (CentersIn width height) cs
        → IsFeature cs f
        → LiesIn width height f
    IsFeature-LiesIn cs f h (i, j, k, (s, t, at_min, at_max, at_y, ends, middle)) =
        let inside : (n : ℕ) → CentersIn width height (get_or cs n zero_cluster) =
          λ n. All-get_or (CentersIn width height) cs n zero_cluster h (wide, tall) in
        (omega (arith, (inside k).0, at_max, ends), omega (arith, (inside j).1, at_y))

    All-LiesIn :
        (cs : List ClusterInfo) (fs : List FeatureInfo)
        → All (CentersIn width height) cs
        → All (IsFeature cs) fs
        → All (LiesIn width height) fs
    All-LiesIn cs [] h k = tt
    All-LiesIn cs (f ∷ fs) h k = (IsFeature-LiesIn cs f h k.0, All-LiesIn cs fs h k.1)

    pub sf_find_features-LiesIn :
        (c : ClusterInfo) (cs : List ClusterInfo)
        → All (CentersIn width height) (c ∷ cs)
        → (out : List FeatureInfo) × (sf_find_features (c ∷ cs) [] ≡ some out)
          × All (LiesIn width height) out
    sf_find_features-LiesIn c cs h =
        let (out, runs, reports) = sf_find_features-Reports c cs (All-IsPixel (c ∷ cs) h) in
        (out, runs, All-LiesIn (c ∷ cs) out h reports.1)
