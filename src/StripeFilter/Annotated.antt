-- ===== src/StripeFilter/Annotated.antt =====
-- The annotations stay inside a picture that all gradients, clusters and features lie in.
use hawkeye.Base.{
  ℕ, zero, suc, ◌+◌, ◌-◌, ◌*◌, ◌/◌, ◌^◌, ◌≤◌, ◌<◌, ◌≡◌, refl, ◌||◌, Option, List, [], ◌∷◌, arith,
  Bytes, length, ltb, ltb→lt, ◌==◌, if-intro, u32, sub_u32, All,
}
use hawkeye.Base.Image.{Drawn, Drawn-bind, put-Drawn}
use hawkeye.StripeFilter.Gradients.{GradientInfo}
use hawkeye.StripeFilter.Clusters.{ClusterInfo}
use hawkeye.StripeFilter.Features.{FeatureInfo}
use hawkeye.StripeFilter.Annotate.{
  grad_color, gradient_cluster_annotation_color, feature_annotation_color,
  feature_center_annotation_color, is_empty, offset_of, annotate_gradient, annotate_gradients,
  annotate_clusters, draw_line, annotate_feature, annotate_features, guarded,
  sf_annotate_gradients_in_image, sf_annotate_clusters_in_image, sf_annotate_features_in_image,
  annotate,
}

-- Where things lie in a picture of `width` times `height` pixels.
abbrev pub InImage : ℕ → ℕ → GradientInfo → Type 0
InImage width height g = (g.x_coord < width) × (g.y_coord < height)

abbrev pub CentersIn : ℕ → ℕ → ClusterInfo → Type 0
CentersIn width height c = (c.x_cent < width) × (c.y_cent < height)

abbrev pub LiesIn : ℕ → ℕ → FeatureInfo → Type 0
LiesIn width height f = (f.x_min + f.x_width < width) × (f.y_center < height)

index_lt : (width height x y : ℕ) → x < width → y < height → y * width + x < width * height
index_lt width height x y hx hy = grind arith

row_above : (width y : ℕ) → 0 < y → width ≤ y * width
row_above width y h = grind arith

next_row : (width y : ℕ) → (y + 1) * width ≡ y * width + width
next_row width y = grind arith

-- The row below a pixel that is not in the last row.
rows_fit :
    (width height x y : ℕ)
    → x < width
    → y < height
    → (width ≤ width * height) × (height ≤ width * height)
rows_fit width height x y hx hy = (grind arith, grind arith)

row_below :
    (width height x y : ℕ)
    → x < width
    → y < height
    → width * height < 2 ^ 31
    → y < sub_u32 height 1
    → y * width + x + width < width * height
row_below width height x y hx hy small h =
    let fit = rows_fit width height x y hx hy in
    let above : y + 1 < height = omega (arith, fit.1, small, h, hy) in
    omega (arith, index_lt width height x (y + 1) hx above, next_row width y)

module _ (width height : ℕ) (pix : Bytes) (size : length pix ≡ width * height)
    (small : width * height < 2 ^ 31) where
  offset_of-lt :
      (x y : ℕ)
      → x < width
      → y < height
      → (offset_of width height x y ≡ y * width + x) × (y * width + x < width * height)
  unfolding offset_of
  offset_of-lt x y hx hy =
      let below : y * width + x < width * height = grind arith in
      (omega (arith, below, small), below)

  annotate_gradient-Drawn :
      (g : GradientInfo) (p : Bytes)
      → length p ≡ length pix
      → InImage width height g
      → Drawn pix (annotate_gradient width height g p)
  unfolding annotate_gradient
  annotate_gradient-Drawn g p e (hx, hy) =
      let (at, below) = offset_of-lt g.x_coord g.y_coord hx hy in
      let o = offset_of width height g.x_coord g.y_coord in
      let color = grad_color g.grad_type in
      Drawn-bind pix _ _ (put-Drawn pix p o color e (omega (arith, at, below, size))) λ q e'.
        Drawn-bind pix _ _
          (if-intro (Drawn pix) (ltb 0 g.y_coord)
            (λ on. put-Drawn pix q (sub_u32 o width) color e' (
              omega (
                arith,
                at,
                below,
                size,
                small,
                rows_fit width height g.x_coord g.y_coord hx hy,
                row_above width g.y_coord (ltb→lt 0 g.y_coord on),
              )))
            (λ off. e'))
          λ r e''.
            if-intro (Drawn pix) (ltb g.y_coord (sub_u32 height 1))
              (λ on. put-Drawn pix r (u32 (o + width)) color e'' (
                omega (
                  arith,
                  at,
                  size,
                  small,
                  row_below width height g.x_coord g.y_coord hx hy small
                      (ltb→lt g.y_coord (sub_u32 height 1) on),
                )))
              (λ off. e'')

  -- A picture that is drawn on by each element of a list in turn.
  annotate_gradients-Drawn :
      (gs : List GradientInfo) (p : Bytes)
      → length p ≡ length pix
      → All (InImage width height) gs
      → Drawn pix (annotate_gradients width height gs p)
  unfolding annotate_gradients
  annotate_gradients-Drawn [] p e h = e
  annotate_gradients-Drawn (g ∷ gs) p e h =
      Drawn-bind pix _ _ (annotate_gradient-Drawn g p e h.0)
        λ q e'. annotate_gradients-Drawn gs q e' h.1

  annotate_clusters-Drawn :
      (cs : List ClusterInfo) (p : Bytes)
      → length p ≡ length pix
      → All (CentersIn width height) cs
      → Drawn pix (annotate_clusters width height cs p)
  unfolding annotate_clusters
  annotate_clusters-Drawn [] p e h = e
  annotate_clusters-Drawn (c ∷ cs) p e h =
      let (at, below) = offset_of-lt c.x_cent c.y_cent h.0.0 h.0.1 in
      Drawn-bind pix _ _
        (put-Drawn pix p (offset_of width height c.x_cent c.y_cent)
          gradient_cluster_annotation_color e (omega (arith, at, below, size)))
        λ q e'. annotate_clusters-Drawn cs q e' h.1

  draw_line-Drawn :
      (n i : ℕ) (p : Bytes)
      → length p ≡ length pix
      → i + n ≤ length pix
      → Drawn pix (draw_line width height n i p)
  unfolding draw_line
  draw_line-Drawn zero i p e h = e
  draw_line-Drawn (suc n) i p e h =
      Drawn-bind pix _ _ (put-Drawn pix p i feature_annotation_color e (omega (arith, h)))
        λ q e'. draw_line-Drawn n (i + 1) q e' (omega (arith, h))

  annotate_features-Drawn :
      (fs : List FeatureInfo) (p : Bytes)
      → length p ≡ length pix
      → All (LiesIn width height) fs
      → Drawn pix (annotate_features width height fs p)
  unfolding annotate_features annotate_feature
  annotate_features-Drawn [] p e h = e
  annotate_features-Drawn (f ∷ fs) p e h =
      let (at, below) = offset_of-lt f.x_min f.y_center (omega (arith, h.0.0)) h.0.1 in
      let (at_end, below_end) = offset_of-lt (f.x_min + f.x_width) f.y_center h.0.0 h.0.1 in
      let o = offset_of width height f.x_min f.y_center in
      Drawn-bind pix _ _
        (Drawn-bind pix _ _
          (draw_line-Drawn (u32 (o + f.x_width) - o) o p e
            (omega (arith, at, below_end, size, small)))
          λ q e'.
            put-Drawn pix q (u32 (o + f.x_width / 2)) feature_center_annotation_color e'
              (omega (arith, at, below_end, size, small)))
        λ r e''. annotate_features-Drawn fs r e'' h.1

  guarded-Drawn :
      (draw : Bytes → Option Bytes) (p : Bytes)
      → length p ≡ length pix
      → Drawn pix (draw p)
      → Drawn pix (guarded width height draw p)
  unfolding guarded
  guarded-Drawn draw p e h =
      if-intro (Drawn pix) (width == 0 || height == 0 || is_empty p) (λ on. e) (λ off. h)

  pub annotate-Drawn :
      (gs : List GradientInfo) (cs : List ClusterInfo) (fs : List FeatureInfo)
      → All (InImage width height) gs
      → All (CentersIn width height) cs
      → All (LiesIn width height) fs
      → Drawn pix (annotate width height gs cs fs pix)
  unfolding annotate sf_annotate_gradients_in_image sf_annotate_clusters_in_image
      sf_annotate_features_in_image
  annotate-Drawn gs cs fs hg hc hf =
      Drawn-bind pix _ _
        (guarded-Drawn (annotate_gradients width height gs) pix refl
          (annotate_gradients-Drawn gs pix refl hg))
        λ p e.
          Drawn-bind pix _ _
            (guarded-Drawn (annotate_clusters width height cs) p e
              (annotate_clusters-Drawn cs p e hc))
            λ q e'.
              guarded-Drawn (annotate_features width height fs) q e'
                (annotate_features-Drawn fs q e' hf)
