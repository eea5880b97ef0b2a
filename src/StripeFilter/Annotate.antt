-- ===== src/StripeFilter/Annotate.antt =====
-- src/stripe_filter.c: the marks that `sf_write_image` leaves in the grayscale picture. Widths and
-- heights are positive ints, and offsets are uint32_t.
use hawkeye.Base.{
  ℕ, zero, suc, ◌+◌, ◌-◌, ◌*◌, ◌/◌, Bool, true, false, ◌||◌, Option, some, List, [], ◌∷◌, Bytes,
  ◌>>=◌, ltb, ◌==◌, if◌then◌else◌, u32, sub_u32,
}
use hawkeye.Base.Image.{put}
use hawkeye.StripeFilter.Gradients.{Gradient, positive, negative, GradientInfo}
use hawkeye.StripeFilter.Clusters.{ClusterInfo}
use hawkeye.StripeFilter.Features.{FeatureInfo}

-- The colour of a gradient: SF_GRADIENT_POSITIVE_ANNOTATION_COLOR or that of negative ones.
unfoldable pub grad_color : Gradient → ℕ
grad_color positive = 0
grad_color negative = 1

abbrev pub gradient_cluster_annotation_color : ℕ
gradient_cluster_annotation_color = 2

abbrev pub feature_annotation_color : ℕ
feature_annotation_color = 3

abbrev pub feature_center_annotation_color : ℕ
feature_center_annotation_color = 4

-- image_data_len == 0
unfoldable pub is_empty : Bytes → Bool
is_empty [] = true
is_empty (p ∷ ps) = false

module _ (width height : ℕ) where
  unfoldable pub offset_of : ℕ → ℕ → ℕ
  offset_of x y = u32 (u32 (y * width) + x)

  -- A pixel of a gradient, and those above and below where the image has them.
  unfoldable pub annotate_gradient : GradientInfo → Bytes → Option Bytes
  annotate_gradient g pix =
      let pixel_offset = offset_of g.x_coord g.y_coord in
      let color = grad_color g.grad_type in
      put pix pixel_offset color >>= λ p.
      (if ltb 0 g.y_coord then put p (sub_u32 pixel_offset width) color else some p) >>= λ q.
      (if ltb g.y_coord (sub_u32 height 1)
        then put q (u32 (pixel_offset + width)) color
        else some q)

  unfoldable pub annotate_gradients : List GradientInfo → Bytes → Option Bytes
  annotate_gradients [] pix = some pix
  annotate_gradients (g ∷ gs) pix = annotate_gradient g pix >>= annotate_gradients gs

  unfoldable pub annotate_clusters : List ClusterInfo → Bytes → Option Bytes
  annotate_clusters [] pix = some pix
  annotate_clusters (c ∷ cs) pix =
      put pix (offset_of c.x_cent c.y_cent) gradient_cluster_annotation_color
      >>= annotate_clusters cs

  -- The line of a feature, with `n` rounds left, from offset `i`. The loop's bound is a uint32_t sum;
  -- where it wraps, the loop has no rounds.
  unfoldable pub draw_line : ℕ → ℕ → Bytes → Option Bytes
  draw_line zero i pix = some pix
  draw_line (suc n) i pix = put pix i feature_annotation_color >>= draw_line n (i + 1)

  unfoldable pub annotate_feature : FeatureInfo → Bytes → Option Bytes
  annotate_feature f pix =
      let start_offset = offset_of f.x_min f.y_center in
      draw_line (u32 (start_offset + f.x_width) - start_offset) start_offset pix >>= λ p.
      put p (u32 (start_offset + f.x_width / 2)) feature_center_annotation_color

  unfoldable pub annotate_features : List FeatureInfo → Bytes → Option Bytes
  annotate_features [] pix = some pix
  annotate_features (f ∷ fs) pix = annotate_feature f pix >>= annotate_features fs

  -- The three functions, which leave the picture alone if a dimension or the length is 0. An empty
  -- list leaves it alone as well.
  unfoldable pub guarded : (Bytes → Option Bytes) → Bytes → Option Bytes
  guarded draw pix = if width == 0 || height == 0 || is_empty pix then some pix else draw pix

  unfoldable pub sf_annotate_gradients_in_image : List GradientInfo → Bytes → Option Bytes
  sf_annotate_gradients_in_image gs = guarded (annotate_gradients gs)

  unfoldable pub sf_annotate_clusters_in_image : List ClusterInfo → Bytes → Option Bytes
  sf_annotate_clusters_in_image cs = guarded (annotate_clusters cs)

  unfoldable pub sf_annotate_features_in_image : List FeatureInfo → Bytes → Option Bytes
  sf_annotate_features_in_image fs = guarded (annotate_features fs)

  -- The calls of `sf_write_image` before the file is written.
  unfoldable pub annotate :
      List GradientInfo → List ClusterInfo → List FeatureInfo → Bytes → Option Bytes
  annotate gs cs fs pix = sf_annotate_gradients_in_image gs pix >>= λ p.
      sf_annotate_clusters_in_image cs p >>= sf_annotate_features_in_image fs
