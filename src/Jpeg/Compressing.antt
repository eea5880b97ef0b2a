-- ===== src/Jpeg/Compressing.antt =====
-- The stripe detector inside the compressor: what is found in a picture lies in it, and is marked there.
use hawkeye.Base.{
  ℕ, zero, suc, ◌+◌, ◌*◌, ◌/◌, ◌^◌, ◌≤◌, ◌<◌, ◌≡◌, refl, sym, ◌∙◌, Bool, true, false, Option, none,
  some, List, [], ◌∷◌, arith, Bytes, length, length-append, length-drop, drop, if◌then◌else◌, All,
  subst,
}
use hawkeye.Base.Image.{Drawn}
use hawkeye.StripeFilter.Gradients.{GradientInfo, sf_find_gradients}
use hawkeye.StripeFilter.Clusters.{ClusterInfo, sf_cluster_gradients}
use hawkeye.StripeFilter.Features.{sf_find_features}
use hawkeye.StripeFilter.Annotate.{annotate}
use hawkeye.StripeFilter.Annotated.{InImage, CentersIn, LiesIn, annotate-Drawn}
use hawkeye.StripeFilter.Located.{Located, kept, sf_find_gradients-Located}
use hawkeye.StripeFilter.Centered.{
  max_side, sf_cluster_gradients-CentersIn, sf_find_features-LiesIn,
}
use hawkeye.Jpeg.Pixels.{Pixels, add_pixel, Position, convert_pixel, convert_pixels}
use hawkeye.Jpeg.Compress.{list_after, scan_lines, Detected, detect_stripes, start_position}

-- How many bytes of the source `n` more pixels read.
abbrev pub needed : Bool → ℕ → ℕ
needed false n = 4 * ((n + 1) / 2)
needed true n = 4 * ((n + 2) / 2)

zero_add : (n : ℕ) → zero + n ≡ n
zero_add n = omega arith

-- A position with room for `n` more pixels, and `g` pixels behind it.
abbrev pub At : ℕ → ℕ → Position → Type 0
At n g p = (needed p.z n ≤ length p.src) × (length p.pixels.gray ≡ g)

-- A pixel needs a whole group of the source.
one_group : (n k : ℕ) (z : Bool) → needed z (suc n) ≤ k → 4 ≤ k
one_group n k false h = omega (arith, h)
one_group n k true h = omega (arith, h)

convert_from-At :
    (n g : ℕ) (z : Bool) (src : Bytes) (out : Pixels)
    → At (suc n) g (record { z = z; src = src; pixels = out })
    → (q : Position) × (convert_pixel (record { z = z; src = src; pixels = out }) ≡ some q)
      × At n (g + 1) q
unfolding convert_pixel add_pixel
convert_from-At n g false (a ∷ b ∷ c ∷ d ∷ rest) out h =
    (_, refl, (omega (arith, h.0), omega (arith, h.1, length-append {0} out.gray (a ∷ []))))
convert_from-At n g true (a ∷ b ∷ c ∷ d ∷ rest) out h =
    (_, refl, (omega (arith, h.0), omega (arith, h.1, length-append {0} out.gray (c ∷ []))))
convert_from-At n g z [] out h = absurd (omega (arith, one_group n 0 z h.0))
convert_from-At n g z (a ∷ []) out h = absurd (omega (arith, one_group n 1 z h.0))
convert_from-At n g z (a ∷ b ∷ []) out h = absurd (omega (arith, one_group n 2 z h.0))
convert_from-At n g z (a ∷ b ∷ c ∷ []) out h = absurd (omega (arith, one_group n 3 z h.0))

convert_pixels-At :
    (m n g : ℕ) (p : Position)
    → At (m + n) g p
    → (q : Position) × (convert_pixels m p ≡ some q) × At n (g + m) q
unfolding convert_pixels
convert_pixels-At zero n g p h =
    (p, refl, (subst (λ k. needed p.z k ≤ length p.src) (zero_add n) h.0, omega (arith, h.1)))
convert_pixels-At (suc m) n g p h =
    let one : suc m + n ≡ suc (m + n) = omega arith in
    let (q, step, at) =
      convert_from-At (m + n) g p.z p.src p.pixels
        (subst (λ k. needed p.z k ≤ length p.src) one h.0, h.1) in
    let (r, steps, end) = convert_pixels-At m n (g + 1) q at in
    (r, rw step steps, (end.0, omega (arith, end.1)))

-- All lines of a picture, and the gradients in them.
scan_lines-Located :
    (detect : Bool) (width height left line : ℕ) (p : Position) (gs : List GradientInfo)
    → line + left ≡ height
    → At (left * width) (line * width) p
    → Located width height gs
    → (q : Position) × (out : List GradientInfo) × (scan_lines detect width left line p gs
        ≡ some (q, out))
      × (length q.pixels.gray ≡ height * width)
      × Located width height out
unfolding scan_lines list_after
scan_lines-Located detect width height zero line p gs e h l = (p, gs, refl, grind (arith, h.1), l)
scan_lines-Located detect width height (suc left) line p gs e h l =
    let more : suc left * width ≡ width + left * width = grind arith in
    let (q, runs, at) =
      convert_pixels-At width (left * width) (line * width) p
        (subst (λ k. needed p.z k ≤ length p.src) more h.0, h.1) in
    let next : line * width + width ≡ (line + 1) * width = grind arith in
    let gray = drop (length p.pixels.gray) q.pixels.gray in
    let size : length gray ≡ width =
      omega (arith, length-drop (length p.pixels.gray) q.pixels.gray, h.1, at.1) in
    let found : Located width height
        (if detect then list_after gs (sf_find_gradients gs gray line) else gs) =
      after detect gs gray line size (omega arith) l in
    let (r, out, rest, total, located) =
      scan_lines-Located detect width height left (line + 1) q
        (if detect then list_after gs (sf_find_gradients gs gray line) else gs) (omega arith)
        (at.0, at.1 ∙ next) found in
    (r, out, rw runs rest, total, located)
  where
    same :
        (before : List GradientInfo) (o : Option (List GradientInfo))
        → list_after before o ≡ kept before o
    same before none = refl
    same before (some out) = refl

    after :
        (detect : Bool) (gs : List GradientInfo) (gray : Bytes) (line : ℕ)
        → length gray ≡ width
        → line < height
        → Located width height gs
        → Located width height
            (if detect then list_after gs (sf_find_gradients gs gray line) else gs)
    after false gs gray line size low l = l
    after true gs gray line size low l =
        subst (Located width height) (sym (same gs (sf_find_gradients gs gray line)))
          (sf_find_gradients-Located gs gray line width height size low l)

-- What the detector finds from gradients in the picture lies in the picture.
abbrev pub DetectedIn : ℕ → ℕ → Detected → Type 0
DetectedIn width height d =
    All (InImage width height) d.grads
    × All (CentersIn width height) d.clusters
    × All (LiesIn width height) d.features

-- Marking what was detected writes inside the picture only.
abbrev pub DetectedDrawn : ℕ → ℕ → Detected → Bytes → Type 0
DetectedDrawn width height d gray =
    Drawn gray (annotate width height d.grads d.clusters d.features gray)

module _ (width height : ℕ) (wide : 0 < width) (tall : 0 < height) (narrow : width ≤ max_side)
    (flat : height ≤ max_side) where
  features_in :
      (cs : List ClusterInfo)
      → All (CentersIn width height) cs
      → All (LiesIn width height) (list_after [] (sf_find_features cs []))
  unfolding list_after sf_find_features
  features_in [] h = tt
  features_in (c ∷ cs) h =
      let (out, runs, inside) = sf_find_features-LiesIn width height narrow flat wide tall c cs h in
      subst (λ o. All (LiesIn width height) (list_after [] o)) (sym runs) inside

  detect_stripes-DetectedIn :
      (gs : List GradientInfo)
      → Located width height gs
      → DetectedIn width height (detect_stripes gs)
  unfolding detect_stripes list_after sf_cluster_gradients
  detect_stripes-DetectedIn [] l = (l.1, tt, features_in [] tt)
  detect_stripes-DetectedIn (g ∷ gs) l =
      let (out, runs, inside) = sf_cluster_gradients-CentersIn width height narrow flat g gs l in
      (
        l.1,
        subst (λ o. All (CentersIn width height) (list_after [] o)) (sym runs) inside,
        subst
            (λ o. All (LiesIn width height) (list_after [] (sf_find_features (list_after [] o) [])))
            (sym runs) (features_in out inside),
      )

  -- On a picture of at most 42,949 pixels on each side and less than 2^31 in all, whose source has the
  -- four bytes of every pair of pixels, the loop over the lines stays inside the source and leaves a
  -- luminance image of all pixels; the gradients, clusters and features that the detector finds
  -- from it lie in the picture, and marking all of them writes inside that image only.
  pub scan_lines-Drawn :
      (src : Bytes)
      → 4 * ((height * width + 1) / 2) ≤ length src
      → width * height < 2 ^ 31
      → (q : Position) × (gs : List GradientInfo) × (scan_lines true width height 0
            (start_position src)
            []
          ≡ some (q, gs))
        × (length q.pixels.gray ≡ height * width)
        × DetectedIn width height (detect_stripes gs)
        × DetectedDrawn width height (detect_stripes gs) q.pixels.gray
  scan_lines-Drawn src enough small =
      let (q, gs, runs, size, located) =
        scan_lines-Located true width height height 0 (start_position src) [] (omega arith)
          (enough, omega arith) (omega arith, tt) in
      let d = detect_stripes gs in
      let inside = detect_stripes-DetectedIn gs located in
      (
        q,
        gs,
        runs,
        size,
        inside,
        annotate-Drawn width height q.pixels.gray (grind (arith, size)) small d.grads d.clusters
            d.features inside.0 inside.1 inside.2,
      )
