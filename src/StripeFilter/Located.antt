-- ===== src/StripeFilter/Located.antt =====
-- Gradients, clusters and features of a picture lie in it.
use hawkeye.Base.{
  ℕ, ◌+◌, ◌-◌, ◌≤◌, ◌<◌, ◌≡◌, sym, ap, inl, inr, Option, none, some, List, [], ◌∷◌, arith, Bytes,
  length, length-append, ltb, if-intro, All, All-append, subst,
}
use hawkeye.StripeFilter.Gradients.{
  GradientInfo, ThresholdState, above, below, LineState, max_gradients, filter_max, filter_min,
  sf_boxcar_filter, sf_add_gradient, rising, falling, scan_gradient, scan_gradients,
  sf_find_gradients,
}
use hawkeye.StripeFilter.Edges.{IsRun, done, up, down, sf_find_gradients-Adds}
use hawkeye.StripeFilter.Annotated.{InImage}

-- A list of gradients never gets longer than its array allows.
abbrev pub FitsArray : List GradientInfo → Type 0
FitsArray gs = length gs ≤ max_gradients - 1

sf_add_gradient-FitsArray :
    (gs : List GradientInfo) (g : GradientInfo) → FitsArray gs → FitsArray (sf_add_gradient gs g)
unfolding sf_add_gradient
sf_add_gradient-FitsArray gs g h = ground (arith, length-append {0} gs (g ∷ []))

rising-FitsArray :
    (t : ThresholdState) (gs : List GradientInfo) (g : GradientInfo)
    → FitsArray gs
    → FitsArray (rising t gs g)
unfolding rising
rising-FitsArray above gs g h = h
rising-FitsArray below gs g h = sf_add_gradient-FitsArray gs g h

falling-FitsArray :
    (t : ThresholdState) (gs : List GradientInfo) (g : GradientInfo)
    → FitsArray gs
    → FitsArray (falling t gs g)
unfolding falling
falling-FitsArray above gs g h = sf_add_gradient-FitsArray gs g h
falling-FitsArray below gs g h = h

scan_gradients-FitsArray :
    (y i : ℕ) (ps : Bytes) (s : LineState)
    → FitsArray s.grads
    → FitsArray (scan_gradients y i ps s).grads
unfolding scan_gradients scan_gradient
scan_gradients-FitsArray y i [] s h = h
scan_gradients-FitsArray y i (p ∷ ps) s h =
    let r = sf_boxcar_filter s.line_filter p in
    scan_gradients-FitsArray y (i + 1) ps (scan_gradient y i p s) (
      if-intro (λ (s' : LineState). FitsArray s'.grads) (ltb (filter_max r.output) p)
        (λ on. rising-FitsArray s.threshold s.grads _ h)
        (λ off.
          if-intro (λ (s' : LineState). FitsArray s'.grads) (ltb p (filter_min r.output))
            (λ on. falling-FitsArray s.threshold s.grads _ h) (λ off. h)))

abbrev pub kept : List GradientInfo → Option (List GradientInfo) → List GradientInfo
kept gs none = gs
kept gs (some out) = out

sf_find_gradients-FitsArray :
    (gs : List GradientInfo) (line : Bytes) (y : ℕ)
    → FitsArray gs
    → FitsArray (kept gs (sf_find_gradients gs line y))
unfolding sf_find_gradients
sf_find_gradients-FitsArray gs [] y h = h
sf_find_gradients-FitsArray gs (a ∷ []) y h = h
sf_find_gradients-FitsArray gs (a ∷ b ∷ []) y h = h
sf_find_gradients-FitsArray gs (a ∷ b ∷ c ∷ line) y h =
    scan_gradients-FitsArray y 2 (c ∷ line)
      (record { line_filter = (sf_boxcar_filter _ b).filter; threshold = below; grads = gs }) h

IsRun-InImage :
    (line : Bytes) (y height : ℕ) (t : ThresholdState) (k : ℕ) (gs : List GradientInfo)
    → y < height
    → IsRun line y t k gs
    → All (InImage (length line) height) gs
IsRun-InImage line y height t k [] h done = tt
IsRun-InImage line y height t k (g ∷ gs) h (up x _ a b c d r) = (
  (
    omega (arith, b, ap (λ (i : GradientInfo). i.x_coord) c),
    omega (arith, h, ap (λ (i : GradientInfo). i.y_coord) c),
  ),
  IsRun-InImage line y height above (x + 1) gs h r,
)
IsRun-InImage line y height t k (g ∷ gs) h (down x _ a b c d r) = (
  (
    omega (arith, b, ap (λ (i : GradientInfo). i.x_coord) c),
    omega (arith, h, ap (λ (i : GradientInfo). i.y_coord) c),
  ),
  IsRun-InImage line y height below (x + 1) gs h r,
)

-- A list of gradients in the picture that fits its array.
abbrev pub Located : ℕ → ℕ → List GradientInfo → Type 0
Located width height gs = FitsArray gs × All (InImage width height) gs

pub sf_find_gradients-Located :
    (gs : List GradientInfo) (line : Bytes) (y width height : ℕ)
    → length line ≡ width
    → y < height
    → Located width height gs
    → Located width height (kept gs (sf_find_gradients gs line y))
sf_find_gradients-Located gs line y width height size low (fit, inside) = (
  sf_find_gradients-FitsArray gs line y fit,
  elim (sf_find_gradients-Adds line y gs) [
    | inl (short, failed) ↦ subst (λ o. All (InImage width height) (kept gs o)) (sym failed) inside
    | inr (long, out, found, (new, e, run)) ↦
        subst (λ o. All (InImage width height) (kept gs o)) (sym found)
          (subst (All (InImage width height)) (sym e) (
            All-append (InImage width height) gs new inside (
              subst (λ w. All (InImage w height) new) size
                (IsRun-InImage line y height below 0 new low run))))
  ],
)
