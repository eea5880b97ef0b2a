-- ===== src/StripeFilter/Edges.antt =====
-- What `sf_find_gradients` finds: edges against the mean of the two pixels before, by turns rising
-- and falling, from left to right.
use hawkeye.Base.{
  ℕ, zero, suc, ◌+◌, ◌-◌, ◌/◌, ◌≤◌, ◌<◌, ◌≡◌, refl, sym, ap, ◌∙◌, ◌⊎◌, inl, inr, Bool-cases, false,
  List, [], ◌∷◌, ◌++◌, append_assoc, append-nil, none, some, arith, Bytes, length, get_or, drop,
  ltb, leb, ltb→lt, subst, leb→le, if-intro,
}
use hawkeye.StripeFilter.Gradients.{
  negative, positive, GradientInfo, Filter, LineState, ThresholdState, above, below, max_gradients,
  filter_max, filter_min, sf_boxcar_filter, sf_add_gradient, rising, falling, scan_gradient,
  scan_gradients, sf_find_gradients,
}

abbrev pub mean_before : Bytes → ℕ → ℕ
mean_before line k = (get_or line k 0 + get_or line (k + 1) 0) / 2

-- Gradients of the line from pixel k + 2 on, where the state before it is the first index.
pub data IsRun (line : Bytes) (y : ℕ) : ThresholdState → ℕ → List GradientInfo → Type 0 where
  done : {t : ThresholdState} {k : ℕ} → IsRun line y t k []
  up :
      {k : ℕ} (x : ℕ) {gs : List GradientInfo} (g : GradientInfo)
      → k ≤ x
      → x + 2 < length line
      → g ≡ record {
        grad_type = positive;
        x_coord = x + 2;
        y_coord = y;
        value = get_or line (x + 2) 0;
      }
      → filter_max (mean_before line x) < g.value
      → IsRun line y above (x + 1) gs
      → IsRun line y below k (g ∷ gs)
  down :
      {k : ℕ} (x : ℕ) {gs : List GradientInfo} (g : GradientInfo)
      → k ≤ x
      → x + 2 < length line
      → g ≡ record {
        grad_type = negative;
        x_coord = x + 2;
        y_coord = y;
        value = get_or line (x + 2) 0;
      }
      → g.value < filter_min (mean_before line x)
      → IsRun line y below (x + 1) gs
      → IsRun line y above k (g ∷ gs)

earlier :
    (line : Bytes) (y : ℕ) (t : ThresholdState) (k : ℕ) (gs : List GradientInfo)
    → IsRun line y t (k + 1) gs
    → IsRun line y t k gs
earlier line y t k gs done = done
earlier line y t k gs (up x g a b c d r) = up x g (omega arith) b c d r
earlier line y t k gs (down x g a b c d r) = down x g (omega arith) b c d r

get_or-drop :
    (line : Bytes) (i p : ℕ) (ps : Bytes)
    → drop i line ≡ p ∷ ps
    → (get_or line i 0 ≡ p) × (i < length line)
get_or-drop [] zero p ps e = absurd (ground (arith, e))
get_or-drop [] (suc i) p ps e = absurd (ground (arith, e))
get_or-drop (x ∷ xs) zero p ps e = (ground (arith, e), omega arith)
get_or-drop (x ∷ xs) (suc i) p ps e = let h = get_or-drop xs i p ps e in (h.0, omega (arith, h.1))

drop_next : (line : Bytes) (i p : ℕ) (ps : Bytes) → drop i line ≡ p ∷ ps → drop (i + 1) line ≡ ps
drop_next [] zero p ps e = absurd (ground (arith, e))
drop_next [] (suc i) p ps e = absurd (ground (arith, e))
drop_next (x ∷ xs) zero p ps e = ground (arith, e)
drop_next (x ∷ xs) (suc i) p ps e =
    let next : suc i + 1 ≡ suc (i + 1) = omega arith in
    ap (λ k. drop k (x ∷ xs)) next ∙ drop_next xs i p ps e

-- What the rest of a line adds to the list `grads`.
abbrev pub Adds : Bytes → ℕ → ThresholdState → ℕ → List GradientInfo → List GradientInfo → Type 0
Adds line y t k grads out = (new : List GradientInfo) × (out ≡ grads ++ new) × IsRun line y t k new

abbrev pub IsFull : List GradientInfo → Type 0
IsFull grads = max_gradients - 1 ≤ length grads

sf_add_gradient_full :
    (grads : List GradientInfo) (g : GradientInfo) → IsFull grads → sf_add_gradient grads g ≡ grads
unfolding sf_add_gradient
sf_add_gradient_full grads g h =
    if-intro (λ r. r ≡ grads) (leb (max_gradients - 1) (length grads)) (λ on. refl)
      (λ off. absurd (ground (arith, h)))

sf_add_gradient_room :
    (grads : List GradientInfo) (g : GradientInfo)
    → leb (max_gradients - 1) (length grads) ≡ false
    → sf_add_gradient grads g ≡ grads ++ (g ∷ [])
unfolding sf_add_gradient
sf_add_gradient_room grads g h = rw h refl

-- A full list stays as it is.
rising_full :
    (t : ThresholdState) (grads : List GradientInfo) (g : GradientInfo)
    → IsFull grads
    → rising t grads g ≡ grads
unfolding rising
rising_full above grads g h = refl
rising_full below grads g h = sf_add_gradient_full grads g h

falling_full :
    (t : ThresholdState) (grads : List GradientInfo) (g : GradientInfo)
    → IsFull grads
    → falling t grads g ≡ grads
unfolding falling
falling_full below grads g h = refl
falling_full above grads g h = sf_add_gradient_full grads g h

scan_gradient_full :
    (y i p : ℕ) (s : LineState) → IsFull s.grads → (scan_gradient y i p s).grads ≡ s.grads
unfolding scan_gradient
scan_gradient_full y i p s h =
    let r = sf_boxcar_filter s.line_filter p in
    if-intro (λ (r : LineState). r.grads ≡ s.grads) (ltb (filter_max r.output) p)
      (λ on. rising_full s.threshold s.grads _ h)
      (λ off.
        if-intro (λ (r : LineState). r.grads ≡ s.grads) (ltb p (filter_min r.output))
          (λ on. falling_full s.threshold s.grads _ h) (λ off. refl))

scan_gradients_full :
    (y i : ℕ) (ps : Bytes) (s : LineState)
    → IsFull s.grads
    → (scan_gradients y i ps s).grads ≡ s.grads
unfolding scan_gradients
scan_gradients_full y i [] s h = refl
scan_gradients_full y i (p ∷ ps) s h =
    let same = scan_gradient_full y i p s h in
    scan_gradients_full y (i + 1) ps (scan_gradient y i p s) (omega (arith, ap length same, h))
    ∙ same

-- One gradient in front of those of the rest of the line.
module _ (line : Bytes) (y k : ℕ) (grads out : List GradientInfo)
    (stays : IsFull grads → out ≡ grads) where
  add_one :
      (t t' : ThresholdState) (g : GradientInfo)
      → ((gs : List GradientInfo) → IsRun line y t' (k + 1) gs → IsRun line y t k (g ∷ gs))
      → Adds line y t' (k + 1) (sf_add_gradient grads g) out
      → Adds line y t k grads out
  add_one t t' g step (new, e, run) = elim (Bool-cases (leb (max_gradients - 1) (length grads))) [
    | inl full ↦
        ([], stays (leb→le (max_gradients - 1) (length grads) full) ∙ sym (append-nil grads), done)
    | inr room ↦ (
      g ∷ new,
      e ∙ ap (λ l. l ++ new) (sf_add_gradient_room grads g room) ∙ append_assoc grads (g ∷ []) new,
      step new run,
    )
  ]

  rising-Adds :
      (t : ThresholdState) (g : GradientInfo)
      → ((gs : List GradientInfo) → IsRun line y above (k + 1) gs → IsRun line y below k (g ∷ gs))
      → Adds line y above (k + 1) (rising t grads g) out
      → Adds line y t k grads out
  unfolding rising
  rising-Adds above g step (new, e, run) = (new, e, earlier line y above k new run)
  rising-Adds below g step adds = add_one below above g step adds

  falling-Adds :
      (t : ThresholdState) (g : GradientInfo)
      → ((gs : List GradientInfo) → IsRun line y below (k + 1) gs → IsRun line y above k (g ∷ gs))
      → Adds line y below (k + 1) (falling t grads g) out
      → Adds line y t k grads out
  unfolding falling
  falling-Adds below g step (new, e, run) = (new, e, earlier line y below k new run)
  falling-Adds above g step adds = add_one above below g step adds

-- The filter holds the last two pixels.
abbrev Holds : Bytes → ℕ → Filter → Type 0
Holds line k f = (f.older ≡ get_or line k 0) × (f.newer ≡ get_or line (k + 1) 0)

module _ (line : Bytes) (y k p : ℕ) (s : LineState) (holds : Holds line k s.line_filter)
    (here : get_or line (k + 2) 0 ≡ p) (inside : k + 2 < length line) where
  mean : (sf_boxcar_filter s.line_filter p).output ≡ mean_before line k
  unfolding sf_boxcar_filter
  mean = ap (λ n. n / 2) (omega (arith, holds.0, holds.1))

  scan_gradient-Holds : Holds line (k + 1) (scan_gradient y (k + 2) p s).line_filter
  unfolding scan_gradient sf_boxcar_filter
  scan_gradient-Holds =
      let r = sf_boxcar_filter s.line_filter p in
      let next : Holds line (k + 1) r.filter =
        (holds.1, sym here ∙ ap (λ i. get_or line i 0) (omega arith)) in
      if-intro (λ (r : LineState). Holds line (k + 1) r.line_filter) (ltb (filter_max r.output) p)
        (λ on. next)
        (λ off.
          if-intro (λ (r : LineState). Holds line (k + 1) r.line_filter)
            (ltb p (filter_min r.output)) (λ on. next) (λ off. next))

  scan_gradient-Adds :
      (out : List GradientInfo)
      → (IsFull s.grads → out ≡ s.grads)
      → (let s' = scan_gradient y (k + 2) p s in Adds line y s'.threshold (k + 1) s'.grads out)
      → Adds line y s.threshold k s.grads out
  unfolding scan_gradient
  scan_gradient-Adds out stays =
      let r = sf_boxcar_filter s.line_filter p in
      if-intro
        (λ (s' : LineState).
          Adds line y s'.threshold (k + 1) s'.grads out → Adds line y s.threshold k s.grads out)
        (ltb (filter_max r.output) p)
        (λ on adds.
          rising-Adds line y k s.grads out stays s.threshold _
            (λ gs run.
              up k _ (omega arith) inside (rw here refl)
                (rw (← mean) (ltb→lt (filter_max r.output) p on)) run)
            adds)
        (λ off.
          if-intro
            (λ (s' : LineState).
              Adds line y s'.threshold (k + 1) s'.grads out → Adds line y s.threshold k s.grads out)
            (ltb p (filter_min r.output))
            (λ on adds.
              falling-Adds line y k s.grads out stays s.threshold _
                (λ gs run.
                  down k _ (omega arith) inside (rw here refl)
                    (rw (← mean) (ltb→lt p (filter_min r.output) on)) run)
                adds)
            (λ off adds. (adds.0, adds.1, earlier line y s.threshold k adds.0 adds.2)))

scan_gradients-Adds :
    (line : Bytes) (y k : ℕ) (ps : Bytes) (s : LineState)
    → drop (k + 2) line ≡ ps
    → Holds line k s.line_filter
    → Adds line y s.threshold k s.grads (scan_gradients y (k + 2) ps s).grads
unfolding scan_gradients
scan_gradients-Adds line y k [] s e h = ([], sym (append-nil s.grads), done)
scan_gradients-Adds line y k (p ∷ ps) s e h =
    let s' = scan_gradient y (k + 2) p s in
    let (here, inside) = get_or-drop line (k + 2) p ps e in
    let shift : k + 1 + 2 ≡ k + 2 + 1 = omega arith in
    let next : drop (k + 1 + 2) line ≡ ps =
      ap (λ i. drop i line) shift ∙ drop_next line (k + 2) p ps e in
    let later =
      scan_gradients-Adds line y (k + 1) ps s' next
        (scan_gradient-Holds line y k p s h here inside) in
    scan_gradient-Adds line y k p s h here inside (scan_gradients y (k + 2 + 1) ps s').grads
      (scan_gradients_full y (k + 2) (p ∷ ps) s)
      (subst (λ i. Adds line y s'.threshold (k + 1) s'.grads (scan_gradients y i ps s').grads) shift
        later)

-- `sf_find_gradients` fails exactly on a line of at most two pixels. On a longer one it appends to
-- the list edges of that line in order from left to right, by turns rising and falling with a rising one
-- first, and each is brighter or darker than the mean of the two pixels before it by more than the
-- threshold.
pub sf_find_gradients-Adds :
    (line : Bytes) (y : ℕ) (grads : List GradientInfo)
    → ((length line ≤ 2) × (sf_find_gradients grads line y ≡ none))
      ⊎ ((2 < length line)
          × (out : List GradientInfo) × (sf_find_gradients grads line y ≡ some out)
          × Adds line y below 0 grads out)
unfolding sf_find_gradients sf_boxcar_filter
sf_find_gradients-Adds [] y grads = inl (omega arith, refl)
sf_find_gradients-Adds (a ∷ []) y grads = inl (omega arith, refl)
sf_find_gradients-Adds (a ∷ b ∷ []) y grads = inl (omega arith, refl)
sf_find_gradients-Adds (a ∷ b ∷ c ∷ line) y grads = inr (
  omega arith,
  _,
  refl,
  scan_gradients-Adds (a ∷ b ∷ c ∷ line) y 0 (c ∷ line)
      (record { line_filter = record { older = a; newer = b }; threshold = below; grads = grads })
      refl (refl, refl),
)
