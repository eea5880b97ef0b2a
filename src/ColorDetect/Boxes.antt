-- ===== src/ColorDetect/Boxes.antt =====
-- Overlapping and combining bounding boxes, and the pixel counts under merging.
use hawkeye.Base.{
  ℕ, zero, suc, ◌+◌, ◌%◌, ◌^◌, ◌≤◌, ◌<◌, ◌≡◌, ◌≢◌, refl, ◌∙◌, ◌↔◌, true, not, ◌&&◌, List, [], ◌∷◌,
  arith, length, get_or, set, length-set, get_or-set_ne, Bool-cases, Option-cases, inl, inr, max,
  ◌==◌,
}
use hawkeye.ColorDetect.Blob.{Blob, zero_blob, num_blobs_max, Detections, blob_at}
use hawkeye.ColorDetect.Largest.{find_largest_blob-IsLargest}
use hawkeye.ColorDetect.Merge.{
  bb_overlap, bb_combine, combine_one, combine_from, combine_color, combine_colors,
  combine_blobs_from_largest, find_largest_blob,
}

-- The pixel (x, y) lies in the box, whose bounds all belong to it.
abbrev pub Covers : Blob → ℕ → ℕ → Type 0
Covers b x y = (b.bb_x_min ≤ x) × (x ≤ b.bb_x_max) × (b.bb_y_min ≤ y) × (y ≤ b.bb_y_max)

abbrev pub IsBox : Blob → Type 0
IsBox b = (b.bb_x_min ≤ b.bb_x_max) × (b.bb_y_min ≤ b.bb_y_max)

-- Two blobs overlap exactly when they have one colour and some pixel lies in both boxes.
pub bb_overlap_iff :
    (b1 b2 : Blob)
    → IsBox b1
    → IsBox b2
    → (bb_overlap b1 b2 ≡ true)
      ↔ ((b1.color_index ≡ b2.color_index) × ((x : ℕ) × (y : ℕ) × (Covers b1 x y × Covers b2 x y)))
unfolding bb_overlap
bb_overlap_iff b1 b2 p q = (
  λ h. (
    ground arith,
    (max b1.bb_x_min b2.bb_x_min, max b1.bb_y_min b2.bb_y_min, (ground arith, ground arith)),
  ),
  λ h. ground (arith, h.0, h.1.2.0, h.1.2.1),
)

-- One box lies inside another.
abbrev pub Inside : Blob → Blob → Type 0
Inside a b =
    (b.bb_x_min ≤ a.bb_x_min)
    × (a.bb_x_max ≤ b.bb_x_max)
    × (b.bb_y_min ≤ a.bb_y_min)
    × (a.bb_y_max ≤ b.bb_y_max)

-- The box that `bb_combine` leaves is the least one around both: it lies inside a box exactly when
-- both of them do.
pub bb_combine-Inside_iff :
    (into from outer : Blob)
    → Inside (bb_combine into from) outer ↔ (Inside into outer × Inside from outer)
unfolding bb_combine
bb_combine-Inside_iff into from outer = ground arith

-- The pixels of all blobs together.
abbrev pub total_pixels : List Blob → ℕ
total_pixels [] = 0
total_pixels (b ∷ bs) = b.num_pixels + total_pixels bs

total_pixels-set :
    (bs : List Blob) (i : ℕ) (v : Blob)
    → i < length bs
    → total_pixels (set bs i v) + (get_or bs i zero_blob).num_pixels
      ≡ total_pixels bs + v.num_pixels
total_pixels-set [] i v h = absurd (omega arith)
total_pixels-set (b ∷ bs) zero v h = omega arith
total_pixels-set (b ∷ bs) (suc i) v h = omega (arith, total_pixels-set bs i v (omega arith))

-- The pixel counts are uint32_t, so the total is kept modulo 2 ^ 32.
abbrev pub SamePixels : List Blob → List Blob → Type 0
SamePixels bs cs = (length bs ≡ length cs) × (total_pixels bs % 2 ^ 32 ≡ total_pixels cs % 2 ^ 32)

bb_combine-num_pixels :
    (into from : Blob)
    → (bb_combine into from).num_pixels ≡ (into.num_pixels + from.num_pixels) % 2 ^ 32
unfolding bb_combine
bb_combine-num_pixels into from = refl

combine_one-SamePixels :
    (largest : ℕ) (d : Detections) (i : ℕ)
    → largest < length d.blobs
    → i < length d.blobs
    → SamePixels (combine_one largest d i).blobs d.blobs
unfolding combine_one
combine_one-SamePixels largest d i lt lt' =
    let into = blob_at d largest in
    let from = blob_at d i in
    let merged = bb_combine into from in
    let first = set d.blobs largest merged in
    elim (Bool-cases
      (not (i == largest) && (from.valid && from.complete) && bb_overlap into from)) [
        | inr keep ↦ rw keep (refl, refl)
        | inl merge ↦
            let apart : largest ≢ i = ground arith in
            let step = total_pixels-set d.blobs largest merged lt in
            let clear =
              total_pixels-set first i zero_blob
                (omega (arith, length-set d.blobs largest merged)) in
            let same = get_or-set_ne d.blobs largest i merged zero_blob apart in
            rw merge (
              length-set first i zero_blob ∙ length-set d.blobs largest merged,
              ground (arith, step, clear, same, bb_combine-num_pixels into from),
            )
      ]

combine_from-SamePixels :
    (largest n i : ℕ) (d : Detections)
    → largest < length d.blobs
    → i + n ≤ length d.blobs
    → SamePixels (combine_from largest n i d).blobs d.blobs
unfolding combine_from
combine_from-SamePixels largest zero i d lt le = (refl, refl)
combine_from-SamePixels largest (suc n) i d lt le =
    let one = combine_one-SamePixels largest d i lt (omega arith) in
    let rest =
      combine_from-SamePixels largest n (i + 1) (combine_one largest d i) (omega (arith, one.0))
        (omega (arith, one.0)) in
    (rest.0 ∙ one.0, rest.1 ∙ one.1)

combine_color-SamePixels :
    (d : Detections) (color : ℕ)
    → length d.blobs ≡ num_blobs_max
    → SamePixels (combine_color d color).blobs d.blobs
unfolding combine_color
combine_color-SamePixels d color size = elim (Option-cases (find_largest_blob d color)) [
  | inl nothing ↦ rw (nothing, combine_color) (refl, refl)
  | inr (largest, e) ↦
      let inside = rw e at (find_largest_blob-IsLargest d color) in
      rw (e, combine_color)
        (combine_from-SamePixels largest num_blobs_max 0 d inside.0 (omega arith))
]

combine_colors-SamePixels :
    (n color : ℕ) (d : Detections)
    → length d.blobs ≡ num_blobs_max
    → SamePixels (combine_colors n color d).blobs d.blobs
unfolding combine_colors
combine_colors-SamePixels zero color d size = (refl, refl)
combine_colors-SamePixels (suc n) color d size =
    let one = combine_color-SamePixels d color size in
    let rest = combine_colors-SamePixels n (color + 1) (combine_color d color) (one.0 ∙ size) in
    (rest.0 ∙ one.0, rest.1 ∙ one.1)

-- Merging overlapping blobs into the largest of each colour keeps the number of blobs in the table,
-- and the pixels of all blobs together, counted modulo 2 ^ 32, for any number of colours.
pub combine_blobs_from_largest-SamePixels :
    (d : Detections) (detect_color_count : ℕ)
    → length d.blobs ≡ num_blobs_max
    → SamePixels (combine_blobs_from_largest d detect_color_count).blobs d.blobs
unfolding combine_blobs_from_largest
combine_blobs_from_largest-SamePixels d n size = combine_colors-SamePixels n 0 d size
