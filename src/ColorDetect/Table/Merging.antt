-- ===== src/ColorDetect/Table/Merging.antt =====
-- `cull_blobs` keeps the table and its counter; `combine_blobs_from_largest` keeps the boxes in the
-- image, and leaves the counter as it was.
use hawkeye.Base.{
  ℕ, zero, suc, ◌+◌, ◌-◌, ◌%◌, ◌^◌, ◌≤◌, ◌<◌, ◌≡◌, refl, ◌∙◌, ap, Bool, true, not, ◌&&◌, List, [],
  ◌∷◌, inl, inr, arith, length, set, length-set, All, All-set, All-get_or, Bool-cases, Option-cases,
  ◌==◌,
}
use hawkeye.ColorDetect.Blob.{Blob, zero_blob, num_blobs_max, Detections, blob_at}
use hawkeye.ColorDetect.Merge.{
  is_culled, cull_from, cull_blobs, bb_overlap, bb_combine, combine_one, combine_from,
  combine_color, combine_colors, combine_blobs_from_largest, find_largest_blob,
}
use hawkeye.ColorDetect.Table.{
  InBox, count_valid, IsTable, count_valid-le-length, count_valid-set_same,
}

-- The test clears blobs in use only.
abbrev OnlyValid : (Blob → Bool) → Type 0
OnlyValid test = (b : Blob) → test b ≡ true → b.valid ≡ true

is_culled-valid :
    (curr_height image_width image_height min_detect_conf : ℕ)
    → OnlyValid (is_culled curr_height image_width image_height min_detect_conf)
unfolding is_culled
is_culled-valid c w h m b e = ground arith

module _ (test : Blob → Bool) where
  length-cull_from : (bs : List Blob) (num : ℕ) → length (cull_from test bs num).0 ≡ length bs
  unfolding cull_from
  length-cull_from [] num = refl
  length-cull_from (b ∷ bs) num = ap suc (length-cull_from bs _)

  boxes-cull_from :
      (width row : ℕ) (bs : List Blob) (num : ℕ)
      → All (InBox width row) bs
      → All (InBox width row) (cull_from test bs num).0
  unfolding cull_from
  boxes-cull_from width row [] num h = tt
  boxes-cull_from width row (b ∷ bs) num h = elim (Bool-cases (test b)) [
    | inl old ↦ rw old (tt, boxes-cull_from width row bs _ h.1)
    | inr young ↦ rw young (h.0, boxes-cull_from width row bs _ h.1)
  ]

  counter-cull_from :
      (bs : List Blob) (num : ℕ)
      → OnlyValid test
      → count_valid bs ≤ num
      → num < 2 ^ 64
      → (cull_from test bs num).1 + count_valid bs ≡ num + count_valid (cull_from test bs num).0
  unfolding cull_from
  counter-cull_from [] num v h k = refl
  counter-cull_from (b ∷ bs) num v h k = elim (Bool-cases (test b)) [
    | inl old ↦
        let used = v b old in
        rw (old, used)
          (let less : (num + 2 ^ 64 - 1) % 2 ^ 64 ≡ num - 1 = ground arith in
            ground (arith, less, counter-cull_from bs ((num + 2 ^ 64 - 1) % 2 ^ 64) v))
    | inr young ↦ rw young (ground (arith, counter-cull_from bs num v))
  ]

module _ {width row : ℕ} {d : Detections} (t : IsTable width row d) where
  -- Culling keeps the table: ten blobs, boxes inside the rows seen, and `num_blobs` equal to the
  -- number of blobs still in use.
  pub cull_blobs-IsTable :
      (curr_height image_width image_height min_detect_conf : ℕ)
      → IsTable width row (cull_blobs d curr_height image_width image_height min_detect_conf)
  unfolding cull_blobs
  cull_blobs-IsTable c w h m =
      let test = is_culled c w h m in
      let sum = counter-cull_from test d.blobs d.num_blobs (is_culled-valid c w h m) in
      record {
        size = length-cull_from test d.blobs d.num_blobs ∙ t.size;
        counted = ground (arith, sum, t.counted, t.size, count_valid-le-length d.blobs);
        boxes = boxes-cull_from test width row d.blobs d.num_blobs t.boxes;
      }

-- The table after the merging: cleared blobs are still counted.
pub record IsMerged (width row : ℕ) (d : Detections) : Type 0 where
  pub size : length d.blobs ≡ num_blobs_max
  pub counted : count_valid d.blobs ≤ d.num_blobs
  pub boxes : All (InBox width row) d.blobs

pub IsTable-IsMerged : {width row : ℕ} {d : Detections} → IsTable width row d → IsMerged width row d
IsTable-IsMerged t = record { size = t.size; counted = omega (arith, t.counted); boxes = t.boxes }

bb_combine-InBox :
    (width row : ℕ) (into from : Blob)
    → from.valid ≡ true
    → InBox width row into
    → InBox width row from
    → InBox width row (bb_combine into from) × ((bb_combine into from).valid ≡ into.valid)
unfolding bb_combine
bb_combine-InBox width row into from v p q = ground arith

count_valid-set_clear : (bs : List Blob) (i : ℕ) → count_valid (set bs i zero_blob) ≤ count_valid bs
count_valid-set_clear [] i = omega arith
count_valid-set_clear (b ∷ bs) zero = omega arith
count_valid-set_clear (b ∷ bs) (suc i) = omega (arith, count_valid-set_clear bs i)

module _ (width row : ℕ) where
  combine_one-IsMerged :
      (largest : ℕ) (d : Detections) (i : ℕ)
      → IsMerged width row d
      → IsMerged width row (combine_one largest d i)
  unfolding combine_one
  combine_one-IsMerged largest d i m =
      let into = blob_at d largest in
      let from = blob_at d i in
      let box = λ (k : ℕ). All-get_or (InBox width row) d.blobs k zero_blob m.boxes tt in
      let first = set d.blobs largest (bb_combine into from) in
      elim (Bool-cases
        (not (i == largest) && (from.valid && from.complete) && bb_overlap into from)) [
          | inl merge ↦
              let (inside, same) =
                bb_combine-InBox width row into from (ground arith) (box largest) (box i) in
              rw merge (record {
                size = length-set first i zero_blob ∙ length-set d.blobs largest _ ∙ m.size;
                counted = omega (
                  arith,
                  count_valid-set_clear first i,
                  count_valid-set_same d.blobs largest (bb_combine into from) same,
                  m.counted,
                );
                boxes =
                    All-set (InBox width row) first i zero_blob
                      (All-set (InBox width row) d.blobs largest _ m.boxes inside) tt;
              })
          | inr keep ↦ rw keep m
        ]

  combine_from-IsMerged :
      (largest n i : ℕ) (d : Detections)
      → IsMerged width row d
      → IsMerged width row (combine_from largest n i d)
  unfolding combine_from
  combine_from-IsMerged largest zero i d m = m
  combine_from-IsMerged largest (suc n) i d m =
      combine_from-IsMerged largest n (i + 1) _ (combine_one-IsMerged largest d i m)

  combine_color-IsMerged :
      (d : Detections) (color : ℕ)
      → IsMerged width row d
      → IsMerged width row (combine_color d color)
  unfolding combine_color
  combine_color-IsMerged d color m = elim (Option-cases (find_largest_blob d color)) [
    | inl nothing ↦ rw (nothing, combine_color) m
    | inr (largest, e) ↦ rw (e, combine_color) (combine_from-IsMerged largest num_blobs_max 0 d m)
  ]

  combine_colors-IsMerged :
      (n color : ℕ) (d : Detections)
      → IsMerged width row d
      → IsMerged width row (combine_colors n color d)
  unfolding combine_colors
  combine_colors-IsMerged zero color d m = m
  combine_colors-IsMerged (suc n) color d m =
      combine_colors-IsMerged n (color + 1) _ (combine_color-IsMerged d color m)

  pub combine_blobs_from_largest-IsMerged :
      (d : Detections) (detect_color_count : ℕ)
      → IsMerged width row d
      → IsMerged width row (combine_blobs_from_largest d detect_color_count)
  unfolding combine_blobs_from_largest
  combine_blobs_from_largest-IsMerged d n m = combine_colors-IsMerged n 0 d m
