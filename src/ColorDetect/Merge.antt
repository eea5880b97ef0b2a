-- ===== src/ColorDetect/Merge.antt =====
-- src/color_detect.c: the largest blob, the merging of overlapping blobs, and the culling of old ones.
use hawkeye.Base.{
  ℕ, zero, suc, ◌+◌, ◌-◌, ◌*◌, ◌/◌, ◌%◌, ◌^◌, Bool, true, false, ◌&&◌, ◌||◌, not, Option, none,
  some, List, [], ◌∷◌, set, ltb, ◌==◌, if◌then◌else◌, u32, sub_u32, int_leb,
}
use hawkeye.Base.Floats.{round_float, div_float}
use hawkeye.ColorDetect.Blob.{Blob, zero_blob, num_blobs_max, Detections, blob_at, allowed_miss}

-- The loop of `find_largest_blob`: index, largest size so far, and its index (`none` for -1).
unfoldable pub largest_from : ℕ → List Blob → ℕ → ℕ → Option ℕ → Option ℕ
largest_from color [] i size best = best
largest_from color (b ∷ bs) i size best =
    let better = color == b.color_index && (b.valid && b.complete) && ltb size b.num_pixels in
    largest_from color bs (i + 1) (if better then b.num_pixels else size)
      (if better then some i else best)

unfoldable pub find_largest_blob : Detections → ℕ → Option ℕ
find_largest_blob d color = largest_from color d.blobs 0 0 none

unfoldable pub bb_overlap : Blob → Blob → Bool
bb_overlap b1 b2 =
    if not (b1.color_index == b2.color_index)
    then false
    else if ltb b2.bb_x_max b1.bb_x_min || ltb b1.bb_x_max b2.bb_x_min
    then false
    else if ltb b2.bb_y_max b1.bb_y_min || ltb b1.bb_y_max b2.bb_y_min
    then false
    else true

-- What `bb_combine` leaves in *p_into; *p_from is cleared by the caller below.
unfoldable pub bb_combine : Blob → Blob → Blob
bb_combine into from = record into {
  bb_x_min = if ltb from.bb_x_min into.bb_x_min then from.bb_x_min else into.bb_x_min;
  bb_x_max = if ltb into.bb_x_max from.bb_x_max then from.bb_x_max else into.bb_x_max;
  bb_y_min = if ltb from.bb_y_min into.bb_y_min then from.bb_y_min else into.bb_y_min;
  bb_y_max = if ltb into.bb_y_max from.bb_y_max then from.bb_y_max else into.bb_y_max;
  num_pixels = u32 (into.num_pixels + from.num_pixels);
}

-- One round of the inner loop of `combine_blobs_from_largest`. `num_blobs` is left alone.
unfoldable pub combine_one : ℕ → Detections → ℕ → Detections
unfolding bb_overlap bb_combine
combine_one largest d i =
    let into = blob_at d largest in
    let from = blob_at d i in
    if not (i == largest) && (from.valid && from.complete) && bb_overlap into from
    then record d { blobs = set (set d.blobs largest (bb_combine into from)) i zero_blob }
    else d

-- The inner loop, with `n` rounds left.
unfoldable pub combine_from : ℕ → ℕ → ℕ → Detections → Detections
combine_from largest zero i d = d
combine_from largest (suc n) i d = combine_from largest n (i + 1) (combine_one largest d i)

unfoldable pub combine_color : Detections → ℕ → Detections
combine_color d color = elim (find_largest_blob d color) [
  | none ↦ d
  | some largest ↦ combine_from largest num_blobs_max 0 d
]

-- The outer loop of `combine_blobs_from_largest`, with `n` colours left.
unfoldable pub combine_colors : ℕ → ℕ → Detections → Detections
combine_colors zero color d = d
combine_colors (suc n) color d = combine_colors n (color + 1) (combine_color d color)

unfoldable pub combine_blobs_from_largest : Detections → ℕ → Detections
combine_blobs_from_largest d detect_color_count = combine_colors detect_color_count 0 d

-- (int) (((float) conf / 10000.0f) * image_width * image_height), for a conf that is not negative.
unfoldable pub share_of_pixels : ℕ → ℕ → ℕ → ℕ
unfolding round_float div_float
share_of_pixels conf image_width image_height =
    let share = div_float (round_float conf) 10000 in
    round_float (round_float (share * round_float image_width) * round_float image_height) / 2 ^ 61

-- min_blob_pixels; the share of a negative min_detect_conf is negative.
unfoldable pub min_blob_pixels : ℕ → ℕ → ℕ → ℕ
min_blob_pixels min_detect_conf image_width image_height =
    if ltb min_detect_conf (2 ^ 31)
    then share_of_pixels min_detect_conf image_width image_height
    else u32 (2 ^ 32 - share_of_pixels (2 ^ 32 - min_detect_conf) image_width image_height)

-- `blob_area_over_threshold` on a pointer that is not null, which its only caller gives it.
unfoldable pub blob_area_over_threshold : Blob → ℕ → ℕ → ℕ → Bool
blob_area_over_threshold b image_width image_height min_detect_conf =
    let area = u32 (sub_u32 b.bb_x_max b.bb_x_min * sub_u32 b.bb_y_max b.bb_y_min) in
    not (int_leb area (u32 (min_blob_pixels min_detect_conf image_width image_height)))

-- Whether `cull_blobs` clears this blob.
unfoldable pub is_culled : ℕ → ℕ → ℕ → ℕ → Blob → Bool
is_culled curr_height image_width image_height min_detect_conf b =
    let bottom = u32 (b.bb_y_max + allowed_miss image_height) in
    let last_allowed_row = if ltb image_height bottom then image_height else bottom in
    b.valid
    && not (int_leb curr_height last_allowed_row)
    && (not (blob_area_over_threshold b image_width image_height min_detect_conf)
        || ltb b.num_pixels 50
        || not b.complete)

-- The loop of `cull_blobs`: the test, the array, and the counter (a size_t).
unfoldable pub cull_from : (Blob → Bool) → List Blob → ℕ → List Blob × ℕ
cull_from test [] num = ([], num)
cull_from test (b ∷ bs) num =
    let culled = test b in
    let (bs', num') = cull_from test bs (if culled then (num + 2 ^ 64 - 1) % 2 ^ 64 else num) in
    ((if culled then zero_blob else b) ∷ bs', num')

unfoldable pub cull_blobs : Detections → ℕ → ℕ → ℕ → ℕ → Detections
cull_blobs d curr_height image_width image_height min_detect_conf =
    let (blobs', num) =
      cull_from (is_culled curr_height image_width image_height min_detect_conf) d.blobs
        d.num_blobs in
    record { blobs = blobs'; num_blobs = num }

-- The loop of `num_complete_blobs`.
unfoldable pub num_complete_blobs : List Blob → ℕ
num_complete_blobs [] = 0
num_complete_blobs (b ∷ bs) = (if b.valid && b.complete then 1 else 0) + num_complete_blobs bs
