-- ===== src/ColorDetect/Blob.antt =====
-- src/color_detect.c and color_detect.h: the table of blobs, and the operations on single segments.
-- An `int` or `uint32_t` is its 32-bit pattern. Column and row numbers come from loop counters, so
-- the tests for negative ones in `append_blob` never hold and are left out.
use hawkeye.Base.{
  ℕ, suc, ◌+◌, ◌-◌, zero, Bool, true, false, ◌&&◌, not, Option, none, some, List, [], ◌∷◌, get_or,
  set, replicate, ltb, leb, ◌==◌, if◌then◌else◌, u32, u64, sub_u32, int_leb, size_of_int,
}
use hawkeye.Base.Floats.{scale}

pub record Blob : Type 0 where
  pub valid : Bool
  pub bb_x_min : ℕ
  pub bb_x_max : ℕ
  pub bb_y_min : ℕ
  pub bb_y_max : ℕ
  pub cent_x : ℕ
  pub cent_y : ℕ
  pub color_index : ℕ
  pub num_pixels : ℕ
  pub complete : Bool

-- What memset(p, 0, sizeof(blob_t)) leaves.
abbrev pub zero_blob : Blob
zero_blob = record {
  valid = false;
  bb_x_min = 0;
  bb_x_max = 0;
  bb_y_min = 0;
  bb_y_max = 0;
  cent_x = 0;
  cent_y = 0;
  color_index = 0;
  num_pixels = 0;
  complete = false;
}

abbrev pub num_blobs_max : ℕ
num_blobs_max = 10

pub record Detections : Type 0 where
  pub blobs : List Blob
  pub num_blobs : ℕ

-- `clear_blobs`
abbrev pub clear_blobs : Detections
clear_blobs = record { blobs = replicate num_blobs_max zero_blob; num_blobs = 0 }

abbrev pub blob_at : Detections → ℕ → Blob
blob_at d i = get_or d.blobs i zero_blob

-- (int) (0.05f * (float) n): both BLOB_ALLOWED_ROW_MISS_PERCENT and _COLUMN_MISS_PERCENT.
unfoldable pub allowed_miss : ℕ → ℕ
unfolding scale
allowed_miss n = scale 13421773 28 n

-- for (size_t j = w_min; j < w_max; ++j) if (j >= x_min && j <= x_max) …, with `n` rounds left.
unfoldable pub any_inside : ℕ → ℕ → ℕ → ℕ → Bool
any_inside zero j x_min x_max = false
any_inside (suc n) j x_min x_max =
    let rest = any_inside n (j + 1) x_min x_max in if leb x_min j && leb j x_max then true else rest

-- The bounds of `find_containing_blob`, as the comparisons that use them read them: `x_min` and
-- `x_max` as size_t, `y_max` as int. The left one is computed in unsigned arithmetic, so the test
-- `< 0` is that of a uint32_t.
unfoldable pub left_bound : ℕ → Blob → ℕ
left_bound column_miss b =
    let low = sub_u32 b.bb_x_min column_miss in size_of_int (if ltb low 0 then 0 else low)

unfoldable pub right_bound : ℕ → ℕ → Blob → ℕ
right_bound column_miss image_width b =
    let right = u32 (b.bb_x_max + column_miss) in
    size_of_int (if ltb image_width right then image_width else right)

unfoldable pub lower_bound : ℕ → ℕ → Blob → ℕ
lower_bound row_miss image_height b =
    let bottom = u32 (b.bb_y_max + row_miss) in
    if ltb image_height bottom then image_height else bottom

-- The body of the loop of `find_containing_blob`, given the allowed misses.
unfoldable pub takes_segment : ℕ → ℕ → ℕ → ℕ → ℕ → ℕ → ℕ → ℕ → Blob → Bool
takes_segment column_miss row_miss w_min w_max h_last image_width image_height color b =
    b.valid
    && color == b.color_index
    && int_leb h_last (lower_bound row_miss image_height b)
    && any_inside (w_max - w_min) w_min (left_bound column_miss b)
        (right_bound column_miss image_width b)

-- The first index, from `i` on, whose blob passes the test.
unfoldable pub find_index : (Blob → Bool) → List Blob → ℕ → Option ℕ
find_index test [] i = none
find_index test (b ∷ bs) i =
    let rest = find_index test bs (i + 1) in if test b then some i else rest

-- `none` is the -1 of `find_containing_blob`.
unfoldable pub find_containing_blob : Detections → ℕ → ℕ → ℕ → ℕ → ℕ → ℕ → Option ℕ
find_containing_blob d w_min w_max h_last image_width image_height color =
    let column_miss = allowed_miss image_width in
    let row_miss = allowed_miss image_height in
    find_index
      (takes_segment column_miss row_miss w_min w_max h_last image_width image_height color) d.blobs
      0

-- What `append_blob` does to the blob that it is given.
unfoldable pub extend_blob : ℕ → ℕ → ℕ → Blob → Blob
extend_blob w_min w_max h_last b = record b {
  bb_y_max = h_last;
  bb_x_min = if ltb w_min b.bb_x_min then w_min else b.bb_x_min;
  bb_x_max = if ltb b.bb_x_max w_max then w_max else b.bb_x_max;
  num_pixels = u32 (b.num_pixels + sub_u32 w_max w_min);
  complete = true;
}

-- `append_blob`. Index 10 passes its guard and is out of the array: `set` then changes nothing.
unfoldable pub append_blob : Detections → ℕ → ℕ → ℕ → ℕ → ℕ → Detections
append_blob d w_min w_max h_last index color =
    let b = blob_at d index in
    if ltb num_blobs_max index
    then d
    else if not (color == b.color_index)
    then d
    else record d { blobs = set d.blobs index (extend_blob w_min w_max h_last b) }

-- What `new_blob` writes into the empty blob that it finds; the centroid is not set.
unfoldable pub start_blob : ℕ → ℕ → ℕ → ℕ → Blob → Blob
start_blob w_min w_max h color b = record b {
  bb_y_min = h;
  bb_y_max = h;
  bb_x_min = w_min;
  bb_x_max = w_max;
  num_pixels = sub_u32 w_max w_min;
  color_index = color;
  complete = false;
  valid = true;
}

-- `new_blob`, with the index that it returns (`none` for -1).
unfoldable pub new_blob : Detections → ℕ → ℕ → ℕ → ℕ → Detections × Option ℕ
new_blob d w_min w_max h color = elim (find_index (λ b. not b.valid) d.blobs 0) [
  | none ↦ (d, none)
  | some i ↦ (
    record d {
      blobs = set d.blobs i (start_blob w_min w_max h color (blob_at d i));
      num_blobs = u64 (d.num_blobs + 1);
    },
    some i,
  )
]

-- `new_or_append_blob`. A segment of a negative length is shorter than 3, as is its truncation.
unfoldable pub new_or_append_blob : Detections → ℕ → ℕ → ℕ → ℕ → ℕ → ℕ → Detections
new_or_append_blob d line_min line_max h image_width image_height color =
    if ltb (line_max - line_min) 3
    then d
    else elim (find_containing_blob d line_min line_max h image_width image_height color) [
      | none ↦ if ltb d.num_blobs num_blobs_max then (new_blob d line_min line_max h color).0 else d
      | some index ↦ append_blob d line_min line_max h index color
    ]
