-- ===== src/ColorDetect/Tests.antt =====
-- The components of src/color_detect.c at concrete inputs.
use hawkeye.Base.{
  ℕ, ◌≤◌, ◌≡◌, refl, ◌↔◌, true, false, none, some, [], ◌∷◌, ◌++◌, arith, replicate, Bytes, All,
  if◌then◌else◌, ◌==◌,
}
use hawkeye.ColorDetect.Blob.{
  Blob, zero_blob, Detections, clear_blobs, allowed_miss, find_containing_blob, new_or_append_blob,
  any_inside, left_bound, right_bound, lower_bound, takes_segment, find_index,
}
use hawkeye.ColorDetect.Merge.{
  find_largest_blob, bb_overlap, bb_combine, combine_blobs_from_largest, cull_blobs,
  num_complete_blobs,
}
use hawkeye.ColorDetect.Detect.{detect_blobs, success}
use hawkeye.ColorDetect.Draw.{draw_blobs}
use hawkeye.ColorDetect.Table.{IsTable, new_or_append_blob-IsTable}
use hawkeye.ColorDetect.Table.Merging.{IsMerged, cull_blobs-IsTable}
use hawkeye.ColorDetect.Table.Scanning.{detect_blobs-IsMerged}
use hawkeye.ColorDetect.Containing.{
  Chooses, NearIn, IsSmallIn, find_containing_blob-Chooses, find_containing_blob-left_edge,
}
use hawkeye.ColorDetect.Largest.{IsLargest, find_largest_blob-IsLargest}
use hawkeye.ColorDetect.Boxes.{
  Covers, Inside, SamePixels, bb_overlap_iff, bb_combine-Inside_iff,
  combine_blobs_from_largest-SamePixels,
}
use hawkeye.Base.Image.{Drawn}
use hawkeye.ColorDetect.Drawing.{draw_blobs-Drawn}
use hawkeye.ColorDetect.Report.{get_blob_data_string, blob_texts, blob_text, is_written}
use hawkeye.ColorDetect.Reported.{get_blob_data_string-joined}
use hawkeye.Report.{report, append_texts, end_report, strcat, comma_separated}
use hawkeye.Report.Fitting.{joined}
use hawkeye.Base.Print.{print_int, snprintf}
use hawkeye.Base.Text.{codes}

-- A row of eight pixels with a line of five, twice.
abbrev row : Bytes
row = 2 ∷ 0 ∷ 0 ∷ 0 ∷ 0 ∷ 0 ∷ 2 ∷ 2 ∷ []

abbrev image : Bytes
image = row ++ row

-- The right part of an image of 640 columns.
abbrev right_blob : Blob
right_blob = record {
  valid = true;
  bb_x_min = 100;
  bb_x_max = 120;
  bb_y_min = 3;
  bb_y_max = 4;
  cent_x = 0;
  cent_y = 0;
  color_index = 1;
  num_pixels = 40;
  complete = true;
}

-- The same blob near the left edge.
abbrev left_blob : Blob
left_blob = record right_blob { bb_x_min = 10; bb_x_max = 30; num_pixels = 38 }

abbrev one_blob : Blob → Detections
one_blob b = record { blobs = b ∷ replicate 9 zero_blob; num_blobs = 1 }

abbrev two_blobs : Detections
two_blobs = record {
  blobs = left_blob ∷ record right_blob { bb_x_min = 25 } ∷ replicate 8 zero_blob;
  num_blobs = 2;
}

allowed_misses : (allowed_miss 640 ≡ 32) × (allowed_miss 480 ≡ 24) × (allowed_miss 100 ≡ 5)
unfolding allowed_miss
allowed_misses = (refl, refl, refl)

-- A segment right below the blob finds it, and near the left edge it does not.
containing :
    (find_containing_blob (one_blob right_blob) 100 120 5 640 480 1 ≡ some 0)
    × (find_containing_blob (one_blob left_blob) 10 30 5 640 480 1 ≡ none)
unfolding find_containing_blob find_index takes_segment lower_bound allowed_miss any_inside
    left_bound right_bound
containing = (refl, refl)

detect_blobs-IsMerged_example :
    (d : Detections) × (detect_blobs clear_blobs (some image) 8 2 2 0 ≡ some (success, d))
    × IsMerged 8 1 d
detect_blobs-IsMerged_example =
    detect_blobs-IsMerged clear_blobs image 8 2 2 0 (omega arith) (omega arith) (omega arith)

one_blob-IsTable : IsTable 640 4 (one_blob right_blob)
one_blob-IsTable = omega arith

new_or_append_blob-IsTable_example :
    IsTable 640 5 (new_or_append_blob (one_blob right_blob) 100 120 5 640 480 1)
new_or_append_blob-IsTable_example =
    new_or_append_blob-IsTable 5 (omega arith) one_blob-IsTable 100 120 640 480 1 (omega arith)
      (omega arith)

cull_blobs-IsTable_example : IsTable 640 4 (cull_blobs (one_blob right_blob) 200 640 480 100)
cull_blobs-IsTable_example = cull_blobs-IsTable one_blob-IsTable 200 640 480 100

small_right : All (IsSmallIn 120 5 640 480) (one_blob right_blob).blobs
unfolding allowed_miss
small_right = omega arith

find_containing_blob-Chooses_example :
    Chooses
      (NearIn 100 120 5 640 480 1)
      (one_blob right_blob)
      (find_containing_blob (one_blob right_blob) 100 120 5 640 480 1)
find_containing_blob-Chooses_example =
    find_containing_blob-Chooses 100 120 5 640 480 1 (omega arith) (one_blob right_blob) small_right
      (unfold allowed_miss in omega arith)

find_containing_blob-left_edge_example : allowed_miss 640 ≤ 100
unfolding find_containing_blob find_index takes_segment lower_bound allowed_miss any_inside
    left_bound right_bound
find_containing_blob-left_edge_example =
    find_containing_blob-left_edge 100 120 5 640 480 1 (omega arith) (one_blob right_blob)
      small_right {i = 0} refl

find_largest_blob-IsLargest_example : IsLargest 1 two_blobs (find_largest_blob two_blobs 1)
find_largest_blob-IsLargest_example = find_largest_blob-IsLargest two_blobs 1

bb_overlap_iff_example : (bb_overlap left_blob right_blob ≡ true) ↔ (
    (left_blob.color_index ≡ 1)
    × ((x : ℕ) × (y : ℕ) × (Covers left_blob x y × Covers right_blob x y)))
bb_overlap_iff_example = bb_overlap_iff left_blob right_blob (omega arith) (omega arith)

bb_combine-Inside_iff_example :
    Inside (bb_combine left_blob right_blob) left_blob
    ↔ (Inside left_blob left_blob × Inside right_blob left_blob)
bb_combine-Inside_iff_example = bb_combine-Inside_iff left_blob right_blob left_blob

combine_blobs_from_largest-SamePixels_example :
    SamePixels (combine_blobs_from_largest two_blobs 2).blobs two_blobs.blobs
combine_blobs_from_largest-SamePixels_example =
    combine_blobs_from_largest-SamePixels two_blobs 2 refl

abbrev tiny_blob : Blob
tiny_blob = record left_blob { bb_x_min = 1; bb_x_max = 5; bb_y_min = 0; bb_y_max = 1 }

draw_blobs-Drawn_example : Drawn image (draw_blobs image 8 2 (one_blob tiny_blob) false 2)
draw_blobs-Drawn_example =
    draw_blobs-Drawn image 8 2 (omega arith) (omega arith) (omega arith) (one_blob tiny_blob)
      (omega arith) false 2

text_of_blob :
    get_blob_data_string (one_blob right_blob) ≡ some (some (codes "1,0,100,120,3,4,1,40\n"))
unfolding get_blob_data_string num_complete_blobs blob_texts blob_text is_written report
    append_texts end_report strcat comma_separated print_int snprintf
text_of_blob = refl

get_blob_data_string-joined_example : get_blob_data_string two_blobs ≡ (
    if num_complete_blobs two_blobs.blobs == 0
    then some none
    else some (
        some (
          (print_int (num_complete_blobs two_blobs.blobs) ++ joined (blob_texts 0 two_blobs.blobs))
          ++ (10 ∷ []))))
get_blob_data_string-joined_example = get_blob_data_string-joined two_blobs (omega arith)
