-- ===== src/ColorDetect/Report.antt =====
-- src/color_detect.c: `get_blob_data_string`.
use hawkeye.Base.{
  ℕ, ◌+◌, Bool, not, ◌&&◌, Option, none, some, List, [], ◌∷◌, Bytes, ◌==◌, if◌then◌else◌,
}
use hawkeye.Report.{comma_separated, report, returned}
use hawkeye.ColorDetect.Blob.{Blob, Detections}
use hawkeye.ColorDetect.Merge.{num_complete_blobs}

abbrev pub blob_string_max_length : ℕ
blob_string_max_length = 1024

unfoldable pub is_written : Blob → Bool
is_written b = b.valid && b.complete && not (b.num_pixels == 0)

unfoldable pub blob_text : ℕ → Blob → Bytes
blob_text index b =
    comma_separated (
      index ∷ b.bb_x_min ∷ b.bb_x_max ∷ b.bb_y_min ∷ b.bb_y_max ∷ b.color_index ∷ b.num_pixels ∷ [])

-- The texts of the blobs that are written, with blob_index counting those.
unfoldable pub blob_texts : ℕ → List Blob → List Bytes
blob_texts index [] = []
blob_texts index (b ∷ bs) =
    if is_written b then blob_text index b ∷ blob_texts (index + 1) bs else blob_texts index bs

unfoldable pub get_blob_data_string : Detections → Option (Option Bytes)
get_blob_data_string d =
    let num_blobs = num_complete_blobs d.blobs in
    if num_blobs == 0
    then some none
    else returned (report blob_string_max_length num_blobs (blob_texts 0 d.blobs))
