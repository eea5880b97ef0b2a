-- ===== src/ColorDetect/Composed.antt =====
-- src/color_detect.c: proofs about `rgb_color_detection` as a whole.
use hawkeye.Base.{
  ℕ, ◌+◌, ◌-◌, ◌*◌, ◌^◌, ◌≤◌, ◌<◌, ◌≡◌, refl, ◌∙◌, Bool, true, false, Option, none, some, List, [],
  ◌∷◌, ◌++◌, arith, Bytes, All, length, ◌==◌, if◌then◌else◌,
}
use hawkeye.Base.Print.{print_int}
use hawkeye.Files.{Files}
use hawkeye.Report.Fitting.{joined}
use hawkeye.Bitmap.{Stdio, row_padding}
use hawkeye.ColorDetect.Blob.{Detections, num_blobs_max}
use hawkeye.ColorDetect.Merge.{num_complete_blobs}
use hawkeye.ColorDetect.Detect.{success, detect_blobs}
use hawkeye.ColorDetect.Report.{blob_texts, get_blob_data_string}
use hawkeye.ColorDetect.Reported.{get_blob_data_string-joined}
use hawkeye.ColorDetect.Table.Merging.{IsMerged}
use hawkeye.ColorDetect.Table.Scanning.{detect_blobs-IsMerged}
use hawkeye.ColorDetect.Color.{Floats, Pixel, max_detect_colors}
use hawkeye.ColorDetect.Index.{Statics, DetectParams, image_memory, rgb_color_detection}
use hawkeye.ColorDetect.Indexed.{rows_of, indices, index_rows-indices, length-indices}
use hawkeye.ColorDetect.Shown.{Shown, write_debug_image-Shown}

-- The text that is returned.
abbrev pub report_of : Detections → Option Bytes
report_of d =
    if num_complete_blobs d.blobs == 0
    then none
    else some
        ((print_int (num_complete_blobs d.blobs) ++ joined (blob_texts 0 d.blobs)) ++ (10 ∷ []))

get_blob_data_string-report_of :
    (d : Detections) → length d.blobs ≡ num_blobs_max → get_blob_data_string d ≡ some (report_of d)
get_blob_data_string-report_of d size =
    get_blob_data_string-joined d (omega (arith, size)) ∙ chosen (num_complete_blobs d.blobs == 0) _
  where
    chosen :
        (b : Bool) (t : Bytes)
        → (if b then some none else some (some t)) ≡ some (if b then none else some t)
    chosen true t = refl
    chosen false t = refl

-- What is left behind a run on this image.
module _ (floats : Floats) (stdio : Stdio) (malloc : ℕ → Option Bytes)
    (params : DetectParams floats) (width : ℕ) (rows : List (List Pixel)) (wide : 0 < width)
    (high : 0 < length rows) (opened : Option stdio.File) (files : Files) where
  abbrev pub Completed : Bytes → Statics → Option (Option Bytes × Statics × Files) → Type 0
  Completed image st result =
      (d : Detections) × (drawn : Bytes) × (after : Statics) × (written : Files) × (result
        ≡ some (report_of d, record after { detect_image = some drawn }, written))
      × (detect_blobs st.detections (some image) width (length rows) params.color_count
            params.min_detect_conf
          ≡ some (success, d))
      × IsMerged width (length rows - 1) d
      × (after.detections ≡ d)
      × (length drawn ≡ length image)
      × Shown floats stdio malloc params width (length rows) wide high opened files st d image drawn
          after written

  -- On a picture of rows of pixels, of any positive size below 2^31 pixels, with at most two
  -- colours, a file name of at most 255 bytes, and memory for the image and for its bitmap below 4
  -- GiB, `rgb_color_detection` stays inside its buffers. The blobs are those that `detect_blobs`
  -- finds in the image that has, for each pixel in its place, the entry of the first colour that it
  -- matches, or that of no colour; their boxes lie in the picture. It returns the text of these
  -- blobs. If a debug picture is asked for, `draw_blobs` draws the boxes of all complete blobs, not
  -- only of the largest, and the image with them replaces the file as a bitmap, as far as it can be
  -- written; the names of that file and of the temporary one are those that an earlier call left,
  -- or else the name in the parameters, alone and with a ~. Otherwise neither the image nor a file
  -- changes.
  pub rgb_color_detection-Completed :
      (rest memory pix : Bytes) (st : Statics)
      → All (λ row. length row ≡ width) rows
      → length rows * width < 2 ^ 31
      → params.color_count ≤ max_detect_colors
      → params.color_count ≤ length params.detect_colors
      → image_memory floats stdio malloc st (width * length rows) ≡ some memory
      → length rows * width ≡ length memory
      → 54 + 1024 + length rows * (width + row_padding width) < 2 ^ 32
      → malloc (length rows * (width + row_padding width)) ≡ some pix
      → length pix ≡ length rows * (width + row_padding width)
      → length params.detection_image_file_name ≤ 255
      → Completed (indices floats params rows) st (
          rgb_color_detection floats stdio malloc params
            (rows_of floats params rows ++ rest)
            width
            (length rows)
            opened
            st
            files)
  unfolding rgb_color_detection
  rgb_color_detection-Completed rest memory pix st even small few given has size room got fits
        short =
      let image = indices floats params rows in
      let sized : length image ≡ length rows * width =
        length-indices floats params few given width rows even in
      let (d, found, merged) =
        detect_blobs-IsMerged st.detections image width (length rows) params.color_count
          params.min_detect_conf wide high (omega (arith, sized)) in
      let (drawn, named, after, shows, same, kept, shown) =
        write_debug_image-Shown floats stdio malloc params width (length rows) wide high opened
          files room pix got fits image (record st { detections = d }) sized small merged.boxes
          short in
      let indexed = index_rows-indices floats params few given width rows rest memory even size in
      (
        d,
        drawn,
        named,
        after,
        rw (has, indexed, found, shows, get_blob_data_string-report_of d merged.size) refl,
        found,
        merged,
        same,
        kept,
        shown,
      )
