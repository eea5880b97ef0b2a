-- ===== src/ColorDetect/Index.antt =====
-- src/color_detect.c: `build_detect_params` and `rgb_color_detection`. The pointers that they test for null are
-- not null here. Widths and heights are positive ints whose product stays below 2 ^ 31.
use hawkeye.Base.{
  ℕ, zero, suc, ◌*◌, Bool, true, false, ◌||◌, Option, none, some, List, [], ◌∷◌, ◌++◌, Bytes, ◌>>=◌,
  if◌then◌else◌,
}
use hawkeye.Base.Print.{snprintf}
use hawkeye.Files.{Files, file_steps, replace_steps}
use hawkeye.Bitmap.{Stdio, bm_write_bitmap_with_color_table}
use hawkeye.ColorDetect.Blob.{Detections}
use hawkeye.ColorDetect.Detect.{detect_blobs}
use hawkeye.ColorDetect.Draw.{draw_blobs}
use hawkeye.ColorDetect.Report.{get_blob_data_string}
use hawkeye.ColorDetect.Color.{
  Floats, Pixel, DetectColor, detect_color_table, color_detect_color_table, find_color,
}

-- The static variables of the file and of rgb_color_detection.
pub record Statics : Type 0 where
  pub detections : Detections
  pub detect_image : Option Bytes
  pub temp_name : Bytes
  pub name : Bytes

unfoldable pub is_unnamed : Bytes → Bool
is_unnamed [] = true
is_unnamed (c ∷ cs) = false

module _ (floats : Floats) where
  open floats use {Float}

  -- detect_params_t
  pub record DetectParams : Type 0 where
    pub color_count : ℕ
    pub detect_colors : List (DetectColor floats)
    pub tolerance : Float
    pub min_detect_conf : ℕ
    pub write_image : Bool
    pub write_detection : Bool
    pub detection_image_file_name : Bytes

  unfoldable pub build_detect_params :
      List (DetectColor floats) → ℕ → Float → ℕ → Bool → Bool → Bytes → Bytes → DetectParams
  build_detect_params colors color_count tolerance min_detect_conf write_image write_detection path
        name =
      record {
        color_count = color_count;
        detect_colors = colors;
        tolerance = tolerance;
        min_detect_conf = min_detect_conf;
        write_image = write_image;
        write_detection = write_detection;
        detection_image_file_name = snprintf 256 (path ++ (b'/' ∷ name));
      }

  unfoldable pub color_of : DetectParams → Pixel → Option ℕ
  color_of params p =
      find_color floats params.color_count params.detect_colors detect_color_table p
        params.tolerance

  -- The loop over a row, with `n` pixels left, from p_input and p_detect_image on: what is written, and the
  -- memory behind the two pointers afterwards.
  unfoldable pub index_row : DetectParams → ℕ → Bytes → Bytes → Option (Bytes × Bytes × Bytes)
  index_row params zero input image = some ([], input, image)
  index_row params (suc n) (red ∷ green ∷ blue ∷ input) (old ∷ image) =
      color_of params (record { red = red; green = green; blue = blue }) >>= λ c.
      index_row params n input image >>= λ (row, rest, behind). some (c ∷ row, rest, behind)
  index_row params (suc n) input image = none

  -- The loop over the rows: the memory of the image afterwards.
  unfoldable pub index_rows : DetectParams → ℕ → ℕ → Bytes → Bytes → Option Bytes
  index_rows params width zero input image = some image
  index_rows params width (suc n) input image =
      index_row params width input image >>= λ (row, rest, behind).
      index_rows params width n rest behind >>= λ rows. some (row ++ rows)

  module _ (stdio : Stdio) (malloc : ℕ → Option Bytes) where
    open stdio use {File, contents}

    -- The names of the files, once they are set.
    unfoldable pub with_names : DetectParams → Statics → Statics
    with_names params st =
        if is_unnamed st.temp_name || is_unnamed st.name
        then record st {
          temp_name = snprintf 257 (params.detection_image_file_name ++ (b'~' ∷ []));
          name = snprintf 257 params.detection_image_file_name;
        }
        else st

    abbrev pub renamed_over : Statics → Option File → Files → Files
    renamed_over st none files = files
    renamed_over st (some f) files =
        file_steps (replace_steps st.temp_name st.name (contents f)) files

    -- The file, which is written where fopen gives one; what the writer returns is ignored.
    unfoldable pub write_file : ℕ → ℕ → Bytes → Option File → Statics → Files → Option Files
    write_file width height image none st files = some files
    write_file width height image (some fp) st files =
        bm_write_bitmap_with_color_table stdio malloc (some fp) width height
          color_detect_color_table 1024 (some image) (width * height)
        >>= λ (_, f). some (renamed_over st f files)

    -- The boxes, and the file.
    unfoldable pub draw_and_write :
        DetectParams
        → ℕ
        → ℕ
        → Option File
        → Bytes
        → Statics
        → Files
        → Option (Bytes × Statics × Files)
    draw_and_write params width height opened image st files =
        draw_blobs image width height st.detections false params.color_count >>= λ drawn.
        write_file width height drawn opened (with_names params st) files >>= λ after.
        some (drawn, with_names params st, after)

    -- What b_write_image asks for.
    unfoldable pub write_debug_image :
        DetectParams
        → ℕ
        → ℕ
        → Option File
        → Bytes
        → Statics
        → Files
        → Option (Bytes × Statics × Files)
    write_debug_image params width height opened image st files =
        if params.write_image
        then draw_and_write params width height opened image st files
        else some (image, st, files)

    -- The static image, which the first call allocates.
    unfoldable pub image_memory : Statics → ℕ → Option Bytes
    image_memory st size = elim st.detect_image [ none ↦ malloc size | some image ↦ some image ]

    -- `rgb_color_detection`; `opened` is what fopen returns. The outer `none` is an access out of bounds.
    unfoldable pub rgb_color_detection :
        DetectParams
        → Bytes
        → ℕ
        → ℕ
        → Option File
        → Statics
        → Files
        → Option (Option Bytes × Statics × Files)
    rgb_color_detection params pix width height opened st files =
        image_memory st (width * height) >>= λ memory.
        index_rows params width height pix memory >>= λ image.
        detect_blobs st.detections (some image) width height params.color_count
          params.min_detect_conf
        >>= λ (_, d).
            write_debug_image params width height opened image (record st { detections = d }) files
            >>= λ (drawn, named, after). get_blob_data_string d >>= λ text.
                some (text, record named { detect_image = some drawn }, after)
