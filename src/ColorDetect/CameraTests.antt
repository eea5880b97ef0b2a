-- ===== src/ColorDetect/CameraTests.antt =====
-- A picture of two by one pixels, of which one has the colour that is looked for, with fixed-point numbers.
use hawkeye.Base.{
  ℕ, ◌+◌, ◌-◌, ◌*◌, ◌/◌, ◌≡◌, refl, true, false, Option, none, some, List, [], ◌∷◌, ◌++◌, arith,
  Bytes, replicate, ltb, leb, drop,
}
use hawkeye.Base.Text.{codes}
use hawkeye.Base.Print.{snprintf}
use hawkeye.Files.{Files}
use hawkeye.Bitmap.{Stdio, row_padding}
use hawkeye.ColorDetect.Blob.{Blob, zero_blob, clear_blobs}
use hawkeye.ColorDetect.Line.{line_of, write_single_blob_data_to_image}
use hawkeye.ColorDetect.Written.{padded, write_single_blob_data_to_image-line}
use hawkeye.ColorDetect.Color.{Floats, Pixel, DetectColor, calc_norms, not_zero, rgb_match, between}
use hawkeye.ColorDetect.Index.{
  Statics, DetectParams, build_detect_params, image_memory, rgb_color_detection,
}
use hawkeye.ColorDetect.Indexed.{rows_of, indices}
use hawkeye.ColorDetect.Composed.{Completed, rgb_color_detection-Completed}

-- Numbers in thousandths, with the sum of the squares for its root.
abbrev fixed : Floats
fixed = record {
  Float = ℕ;
  of_int = λ n. n * 1000;
  thousandth = 1;
  plus = λ a b. a + b;
  minus = λ a b. a - b;
  times = λ a b. a * b / 1000;
  divide = λ a b. a * 1000000 / b;
  sqrt = λ a. a;
  less = ltb;
  less_equal = leb;
}

abbrev memory : Stdio
memory = record {
  File = Bytes;
  contents = λ f. f;
  fwrite = λ bytes f. (true, f ++ bytes);
  fwrite_appends = λ bytes f e. refl;
}

abbrev malloc : ℕ → Option Bytes
malloc n = some (replicate n 7)

abbrev purple : DetectColor fixed
purple = calc_norms fixed 200000 50000 200000

abbrev params : DetectParams fixed
params =
    build_detect_params fixed (purple ∷ []) 1 100 1 true false (codes "/tmp") (codes "found.bmp")

abbrev rows : List (List Pixel)
rows =
    (record { red = 200; green = 50; blue = 200 }
      ∷ record { red = 10; green = 250; blue = 10 }
      ∷ [])
    ∷ []

abbrev before : Statics
before = record { detections = clear_blobs; detect_image = none; temp_name = []; name = [] }

abbrev no_files : Files
no_files path = none

indices_of_rows : indices fixed params rows ≡ 0 ∷ 2 ∷ []
unfolding build_detect_params rgb_match calc_norms not_zero between
indices_of_rows = refl

rgb_color_detection-Completed_example :
    Completed fixed memory malloc params 2 rows
      (omega arith)
      (omega arith)
      (some [])
      no_files
      (indices fixed params rows)
      before
      (rgb_color_detection fixed memory malloc params
        (rows_of fixed params rows ++ (9 ∷ []))
        2
        1
        (some [])
        before
        no_files)
unfolding build_detect_params image_memory row_padding snprintf
rgb_color_detection-Completed_example =
    rgb_color_detection-Completed fixed memory malloc params 2 rows (omega arith) (omega arith)
      (some []) no_files (9 ∷ []) (replicate 2 7) (replicate 4 7) before (refl, tt) (omega arith)
      (omega arith) (omega arith) refl (omega arith) (omega arith) refl (omega arith) (omega arith)

-- A blob of five pixels, written over the first row of an image of 60 by 2.
abbrev spot : Blob
spot = record zero_blob {
  valid = true;
  bb_x_min = 3;
  bb_x_max = 7;
  bb_y_min = 1;
  bb_y_max = 1;
  num_pixels = 5;
  complete = true;
}

write_single_blob_data_to_image-line_example :
    write_single_blob_data_to_image true spot (replicate 120 9) (60 * 2) 60 2
    ≡ some (padded 60 (line_of spot) ++ drop 60 (replicate 120 9))
write_single_blob_data_to_image-line_example =
    write_single_blob_data_to_image-line spot (replicate 120 9) 60 2 refl refl (omega arith)
      (omega arith) (omega arith) refl
