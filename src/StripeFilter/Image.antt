-- ===== src/StripeFilter/Image.antt =====
-- src/stripe_filter.c: the colour table and the file of `sf_write_image`.
use hawkeye.Base.{ℕ, Option, none, some, List, [], ◌∷◌, Bytes, ◌>>=◌, length, set}
use hawkeye.Base.Text.{codes}
use hawkeye.Files.{Files, file_steps, replace_steps}
use hawkeye.Bitmap.{Stdio, bm_write_bitmap_with_color_table}
use hawkeye.Bitmap.Format.{ColorEntry, gray_table}
use hawkeye.StripeFilter.Gradients.{GradientInfo}
use hawkeye.StripeFilter.Clusters.{ClusterInfo}
use hawkeye.StripeFilter.Features.{FeatureInfo}
use hawkeye.StripeFilter.Annotate.{annotate}

abbrev entry : ℕ → ℕ → ℕ → ColorEntry
entry blue green red = record { blue = blue; green = green; red = red; reserved = 0 }

-- stripeFilterColorTable: grays, and the five colours of the annotations. The table is built again in each
-- call, since its second entry has no blue.
unfoldable pub stripe_filter_color_table : List ColorEntry
stripe_filter_color_table =
    set
      (set (set (set (set gray_table 0 (entry 0 240 0)) 1 (entry 0 0 240)) 2 (entry 240 80 120)) 3
        (entry 240 240 60))
      4 (entry 0 0 0)

abbrev pub sf_gray_temp_file_name : Bytes
sf_gray_temp_file_name = codes "./sf_temp_file.bmp"

module _ (stdio : Stdio) (malloc : ℕ → Option Bytes) where
  open stdio use {File, contents}

  -- The file behind the annotations; `opened` is what fopen returns, a new file or NULL. What
  -- the writer returns is ignored.
  unfoldable pub write_bitmap_file : Bytes → ℕ → ℕ → Option File → Bytes → Files → Option Files
  write_bitmap_file filename width height none pix fs = some fs
  write_bitmap_file filename width height (some fp) pix fs =
      bm_write_bitmap_with_color_table stdio malloc (some fp) width height stripe_filter_color_table
        1024 (some pix) (length pix)
      >>= λ (_, f). some (replaced f)
    where
      replaced : Option File → Files
      replaced none = fs
      replaced (some f) = file_steps (replace_steps sf_gray_temp_file_name filename (contents f)) fs

  -- `sf_write_image`, whose pointers are not null.
  unfoldable pub sf_write_image :
      Bytes
      → ℕ
      → ℕ
      → Bytes
      → List GradientInfo
      → List ClusterInfo
      → List FeatureInfo
      → Option File
      → Files
      → Option Files
  sf_write_image filename width height [] gs cs fs opened files = some files
  sf_write_image filename width height (p ∷ ps) gs cs fs opened files =
      annotate width height gs cs fs (p ∷ ps) >>= λ pix.
      write_bitmap_file filename width height opened pix files
