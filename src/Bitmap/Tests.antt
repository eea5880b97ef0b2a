-- ===== src/Bitmap/Tests.antt =====
-- Writing a 3 by 2 image with a grey table into a file that is a list of bytes in memory.
use hawkeye.Base.{
  ℕ, ◌≡◌, refl, Bool, true, Option, some, List, [], ◌∷◌, ◌++◌, arith, length, replicate, Bytes,
  memcpy, memset,
}
use hawkeye.Bitmap.{Stdio, row_padding, bm_write_bitmap_with_color_table, copy_rows}
use hawkeye.Bitmap.Format.{ColorEntry, gray, encode_table}
use hawkeye.Bitmap.Reading.{Saved, bitmap_file, read_bitmap, bm_write_bitmap_with_color_table-Saved}

-- Writes to memory never fail.
abbrev memory : Stdio
memory = record {
  File = Bytes;
  contents = λ f. f;
  fwrite = λ bytes f. (true, f ++ bytes);
  fwrite_appends = λ bytes f e. refl;
}

abbrev malloc : ℕ → Option Bytes
malloc n = some (replicate n 7)

abbrev image : Bytes
image = 10 ∷ 11 ∷ 12 ∷ 20 ∷ 21 ∷ 22 ∷ []

abbrev table : List ColorEntry
table = gray 0 ∷ gray 1 ∷ []

rows_of_image :
    copy_rows 2 0 0 4 3 3 1 image (replicate 8 7) ≡ some (10 ∷ 11 ∷ 12 ∷ 0 ∷ 20 ∷ 21 ∷ 22 ∷ 0 ∷ [])
unfolding copy_rows memcpy memset
rows_of_image = refl

bm_write_bitmap_with_color_table-Saved_example :
    (r : Bool × Bytes) × (bm_write_bitmap_with_color_table memory malloc
        (some [])
        3
        2
        table
        8
        (some image)
        6
      ≡ some (r.0, some r.1))
    × Saved memory (bitmap_file 3 2 (encode_table table) image) [] r
    × (read_bitmap (bitmap_file 3 2 (encode_table table) image) ≡ record {
      width = 3;
      height = 2;
      declared_size = length (bitmap_file 3 2 (encode_table table) image);
      pixels = image;
    })
unfolding encode_table row_padding
bm_write_bitmap_with_color_table-Saved_example =
    bm_write_bitmap_with_color_table-Saved memory malloc [] 3 2 table image (replicate 8 7)
      (omega arith) (omega arith) (omega arith) (omega arith) refl refl
