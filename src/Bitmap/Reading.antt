-- ===== src/Bitmap/Reading.antt =====
-- A reader of bitmap files, independent of the writer, and what it finds in the file that
-- `bmWriteBitmapWithColorTable` writes.
use hawkeye.Base.{
  ℕ, zero, suc, ◌+◌, ◌-◌, ◌*◌, ◌/◌, ◌%◌, ◌^◌, ◌≤◌, ◌<◌, ◌≡◌, refl, sym, ap, ◌∙◌, Bool, true, false,
  Option, some, List, [], ◌∷◌, ◌++◌, append-nil, append_assoc, arith, length, get_or, take, drop,
  replicate, length-append, length-take, length-drop, length-replicate, take-append, drop-append,
  drop-drop, take_all, take-append-drop, Bytes, u32, ◌==◌, Bool-cases, ltb, inl, inr,
}
use hawkeye.Bitmap.{Stdio, row_padding, write_all, write_pixels, bm_write_bitmap_with_color_table}
use hawkeye.Bitmap.Format.{
  FileHeader, InfoHeader, file_header_template, info_header_template, encode_file_header,
  encode_info_header, ColorEntry, encode_table,
}
use hawkeye.Bitmap.Rows.{padded_rows, length-padded_rows, copy_rows_fresh}

-- The uint32_t at an offset.
abbrev word_at : Bytes → ℕ → ℕ
word_at bytes i =
    get_or bytes i 0
    + 256 * get_or bytes (i + 1) 0
    + 65536 * get_or bytes (i + 2) 0
    + 16777216 * get_or bytes (i + 3) 0

-- The rows of a pixel array whose rows fill multiples of 4.
unpad_rows : ℕ → ℕ → ℕ → Bytes → Bytes
unpad_rows zero width padding bytes = []
unpad_rows (suc n) width padding bytes =
    take width bytes ++ unpad_rows n width padding (drop (width + padding) bytes)

pub record Picture : Type 0 where
  pub width : ℕ
  pub height : ℕ
  pub declared_size : ℕ
  pub pixels : Bytes

-- Reads an 8-bit bitmap, whose rows fill up to a multiple of four bytes, stored from the top row on, which a negative height says.
pub read_bitmap : Bytes → Picture
unfolding unpad_rows
read_bitmap file =
    let width = word_at file 18 in
    let height = (2 ^ 32 - word_at file 22) % 2 ^ 32 in
    record {
      width = width;
      height = height;
      declared_size = word_at file 2;
      pixels = unpad_rows height width ((4 - width % 4) % 4) (drop (word_at file 10) file);
    }

row_padding-eq : (n : ℕ) → row_padding n ≡ (4 - n % 4) % 4
unfolding row_padding
row_padding-eq n = ground arith

unpad_rows-padded_rows :
    (n width padding : ℕ) (input : Bytes)
    → length input ≡ n * width
    → unpad_rows n width padding (padded_rows n width padding input) ≡ input
unfolding unpad_rows
unpad_rows-padded_rows zero width padding [] e = refl
unpad_rows-padded_rows zero width padding (x ∷ xs) e = absurd (omega arith)
unpad_rows-padded_rows (suc n) width padding input e =
    let row = take width input in
    let fill : Bytes = replicate padding 0 in
    let rest = padded_rows n width padding (drop width input) in
    let short : width ≤ length input = grind arith in
    let row_len : length row ≡ width = omega (arith, length-take width input, short) in
    let fill_len : length fill ≡ padding = length-replicate padding 0 in
    let skip : drop (width + padding) (row ++ (fill ++ rest)) ≡ rest =
      ap (drop (width + padding)) (sym (append_assoc row fill rest))
      ∙ drop-append (row ++ fill) rest (width + padding)
          (omega (arith, length-append {0} row fill, row_len, fill_len)) in
    rw
      (
        take-append row (fill ++ rest) width (sym row_len),
        skip,
        unpad_rows-padded_rows n width padding (drop width input)
            (grind (arith, length-drop width input)),
      )
      (take-append-drop width input)

-- The pieces of the file that the writer makes of an image and the bytes of a colour table.
abbrev pieces : ℕ → ℕ → Bytes → Bytes → List Bytes
pieces width height table input =
    let padding = row_padding width in
    let hdr : FileHeader = record file_header_template {
      off_bytes = u32 (54 + length table);
      size = u32 (54 + length table + u32 (height * u32 (width + padding)));
    } in
    let info : InfoHeader = record info_header_template {
      bit_count = 8;
      width = width;
      height = (2 ^ 32 - height) % 2 ^ 32;
      clr_used = 256;
      clr_important = 256;
    } in
    encode_file_header hdr
    ∷ encode_info_header info
    ∷ table
    ∷ padded_rows height width padding input
    ∷ []

abbrev joined : List Bytes → Bytes
joined [] = []
joined (b ∷ bs) = b ++ joined bs

abbrev pub bitmap_file : ℕ → ℕ → Bytes → Bytes → Bytes
bitmap_file width height table input = joined (pieces width height table input)

le32_word :
    (n : ℕ)
    → n < 2 ^ 32
    → n % 256 + 256 * (n / 256 % 256) + 65536 * (n / 65536 % 256) + 16777216 * (n / 16777216 % 256)
      ≡ n
le32_word n h = omega arith

module _ (width height : ℕ) (table input : Bytes) (pos : 0 < width) (pos' : 0 < height)
    (fits : 54 + length table + height * (width + row_padding width) < 2 ^ 32)
    (size : length input ≡ height * width) where
  stride-eq : u32 (width + row_padding width) ≡ width + row_padding width
  stride-eq = grind arith

  small : (width < 2 ^ 32) × (height < 2 ^ 32)
  small = grind arith

  declared-eq :
      u32 (54 + length table + u32 (height * u32 (width + row_padding width)))
      ≡ 54 + length table + height * (width + row_padding width)
  declared-eq = rw stride-eq (omega arith)

  abbrev file : Bytes
  file = bitmap_file width height table input

  word_width : word_at file 18 ≡ width
  unfolding encode_file_header encode_info_header
  word_width = omega (arith, small)

  word_height : (2 ^ 32 - word_at file 22) % 2 ^ 32 ≡ height
  unfolding encode_file_header encode_info_header
  word_height = omega (arith, small)

  word_offset : word_at file 10 ≡ 54 + length table
  unfolding encode_file_header encode_info_header
  word_offset = omega arith

  word_size : word_at file 2 ≡ 54 + length table + height * (width + row_padding width)
  unfolding encode_file_header encode_info_header
  word_size = rw declared-eq (le32_word _ fits)

  file_pixels : drop (54 + length table) file ≡ padded_rows height width (row_padding width) input
  unfolding encode_file_header encode_info_header
  file_pixels =
      sym (drop-drop (length table) 54 (54 + length table) file (omega arith))
      ∙ drop-append table (padded_rows height width (row_padding width) input ++ []) (length table)
          refl
      ∙ append-nil (padded_rows height width (row_padding width) input)

  length-file : length file ≡ 54 + length table + height * (width + row_padding width)
  unfolding encode_file_header encode_info_header
  length-file = omega (
    arith,
    length-append {0} table (padded_rows height width (row_padding width) input ++ []),
    length-append {0} (padded_rows height width (row_padding width) input) [],
    length-padded_rows height width (row_padding width) input (omega arith),
  )

  pub read_bitmap-bitmap_file :
      read_bitmap file
      ≡ record { width = width; height = height; declared_size = length file; pixels = input }
  unfolding read_bitmap
  read_bitmap-bitmap_file = rw (
    word_width,
    word_height,
    word_offset,
    file_pixels,
    word_size ∙ sym length-file,
    ap
          (λ padding.
            unpad_rows height width padding (padded_rows height width (row_padding width) input))
          (sym (row_padding-eq width))
        ∙ unpad_rows-padded_rows height width (row_padding width) input size,
  )

module _ (stdio : Stdio) where
  open stdio use {File, contents, fwrite, fwrite_appends}

  -- The file grew by `bytes` if the writer says so.
  abbrev pub Saved : Bytes → File → Bool × File → Type 0
  Saved bytes f (true, f') = contents f' ≡ contents f ++ bytes
  Saved bytes f (false, f') = Unit {0}

  Saved-after :
      (b bytes : Bytes) (f f1 : File) (r : Bool × File)
      → contents f1 ≡ contents f ++ b
      → Saved bytes f1 r
      → Saved (b ++ bytes) f r
  Saved-after b bytes f f1 (true, f') e h =
      h ∙ ap (λ t. t ++ bytes) e ∙ append_assoc (contents f) b bytes
  Saved-after b bytes f f1 (false, f') e h = tt

  write_all-Saved : (bs : List Bytes) (f : File) → Saved (joined bs) f (write_all stdio bs f)
  unfolding write_all
  write_all-Saved [] f = sym (append-nil (contents f))
  write_all-Saved (b ∷ bs) f = elim (Bool-cases (fwrite b f).0) [
    | inr failed ↦ rw failed tt
    | inl done ↦ rw done (
        Saved-after b (joined bs) f (fwrite b f).1 (write_all stdio bs (fwrite b f).1)
          (fwrite_appends b f done) (write_all-Saved bs (fwrite b f).1))
  ]

  write_pixels-pieces :
      (malloc : ℕ → Option Bytes) (fp : File) (width height : ℕ) (table input pix : Bytes)
      → 0 < width
      → 0 < height
      → 54 + length table + height * (width + row_padding width) < 2 ^ 32
      → length input ≡ height * width
      → malloc (height * (width + row_padding width)) ≡ some pix
      → length pix ≡ height * (width + row_padding width)
      → write_pixels stdio malloc fp width height 1 (some table) true input
        ≡ some (write_all stdio (pieces width height table input) fp)
  unfolding write_pixels
  write_pixels-pieces malloc fp width height table input pix pos pos' fits size got room =
      let padding = row_padding width in
      let narrow = small width height table input pos pos' fits size in
      let line : u32 (width * 1) ≡ width = omega (arith, narrow) in
      let stride = stride-eq width height table input pos pos' fits size in
      let total : u32 (height * (width + padding)) ≡ height * (width + padding) = omega arith in
      let loop = copy_rows_fresh height width padding input pix room (omega arith) (grind arith) in
      rw (line, stride, total, got, loop)

  -- The writer, given memory of the size that it asks for, an image of `width` times `height` bytes
  -- and a table that is written whole, in a file below 4 GiB, stays inside its buffers. If it
  -- returns true, the file has grown by one bitmap file, in which a reader finds the width, the
  -- height, the length of that file, and all pixels of the image in their order.
  pub bm_write_bitmap_with_color_table-Saved :
      (malloc : ℕ → Option Bytes) (fp : File) (width height : ℕ) (table : List ColorEntry)
      (input pix : Bytes)
      → 0 < width
      → 0 < height
      → 54 + length (encode_table table) + height * (width + row_padding width) < 2 ^ 32
      → length input ≡ height * width
      → malloc (height * (width + row_padding width)) ≡ some pix
      → length pix ≡ height * (width + row_padding width)
      → let bytes = encode_table table in
        let file = bitmap_file width height bytes input in
        (r : Bool × File) × (bm_write_bitmap_with_color_table stdio malloc
            (some fp)
            width
            height
            table
            (length bytes)
            (some input)
            (length input)
          ≡ some (r.0, some r.1))
        × Saved file fp r
        × (read_bitmap file ≡ record {
          width = width;
          height = height;
          declared_size = length file;
          pixels = input;
        })
  unfolding bm_write_bitmap_with_color_table write_pixels
  bm_write_bitmap_with_color_table-Saved malloc fp width height table input pix pos pos' fits size
        got room =
      let bytes = encode_table table in
      let nonzero : (length input == 0) ≡ false = grind arith in
      let sizes : (u32 (width * height) == length input) ≡ true = grind arith in
      let whole : ltb (length bytes) (length bytes) ≡ false = ground arith in
      let run =
        write_pixels-pieces malloc fp width height bytes input pix pos pos' fits size got room in
      (
        write_all stdio (pieces width height bytes input) fp,
        rw (nonzero, sizes, whole, take_all (length bytes) bytes (omega arith), run),
        write_all-Saved (pieces width height bytes input) fp,
        read_bitmap-bitmap_file width height bytes input pos pos' fits size,
      )
