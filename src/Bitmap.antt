-- ===== src/Bitmap.antt =====
-- src/bitmap.c: writing an 8-bit or packed image as a bottom-up-free (negative height) bitmap file.
pub mod Format
pub mod Rows
pub mod Reading
mod Tests
use hawkeye.Base.{
  ℕ, zero, suc, ◌+◌, ◌-◌, ◌*◌, ◌%◌, ◌^◌, ◌≡◌, Bool, true, false, not, Option, none, some, List, [],
  ◌∷◌, ◌++◌, length, take, replicate, ltb, ◌==◌, if◌then◌else◌, Bytes, ◌>>=◌, memcpy, memset, u32,
  u64,
}
use hawkeye.Bitmap.Format.{
  FileHeader, InfoHeader, file_header_template, info_header_template, encode_file_header,
  encode_info_header, ColorEntry, encode_table, gray_table,
}

-- What the code uses of stdio: fwrite of one item, which returns 1 or 0, and by its documentation
-- 1 only if the whole item has been written at the end of what the file held.
pub record Stdio : Type 1 where
  pub File : Type 0
  pub contents : File → Bytes
  pub fwrite : Bytes → File → Bool × File
  pub fwrite_appends :
      (bytes : Bytes) (f : File)
      → (fwrite bytes f).0 ≡ true
      → contents (fwrite bytes f).1 ≡ contents f ++ bytes

-- Bytes needed to fill a row up to a multiple of 4.
unfoldable pub row_padding : ℕ → ℕ
row_padding stride = if stride % 4 == 0 then 0 else 4 - stride % 4

-- The loop that fills the pixel buffer, with `n` rows left. `input_width` bytes are copied in each
-- row; the padding is cleared from `width` on. `h * input_width` is a uint32_t.
unfoldable pub copy_rows : ℕ → ℕ → ℕ → ℕ → ℕ → ℕ → ℕ → Bytes → Bytes → Option Bytes
copy_rows zero h offset stride width input_width padding input pix = some pix
copy_rows (suc n) h offset stride width input_width padding input pix =
    memcpy pix offset input (u32 (h * input_width)) input_width >>= λ p.
    (if padding == 0 then some p else memset p (offset + width) 0 padding) >>= λ q.
    copy_rows n (h + 1) (offset + stride) stride width input_width padding input q

module _ (stdio : Stdio) where
  open stdio use {File, fwrite}

  -- The calls of fwrite in their order, up to the first that fails.
  unfoldable pub write_all : List Bytes → File → Bool × File
  write_all [] f = (true, f)
  write_all (bytes ∷ rest) f =
      let (done, f') = fwrite bytes f in
      let others = write_all rest f' in if done then others else (false, f')

  -- The writers return false if they get no memory.
  abbrev pub with_memory :
      Option Bytes → File → (Bytes → Option (Bool × File)) → Option (Bool × File)
  with_memory none fp k = some (false, fp)
  with_memory (some pix) fp k = k pix

  -- What `bmWriteBitmap` and `bmWriteBitmapWithColorTable` have in common behind their checks. The
  -- inner `none` of `malloc` is a null pointer; the outer result is `none` on an access out of
  -- bounds. `color_table` is the bytes of the table that is written, if one is.
  unfoldable pub write_pixels :
      (ℕ → Option Bytes) → File → ℕ → ℕ → ℕ → Option Bytes → Bool → Bytes → Option (Bool × File)
  write_pixels malloc fp width height pixel_bytes color_table has_colors buf =
      let input_width = u32 (width * pixel_bytes) in
      let padding = row_padding input_width in
      let stride = u32 (input_width + padding) in
      let output_bytes = u32 (height * stride) in
      let tables : List Bytes = elim color_table [ none ↦ [] | some bytes ↦ bytes ∷ [] ] in
      let table_size : ℕ = elim color_table [ none ↦ 0 | some bytes ↦ length bytes ] in
      let hdr = record file_header_template {
        off_bytes = u32 (54 + table_size);
        size = u32 (54 + table_size + output_bytes);
      } in
      let info = record info_header_template {
        bit_count = pixel_bytes * 8 % 2 ^ 16;
        width = width;
        height = (2 ^ 32 - height) % 2 ^ 32;
        clr_used = if has_colors then 256 else 0;
        clr_important = if has_colors then 256 else 0;
      } in
      with_memory (malloc output_bytes) fp (λ pix.
        copy_rows height 0 0 stride width input_width padding buf pix >>= λ out.
        some (
          write_all (encode_file_header hdr ∷ encode_info_header info ∷ (tables ++ (out ∷ []))) fp))

  -- `bmWriteBitmap`; null pointers are `none`.
  unfoldable pub bm_write_bitmap :
      (ℕ → Option Bytes) → Option File → ℕ → ℕ → ℕ → Option Bytes → ℕ → Option (Bool × Option File)
  bm_write_bitmap malloc fp width height pixel_bytes none size = some (false, fp)
  bm_write_bitmap malloc none width height pixel_bytes (some buf) size = some (false, none)
  bm_write_bitmap malloc (some fp) width height pixel_bytes (some buf) size =
      if size == 0
      then some (false, some fp)
      else if not (u32 (u32 (width * height) * pixel_bytes) == size)
      then some (false, some fp)
      else (write_pixels malloc fp width height pixel_bytes
            (if pixel_bytes == 1 then some (encode_table gray_table) else none) (pixel_bytes == 1)
            buf
          >>= λ (done, f). some (done, some f))

  -- `bmWriteBitmapWithColorTable`; `table_size` bytes are read from the table.
  unfoldable pub bm_write_bitmap_with_color_table :
      (ℕ → Option Bytes)
      → Option File
      → ℕ
      → ℕ
      → List ColorEntry
      → ℕ
      → Option Bytes
      → ℕ
      → Option (Bool × Option File)
  bm_write_bitmap_with_color_table malloc fp width height table table_size none size =
      some (false, fp)
  bm_write_bitmap_with_color_table malloc none width height table table_size (some buf) size =
      some (false, none)
  bm_write_bitmap_with_color_table malloc (some fp) width height table table_size (some buf) size =
      if size == 0
      then some (false, some fp)
      else if not (u32 (width * height) == size)
      then some (false, some fp)
      else if ltb (length (encode_table table)) table_size
      then none
      else (write_pixels malloc fp width height 1 (some (take table_size (encode_table table))) true
            buf
          >>= λ (done, f). some (done, some f))
