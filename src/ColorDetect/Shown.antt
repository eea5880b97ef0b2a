-- ===== src/ColorDetect/Shown.antt =====
-- src/color_detect.c: proofs about the debug picture of `rgb_color_detection`.
use hawkeye.Base.{
  ℕ, ◌+◌, ◌-◌, ◌*◌, ◌^◌, ◌≤◌, ◌<◌, ◌≡◌, refl, sym, ap, ◌∙◌, ◌⊎◌, inl, inr, Bool, true, false,
  Option, none, some, [], ◌∷◌, ◌++◌, arith, Bytes, All, length, length-append, take, take_all,
  Bool-cases, Option-cases, if-intro, ◌||◌, if◌then◌else◌, subst,
}
use hawkeye.Base.Image.{Drawn}
use hawkeye.Base.Print.{snprintf}
use hawkeye.Files.{Files}
use hawkeye.Bitmap.{Stdio, row_padding, bm_write_bitmap_with_color_table}
use hawkeye.Bitmap.Format.{encode_table, gray_table}
use hawkeye.Bitmap.Reading.{Saved, bitmap_file, bm_write_bitmap_with_color_table-Saved}
use hawkeye.ColorDetect.Blob.{Detections}
use hawkeye.ColorDetect.Draw.{draw_blobs}
use hawkeye.ColorDetect.Drawing.{draw_blobs-Drawn}
use hawkeye.ColorDetect.Table.{InBox}
use hawkeye.ColorDetect.Color.{Floats, color_detect_color_table}
use hawkeye.ColorDetect.Index.{
  Statics, is_unnamed, DetectParams, with_names, renamed_over, write_file, draw_and_write,
  write_debug_image,
}

table_size : length (encode_table color_detect_color_table) ≡ 1024
unfolding encode_table color_detect_color_table gray_table
table_size = refl

module _ (floats : Floats) (stdio : Stdio) (malloc : ℕ → Option Bytes)
    (params : DetectParams floats) (width height : ℕ) (wide : 0 < width) (high : 0 < height)
    (opened : Option stdio.File) (files : Files) where
  open stdio use {File}

  -- The file is replaced by a bitmap of the image, as far as it could be written.
  abbrev pub Wrote : Bytes → Option File → Statics → Files → Type 0
  Wrote image none st after = after ≡ files
  Wrote image (some fp) st after =
      (r : Bool × File) × Saved stdio
        (bitmap_file width height (encode_table color_detect_color_table) image) fp r
      × (after ≡ renamed_over floats stdio malloc st (some r.1) files)

  -- The names of the files: those of the call that set them, which are the name in the parameters, with a ~ for the
  -- temporary file.
  abbrev pub Named : Statics → Statics → Type 0
  Named st named =
      ((is_unnamed st.temp_name || is_unnamed st.name ≡ true)
        × (named.temp_name ≡ params.detection_image_file_name ++ (b'~' ∷ []))
        × (named.name ≡ params.detection_image_file_name))
      ⊎ ((is_unnamed st.temp_name || is_unnamed st.name ≡ false)
          × (named.temp_name ≡ st.temp_name)
          × (named.name ≡ st.name))

  -- The debug picture: the image with the boxes of all complete blobs of the table.
  abbrev pub Shown : Statics → Detections → Bytes → Bytes → Statics → Files → Type 0
  Shown st d image drawn named after =
      ((params.write_image ≡ false) × (drawn ≡ image) × (after ≡ files))
      ⊎ ((params.write_image ≡ true)
          × (draw_blobs image width height d false params.color_count ≡ some drawn)
          × Named st named
          × Wrote drawn opened named after)

  module _ (room : 54 + 1024 + height * (width + row_padding width) < 2 ^ 32) (pix : Bytes)
      (got : malloc (height * (width + row_padding width)) ≡ some pix)
      (fits : length pix ≡ height * (width + row_padding width)) where
    write_file-Wrote :
        (image : Bytes) (o : Option File) (st : Statics)
        → length image ≡ height * width
        → (after : Files) × (write_file floats stdio malloc width height image o st files
            ≡ some after)
          × Wrote image o st after
    unfolding write_file
    write_file-Wrote image none st size = (files, refl, refl)
    write_file-Wrote image (some fp) st size =
        let (r, run, saved, _) =
          bm_write_bitmap_with_color_table-Saved stdio malloc fp width height
            color_detect_color_table image pix wide high (omega (arith, room, table_size)) size got
            fits in
        let same : width * height ≡ length image = size_is size in
        let again : bm_write_bitmap_with_color_table stdio malloc (some fp) width height
              color_detect_color_table 1024 (some image) (width * height)
            ≡ some (r.0, some r.1) =
          (λ i.
            bm_write_bitmap_with_color_table stdio malloc (some fp) width height
              color_detect_color_table (sym table_size i) (some image) (same i))
          ∙ run in
        (renamed_over floats stdio malloc st (some r.1) files, rw again refl, (r, saved, refl))
      where
        size_is : length image ≡ height * width → width * height ≡ length image
        size_is size = grind (arith, size)

    with_names-Named :
        (st : Statics)
        → length params.detection_image_file_name ≤ 255
        → Named st (with_names floats stdio malloc params st)
    unfolding with_names snprintf
    with_names-Named st short = by_names (is_unnamed st.temp_name || is_unnamed st.name) refl
      where
        by_names :
            (b : Bool)
            → (is_unnamed st.temp_name || is_unnamed st.name) ≡ b
            → Named st (
                if b
                then record st {
                  temp_name = take 256 (params.detection_image_file_name ++ (b'~' ∷ []));
                  name = take 256 params.detection_image_file_name;
                }
                else st)
        by_names true e = inl (
          e,
          take_all 256 (params.detection_image_file_name ++ (b'~' ∷ [])) (
              omega (arith, short, length-append {0} params.detection_image_file_name (b'~' ∷ []))),
          take_all 256 params.detection_image_file_name (omega (arith, short)),
        )
        by_names false e = inr (e, refl, refl)

    with_names-detections :
        (st : Statics) → (with_names floats stdio malloc params st).detections ≡ st.detections
    unfolding with_names
    with_names-detections st =
        if-intro (λ (n : Statics). n.detections ≡ st.detections)
          (is_unnamed st.temp_name || is_unnamed st.name) (λ _. refl) (λ _. refl)

    pub write_debug_image-Shown :
        (image : Bytes) (st : Statics)
        → length image ≡ height * width
        → height * width < 2 ^ 31
        → All (InBox width (height - 1)) st.detections.blobs
        → length params.detection_image_file_name ≤ 255
        → (drawn : Bytes) × (named : Statics) × (after : Files) × (write_debug_image floats stdio
              malloc params width height opened image st files
            ≡ some (drawn, named, after))
          × (named.detections ≡ st.detections)
          × (length drawn ≡ length image)
          × Shown st st.detections image drawn named after
    unfolding write_debug_image draw_and_write
    write_debug_image-Shown image st size small boxes short = elim (Bool-cases params.write_image) [
      | inl on ↦
          let draws : Drawn image
              (draw_blobs image width height st.detections false params.color_count) =
            draw_blobs-Drawn image width height high (omega (arith, size))
              (omega (arith, size, small)) st.detections boxes false params.color_count in
          elim (Option-cases
            (draw_blobs image width height st.detections false params.color_count)) [
              | inl nothing ↦ absurd (subst (Drawn image) nothing draws)
              | inr (out, drawn) ↦
                  let kept : length out ≡ length image = subst (Drawn image) drawn draws in
                  let named = with_names floats stdio malloc params st in
                  let (after, run, wrote) = write_file-Wrote out opened named (kept ∙ size) in
                  (
                    out,
                    named,
                    after,
                    ap
                          (λ b.
                            if b
                            then draw_and_write floats stdio malloc params width height opened image
                                st files
                            else some (image, st, files))
                          on
                        ∙ rw (drawn, run) refl,
                    with_names-detections st,
                    kept,
                    inr (on, drawn, with_names-Named st short, wrote),
                  )
            ]
      | inr off ↦ (image, st, files, rw off refl, refl, refl, inl (off, refl, refl))
    ]
