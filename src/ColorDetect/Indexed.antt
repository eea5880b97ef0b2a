-- ===== src/ColorDetect/Indexed.antt =====
-- src/color_detect.c: proofs about the image of colour indices.
use hawkeye.Base.{
  ℕ, zero, suc, ◌*◌, ◌≤◌, ◌≡◌, refl, sym, ap, ◌∙◌, inl, inr, some, List, [], ◌∷◌, ◌++◌,
  append_assoc, arith, Bytes, All, length, length-append, length-drop, take, drop, get_or,
  Bool-cases, if◌then◌else◌, map,
}
use hawkeye.ColorDetect.Color.{
  Floats, Pixel, DetectColor, max_detect_colors, detect_color_table, no_detect_color, rgb_match,
  find_color,
}
use hawkeye.ColorDetect.Index.{DetectParams, color_of, index_row, index_rows}

module _ (floats : Floats) where
  open floats use {Float}

  -- The entries of all colours that a pixel matches.
  abbrev pub matching : List (DetectColor floats) → Bytes → Pixel → Float → Bytes
  matching (c ∷ colors) (t ∷ table) p tolerance =
      let rest = matching colors table p tolerance in
      if rgb_match floats c p tolerance then t ∷ rest else rest
  matching _ _ p tolerance = []

  find_color-matching :
      (n : ℕ) (colors : List (DetectColor floats)) (table : Bytes) (p : Pixel) (tolerance : Float)
      → n ≤ length colors
      → n ≤ length table
      → find_color floats n colors table p tolerance
        ≡ some (get_or (matching (take n colors) table p tolerance) 0 no_detect_color)
  unfolding find_color
  find_color-matching zero colors table p tolerance h k = refl
  find_color-matching (suc n) [] table p tolerance h k = absurd (omega (arith, h))
  find_color-matching (suc n) (c ∷ colors) [] p tolerance h k = absurd (omega (arith, k))
  find_color-matching (suc n) (c ∷ colors) (t ∷ table) p tolerance h k =
      let rest =
        find_color-matching n colors table p tolerance (omega (arith, h)) (omega (arith, k)) in
      elim (Bool-cases (rgb_match floats c p tolerance)) [
        | inl hit ↦ rw (hit, find_color) refl
        | inr miss ↦ rw (miss, find_color) rest
      ]

  module _ (params : DetectParams floats) where
    -- The entry of the first colour that a pixel matches, or that for no colour.
    abbrev pub pixel_color : Pixel → ℕ
    pixel_color p =
        get_or
          (matching (take params.color_count params.detect_colors) detect_color_table p
            params.tolerance)
          0 no_detect_color

    abbrev pub bytes_of : List Pixel → Bytes
    bytes_of [] = []
    bytes_of (p ∷ ps) = p.red ∷ p.green ∷ p.blue ∷ bytes_of ps

    abbrev pub rows_of : List (List Pixel) → Bytes
    rows_of [] = []
    rows_of (row ∷ rows) = bytes_of row ++ rows_of rows

    abbrev pub indices : List (List Pixel) → Bytes
    indices [] = []
    indices (row ∷ rows) = map pixel_color row ++ indices rows

    module _ (few : params.color_count ≤ max_detect_colors)
        (given : params.color_count ≤ length params.detect_colors) where
      color_of-pixel_color : (p : Pixel) → color_of floats params p ≡ some (pixel_color p)
      unfolding color_of
      color_of-pixel_color p =
          find_color-matching params.color_count params.detect_colors detect_color_table p
            params.tolerance given (omega (arith, few))

      index_row-bytes_of :
          (ps : List Pixel) (rest image : Bytes)
          → length ps ≤ length image
          → index_row floats params (length ps) (bytes_of ps ++ rest) image
            ≡ some (map pixel_color ps, rest, drop (length ps) image)
      unfolding index_row
      index_row-bytes_of [] rest image h = refl
      index_row-bytes_of (p ∷ ps) rest [] h = absurd (omega (arith, h))
      index_row-bytes_of (p ∷ ps) rest (x ∷ image) h =
          rw (color_of-pixel_color p, index_row-bytes_of ps rest image (omega (arith, h)))

      pub index_rows-indices :
          (width : ℕ) (rows : List (List Pixel)) (rest image : Bytes)
          → All (λ row. length row ≡ width) rows
          → length rows * width ≡ length image
          → index_rows floats params width (length rows) (rows_of rows ++ rest) image
            ≡ some (indices rows)
      unfolding index_rows
      index_rows-indices width [] rest [] wide size = refl
      index_rows-indices width [] rest (x ∷ image) wide size = absurd (omega (arith, size))
      index_rows-indices width (row ∷ rows) rest image wide size =
          let row_fits : length row ≤ length image = omega (arith, size, wide.0) in
          let others : length rows * width ≡ length (drop (length row) image) =
            omega (arith, size, wide.0, length-drop (length row) image) in
          let line : index_row floats params width ((bytes_of row ++ rows_of rows) ++ rest) image
              ≡ some (map pixel_color row, rows_of rows ++ rest, drop (length row) image) =
            (λ i.
              index_row floats params (sym wide.0 i)
                (append_assoc (bytes_of row) (rows_of rows) rest i) image)
            ∙ index_row-bytes_of row (rows_of rows ++ rest) image row_fits in
          rw (line, index_rows-indices width rows rest (drop (length row) image) wide.1 others) refl

      pub length-indices :
          (width : ℕ) (rows : List (List Pixel))
          → All (λ row. length row ≡ width) rows
          → length (indices rows) ≡ length rows * width
      length-indices width [] wide = omega arith
      length-indices width (row ∷ rows) wide = omega (
        arith,
        length-append {0} (map pixel_color row) (indices rows),
        length-map row,
        wide.0,
        length-indices width rows wide.1,
      )
        where
          length-map : (ps : List Pixel) → length (map pixel_color ps) ≡ length ps
          length-map [] = refl
          length-map (p ∷ ps) = ap suc (length-map ps)
