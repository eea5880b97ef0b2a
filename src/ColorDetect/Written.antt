-- ===== src/ColorDetect/Written.antt =====
-- src/color_detect.c: proofs about `write_single_blob_data_to_image`.
use hawkeye.Base.{
  ℕ, ◌+◌, ◌-◌, ◌*◌, ◌≤◌, ◌<◌, ◌≡◌, ◌≢◌, refl, ap, ◌∙◌, true, some, [], ◌∷◌, ◌++◌, arith, Bytes,
  length, length-append, length-replicate, drop, replicate, lt→ltb, ◌==◌, memcpy-append, false,
  take, take_all, not, ◌||◌,
}
use hawkeye.Base.Print.{length-digits}
use hawkeye.ColorDetect.Blob.{Blob}
use hawkeye.ColorDetect.Line.{print_unsigned, line_of, line_buffer, write_single_blob_data_to_image}

length-print_unsigned : (v : ℕ) → length (print_unsigned v) ≤ 10
unfolding print_unsigned
length-print_unsigned v = length-digits 9 v

length-field : (v c : ℕ) (rest : Bytes) → length (print_unsigned v ++ (c ∷ rest)) ≤ length rest + 11
length-field v c rest =
    omega (arith, length-print_unsigned v, length-append {0} (print_unsigned v) (c ∷ rest))

length-line_of : (b : Blob) → length (line_of b) < 60
unfolding line_of
length-line_of b =
    let last = print_unsigned b.num_pixels ++ (10 ∷ []) in
    let bottom = print_unsigned b.bb_y_max ++ (44 ∷ last) in
    let top = print_unsigned b.bb_y_min ++ (44 ∷ bottom) in
    let right = print_unsigned b.bb_x_max ++ (44 ∷ top) in
    omega (
      arith,
      length-field b.bb_x_min 44 right,
      length-field b.bb_x_max 44 top,
      length-field b.bb_y_min 44 bottom,
      length-field b.bb_y_max 44 last,
      length-field b.num_pixels 10 [],
    )

-- The line and its padding.
abbrev pub padded : ℕ → Bytes → Bytes
padded stride text = text ++ replicate (stride - length text) 0

-- For a valid and complete blob with pixels and an image whose rows have 60 bytes or more,
-- `write_single_blob_data_to_image`, if it gets its memory, stays inside its buffer and replaces
-- the first row of the image by the text of the blob and zeros, and nothing behind it.
pub write_single_blob_data_to_image-line :
    (b : Blob) (image : Bytes) (stride height : ℕ)
    → b.valid ≡ true
    → b.complete ≡ true
    → b.num_pixels ≢ 0
    → 60 ≤ stride
    → height ≢ 0
    → length image ≡ stride * height
    → write_single_blob_data_to_image true b image (stride * height) stride height
      ≡ some (padded stride (line_of b) ++ drop stride image)
unfolding write_single_blob_data_to_image line_buffer
write_single_blob_data_to_image-line b image stride height valid complete pixels wide high size =
    let text = line_of b in
    let fits : length text < stride = omega (arith, length-line_of b, wide) in
    let room : stride ≤ length image = grind (arith, size, high) in
    let full : length (padded stride text) ≡ stride = omega (
      arith,
      fits,
      length-append {0} text (replicate (stride - length text) 0),
      length-replicate {A = ℕ} (stride - length text) 0,
    ) in
    let same : (stride * height == stride * height) ≡ true = ground arith in
    let some_columns : (stride == 0) ≡ false = ground (arith, wide) in
    let some_rows : (height == 0) ≡ false = ground (arith, high) in
    let some_pixels : (b.num_pixels == 0) ≡ false = ground (arith, pixels) in
    let drawn : (not b.valid || not b.complete || b.num_pixels == 0) ≡ false =
      ground (arith, valid, complete, some_pixels) in
    let enough : 0 + stride ≤ length (padded stride text) = omega (arith, full) in
    let whole : take stride (padded stride text) ≡ padded stride text =
      take_all stride (padded stride text) (omega (arith, full)) in
    rw (same, some_columns, some_rows, drawn, lt→ltb (length text) stride fits)
      (memcpy-append [] image 0 refl stride room (padded stride text) 0 enough
        ∙ ap (λ t. some (t ++ drop stride image)) whole)
