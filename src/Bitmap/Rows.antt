-- ===== src/Bitmap/Rows.antt =====
-- What the loop of the bitmap writers leaves in the pixel buffer when the padding starts where the
-- copied bytes end, as it does for one byte per pixel.
use hawkeye.Base.{
  ℕ, zero, suc, ◌+◌, ◌*◌, ◌^◌, ◌≤◌, ◌<◌, ◌≡◌, refl, ap, ◌∙◌, some, [], ◌++◌, append-nil,
  append_assoc, arith, length, take, drop, replicate, length-append, length-take, length-drop,
  length-replicate, drop-drop, drop_all, Bytes, ◌>>=◌, memcpy, memset, bind_assoc, memcpy-append,
  memset-append_two, u32, if◌then◌else◌, ◌==◌, Bool-cases, inl, inr,
}
use native.Mathlib.Nat.{add-zero}
use hawkeye.Bitmap.{copy_rows}

-- The rows of an image, each filled up with zeros.
abbrev pub padded_rows : ℕ → ℕ → ℕ → Bytes → Bytes
padded_rows zero width padding input = []
padded_rows (suc n) width padding input =
    take width input ++ (replicate padding 0 ++ padded_rows n width padding (drop width input))

pub length-padded_rows :
    (n width padding : ℕ) (input : Bytes)
    → n * width ≤ length input
    → length (padded_rows n width padding input) ≡ n * (width + padding)
length-padded_rows zero width padding input h = omega arith
length-padded_rows (suc n) width padding input h =
    let rest = padded_rows n width padding (drop width input) in
    let tail =
      length-padded_rows n width padding (drop width input)
        (grind (arith, length-drop width input)) in
    let short : width ≤ length input = grind arith in
    omega (
      arith,
      length-append {0} (take width input) (replicate padding 0 ++ rest),
      length-append {0} (replicate padding 0) rest,
      length-take width input,
      length-replicate {A = ℕ} padding 0,
      tail,
      short,
    )

-- One row written behind the rows `done`, into a buffer of which `rest` is not yet written.
module _ (done rest input : Bytes) (off from width padding : ℕ) (at_end : off ≡ length done)
    (room : width + padding ≤ length rest) (source : from + width ≤ length input) where
  abbrev new_row : Bytes
  new_row = take width (drop from input)

  length-new_row : length new_row ≡ width
  length-new_row = omega (arith, length-take width (drop from input), length-drop from input)

  row_padded :
      (if padding == 0
        then some (done ++ (new_row ++ drop width rest))
        else memset (done ++ (new_row ++ drop width rest)) (off + width) 0 padding)
      ≡ some (done ++ (new_row ++ (replicate padding 0 ++ drop (width + padding) rest)))
  row_padded = elim (Bool-cases (padding == 0)) [
    | inl zero_needed ↦ let e : padding ≡ 0 = ground arith in rw (e, add-zero)
    | inr needed ↦ rw needed (
        memset-append_two done new_row (drop width rest) (off + width) padding 0
          (omega (arith, length-new_row)) (omega (arith, length-drop width rest))
        ∙ ap (λ t. some (done ++ (new_row ++ (replicate padding 0 ++ t))))
            (drop-drop padding width (width + padding) rest (omega arith)))
  ]

  row_written :
      (memcpy (done ++ rest) off input from width >>= λ p.
      if padding == 0 then some p else memset p (off + width) 0 padding)
      ≡ some (done ++ (new_row ++ (replicate padding 0 ++ drop (width + padding) rest)))
  row_written =
      rw (memcpy-append done rest off at_end width (omega arith) input from source) row_padded

-- The loop from row `h` on, with the rows `done` written and `rest` not yet.
copy_rows-padded_rows :
    (n h : ℕ) (done rest input : Bytes) (width padding off from : ℕ)
    → off ≡ length done
    → from ≡ h * width
    → n * (width + padding) ≤ length rest
    → (h + n) * width ≤ length input
    → length input < 2 ^ 32
    → copy_rows n h off (width + padding) width width padding input (done ++ rest)
      ≡ some (
          done
          ++ (padded_rows n width padding (drop from input) ++ drop (n * (width + padding)) rest))
unfolding copy_rows
copy_rows-padded_rows zero h done rest input width padding off from e f room src small =
    let z : 0 * (width + padding) ≡ 0 = omega arith in rw z
copy_rows-padded_rows (suc n) h done rest input width padding off from e f room src small =
    let row = take width (drop from input) in
    let fill : Bytes = replicate padding 0 in
    let here : from + width ≤ length input = grind arith in
    let index : u32 (h * width) ≡ from = omega (arith, here) in
    let one = row_written done rest input off from width padding e (grind arith) here in
    let next = λ (q : Bytes).
      copy_rows n (h + 1) (off + (width + padding)) (width + padding) width width padding input q in
    let pad = λ (p : Bytes). if padding == 0 then some p else memset p (off + width) 0 padding in
    let done' = done ++ (row ++ fill) in
    let rest' = drop (width + padding) rest in
    let joined : done ++ (row ++ (fill ++ rest')) ≡ done' ++ rest' = simp append_assoc in
    let later =
      copy_rows-padded_rows n (h + 1) done' rest' input width padding (off + (width + padding))
        (from + width)
        (omega (
          arith,
          length-append {0} done (row ++ fill),
          length-append {0} row fill,
          length-take width (drop from input),
          length-drop from input,
          length-replicate {A = ℕ} padding 0,
        ))
        (grind arith) (grind (arith, length-drop (width + padding) rest)) (grind arith) small in
    let tail = drop-drop width from (from + width) input (omega arith) in
    let left =
      drop-drop (n * (width + padding)) (width + padding) (suc n * (width + padding)) rest
        (grind arith) in
    rw index (
      bind_assoc (memcpy (done ++ rest) off input from width) pad next
      ∙ ap (λ m. m >>= next) one
      ∙ ap next joined
      ∙ later
      ∙ simp (tail, left, append_assoc))

-- Into a fresh buffer of the size asked for, whatever it held, the loop writes the padded rows.
pub copy_rows_fresh :
    (height width padding : ℕ) (input pix : Bytes)
    → length pix ≡ height * (width + padding)
    → height * width ≤ length input
    → length input < 2 ^ 32
    → copy_rows height 0 0 (width + padding) width width padding input pix
      ≡ some (padded_rows height width padding input)
copy_rows_fresh height width padding input pix e le small =
    let size = height * (width + padding) in
    copy_rows-padded_rows height 0 [] pix input width padding 0 0 refl (omega arith) (omega arith)
      (grind arith) small
    ∙ rw (drop_all size pix (omega arith), append-nil)
