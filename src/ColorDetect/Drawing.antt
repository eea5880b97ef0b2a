-- ===== src/ColorDetect/Drawing.antt =====
-- Drawing the boxes of a table whose blobs lie in the image writes inside the image only.
use hawkeye.Base.{
  ℕ, zero, suc, ◌+◌, ◌-◌, ◌*◌, ◌^◌, ◌≤◌, ◌<◌, ◌≡◌, refl, Bool, true, ◌&&◌, none, some, List, [],
  ◌∷◌, arith, length, Option-cases, inl, inr, Bytes, All, All-at, if-intro, u32, sub_u32,
}
use hawkeye.Base.Image.{Drawn, Drawn-bind, put-Drawn}
use hawkeye.ColorDetect.Blob.{Blob, zero_blob, Detections, blob_at}
use hawkeye.ColorDetect.Merge.{find_largest_blob}
use hawkeye.ColorDetect.Largest.{find_largest_blob-IsLargest}
use hawkeye.ColorDetect.Table.{InBox}
use hawkeye.ColorDetect.Draw.{
  draw_horizontal, draw_vertical, draw_blob, draw_complete, draw_largest, draw_blobs,
}

module _ (pix : Bytes) where
  draw_horizontal-Drawn :
      (n i top bottom color : ℕ) (p : Bytes)
      → length p ≡ length pix
      → top + (i + n) ≤ length pix
      → bottom + (i + n) ≤ length pix
      → Drawn pix (draw_horizontal n i top bottom color p)
  unfolding draw_horizontal
  draw_horizontal-Drawn zero i top bottom color p e ht hb = e
  draw_horizontal-Drawn (suc n) i top bottom color p e ht hb =
      Drawn-bind pix _ _ (put-Drawn pix p (top + i) color e (omega arith)) λ q e'.
        Drawn-bind pix _ _ (put-Drawn pix q (bottom + i) color e' (omega arith)) λ r e''.
          draw_horizontal-Drawn n (i + 1) top bottom color r e'' (omega arith) (omega arith)

  draw_vertical-Drawn :
      (n i top width line_width color : ℕ) (p : Bytes)
      → length p ≡ length pix
      → line_width < width
      → top + (i + n) * width + line_width < length pix + width
      → Drawn pix (draw_vertical n i top width line_width color p)
  unfolding draw_vertical
  draw_vertical-Drawn zero i top width lw color p e hw h = e
  draw_vertical-Drawn (suc n) i top width lw color p e hw h =
      let here : top + i * width + lw < length pix = grind arith in
      Drawn-bind pix _ _ (put-Drawn pix p (top + i * width) color e (omega arith)) λ q e'.
        Drawn-bind pix _ _ (put-Drawn pix q (top + i * width + lw) color e' here)
          λ r e''. draw_vertical-Drawn n (i + 1) top width lw color r e'' hw (grind arith)

  -- The numbers of a blob inside the image: nothing wraps, and its corners are pixels of it.
  record Fits (width height : ℕ) (b : Blob) : Type 0 where
    width-eq : sub_u32 b.bb_x_max b.bb_x_min ≡ b.bb_x_max - b.bb_x_min
    height-eq : sub_u32 b.bb_y_max b.bb_y_min ≡ b.bb_y_max - b.bb_y_min
    top-eq : u32 (b.bb_y_min * width + b.bb_x_min) ≡ b.bb_y_min * width + b.bb_x_min
    bottom-eq : u32 (b.bb_y_max * width + b.bb_x_min) ≡ b.bb_y_max * width + b.bb_x_min
    narrow : b.bb_x_max - b.bb_x_min < width
    right : b.bb_x_min ≤ b.bb_x_max
    top_in : b.bb_y_min * width + b.bb_x_max < length pix
    bottom_in : b.bb_y_max * width + b.bb_x_max < length pix
    rows : b.bb_y_min * width + (b.bb_y_max - b.bb_y_min) * width ≡ b.bb_y_max * width

  module _ (width height : ℕ) (pos : 0 < height) (le : height * width ≤ length pix)
      (small : length pix < 2 ^ 31) where
    row_in : (x y : ℕ) → x < width → y ≤ height - 1 → y * width + x < length pix
    row_in x y hx hy =
        let rows : (y + 1) * width ≤ height * width = grind arith in omega (arith, rows)

    rows_split : (lo hi : ℕ) → lo ≤ hi → lo * width + (hi - lo) * width ≡ hi * width
    rows_split lo hi h = grind arith

    InBox-Fits : (b : Blob) → b.valid ≡ true → InBox width (height - 1) b → Fits width height b
    InBox-Fits b v i =
        let box : (b.bb_x_min ≤ b.bb_x_max)
            × (b.bb_x_max < width)
            × (b.bb_y_min ≤ b.bb_y_max)
            × (b.bb_y_max ≤ height - 1) =
          rw v at i in
        let (hx, hw, hy, hh) = box in
        let top = row_in b.bb_x_max b.bb_y_min hw (omega arith) in
        let bottom = row_in b.bb_x_max b.bb_y_max hw hh in
        let high : b.bb_y_max ≤ b.bb_y_max * width = grind arith in
        record {
          width-eq = omega (arith, top);
          height-eq = omega (arith, bottom, high);
          top-eq = omega (arith, top);
          bottom-eq = omega (arith, bottom);
          narrow = omega arith;
          right = hx;
          top_in = top;
          bottom_in = bottom;
          rows = rows_split b.bb_y_min b.bb_y_max hy;
        }

    draw_blob-Drawn :
        (b : Blob) (p : Bytes)
        → length p ≡ length pix
        → b.valid ≡ true
        → InBox width (height - 1) b
        → Drawn pix (draw_blob p width height b)
    unfolding draw_blob
    draw_blob-Drawn b p e v i =
        let f = InBox-Fits b v i in
        rw (f.width-eq, f.height-eq, f.top-eq, f.bottom-eq)
          (Drawn-bind pix _ _
            (draw_horizontal-Drawn (b.bb_x_max - b.bb_x_min) 0 _ _ _ p e
              (omega (arith, f.top_in, f.right)) (omega (arith, f.bottom_in, f.right)))
            λ q e'.
              draw_vertical-Drawn (b.bb_y_max - b.bb_y_min) 0 _ width _ _ q e' f.narrow
                (omega (arith, f.rows, f.bottom_in, f.right)))

    draw_complete-Drawn :
        (bs : List Blob) (p : Bytes)
        → length p ≡ length pix
        → All (InBox width (height - 1)) bs
        → Drawn pix (draw_complete width height bs p)
    unfolding draw_complete
    draw_complete-Drawn [] p e a = e
    draw_complete-Drawn (b ∷ bs) p e a =
        Drawn-bind pix _ _
          (if-intro (Drawn pix) (b.valid && b.complete)
            (λ on. draw_blob-Drawn b p e (ground arith) a.0) (λ _. e))
          λ q e'. draw_complete-Drawn bs q e' a.1

    module _ (d : Detections) (boxes : All (InBox width (height - 1)) d.blobs) where
      draw_largest_one :
          (color : ℕ) (p : Bytes)
          → length p ≡ length pix
          → Drawn pix (elim (find_largest_blob d color) [
            | none ↦ some p
            | some i ↦ draw_blob p width height (blob_at d i)
          ])
      draw_largest_one color p e = elim (Option-cases (find_largest_blob d color)) [
        | inl nothing ↦ rw nothing e
        | inr (i, found) ↦
            let (inside, counts, _, _) = rw found at (find_largest_blob-IsLargest d color) in
            rw found (
              draw_blob-Drawn (blob_at d i) p e counts.1
                (All-at (InBox width (height - 1)) d.blobs i zero_blob inside boxes))
      ]

      draw_largest-Drawn :
          (n color : ℕ) (p : Bytes)
          → length p ≡ length pix
          → Drawn pix (draw_largest width height d n color p)
      unfolding draw_largest
      draw_largest-Drawn zero color p e = e
      draw_largest-Drawn (suc n) color p e =
          Drawn-bind pix _ _ (draw_largest_one color p e)
            λ q e'. draw_largest-Drawn n (color + 1) q e'

      -- Drawing the boxes of all complete blobs, or of the largest of each colour, writes only
      -- inside an image of `height` rows of `width` pixels and keeps its size, where the image has
      -- less than 2^31 pixels and every blob of the table in use lies inside the image.
      pub draw_blobs-Drawn :
          (b_largest_only : Bool) (detect_color_count : ℕ)
          → Drawn pix (draw_blobs pix width height d b_largest_only detect_color_count)
      unfolding draw_blobs
      draw_blobs-Drawn only n =
          if-intro (Drawn pix) only (λ _. draw_largest-Drawn n 0 pix refl)
            (λ _. draw_complete-Drawn d.blobs pix refl boxes)
