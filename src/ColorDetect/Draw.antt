-- ===== src/ColorDetect/Draw.antt =====
-- src/color_detect.c: `draw_blob` and `draw_blobs`.
use hawkeye.Base.{
  ℕ, zero, suc, ◌+◌, ◌*◌, ◌%◌, Bool, ◌&&◌, Option, none, some, List, [], ◌∷◌, if◌then◌else◌, Bytes,
  ◌>>=◌, ◌==◌, u32, sub_u32,
}
use hawkeye.Base.Image.{put}
use hawkeye.ColorDetect.Blob.{Blob, Detections, blob_at}
use hawkeye.ColorDetect.Merge.{find_largest_blob}

-- The horizontal loop with `n` rounds left, from offset `i`.
unfoldable pub draw_horizontal : ℕ → ℕ → ℕ → ℕ → ℕ → Bytes → Option Bytes
draw_horizontal zero i top bottom color pix = some pix
draw_horizontal (suc n) i top bottom color pix = put pix (top + i) color >>= λ p.
    put p (bottom + i) color >>= λ q. draw_horizontal n (i + 1) top bottom color q

-- The vertical loop.
unfoldable pub draw_vertical : ℕ → ℕ → ℕ → ℕ → ℕ → ℕ → Bytes → Option Bytes
draw_vertical zero i top width line_width color pix = some pix
draw_vertical (suc n) i top width line_width color pix = put pix (top + i * width) color >>= λ p.
    put p (top + i * width + line_width) color >>= λ q.
    draw_vertical n (i + 1) top width line_width color q

-- draw_color_table[color_index % 2]
unfoldable pub draw_color : ℕ → ℕ
draw_color color_index = if color_index % 2 == 0 then 5 else 4

-- `draw_blob`. Its locals are `int`s computed in uint32_t; as sizes they are used unchanged below
-- 2 ^ 31.
unfoldable pub draw_blob : Bytes → ℕ → ℕ → Blob → Option Bytes
unfolding draw_color
draw_blob pix width height b =
    let top = u32 (b.bb_y_min * width + b.bb_x_min) in
    let bottom = u32 (b.bb_y_max * width + b.bb_x_min) in
    let line_width = sub_u32 b.bb_x_max b.bb_x_min in
    let line_height = sub_u32 b.bb_y_max b.bb_y_min in
    let color = draw_color b.color_index in
    draw_horizontal line_width 0 top bottom color pix >>= λ p.
    draw_vertical line_height 0 top width line_width color p

-- The loop over all blobs.
unfoldable pub draw_complete : ℕ → ℕ → List Blob → Bytes → Option Bytes
draw_complete width height [] pix = some pix
draw_complete width height (b ∷ bs) pix =
    (if b.valid && b.complete then draw_blob pix width height b else some pix) >>= λ p.
    draw_complete width height bs p

-- The loop over the colours, with `n` left.
unfoldable pub draw_largest : ℕ → ℕ → Detections → ℕ → ℕ → Bytes → Option Bytes
draw_largest width height d zero color pix = some pix
draw_largest width height d (suc n) color pix =
    elim (find_largest_blob d color) [
      | none ↦ some pix
      | some i ↦ draw_blob pix width height (blob_at d i)
    ]
    >>= λ p. draw_largest width height d n (color + 1) p

unfoldable pub draw_blobs : Bytes → ℕ → ℕ → Detections → Bool → ℕ → Option Bytes
draw_blobs pix width height d b_largest_only detect_color_count =
    if b_largest_only
    then draw_largest width height d detect_color_count 0 pix
    else draw_complete width height d.blobs pix
