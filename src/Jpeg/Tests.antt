-- ===== src/Jpeg/Tests.antt =====
-- The destination at a concrete picture of one buffer and three bytes.
use hawkeye.Base.{
  ℕ, ◌+◌, ◌-◌, ◌*◌, ◌≤◌, ◌≡◌, refl, true, false, none, List, drop, some, [], ◌∷◌, ◌++◌, arith,
  Bytes, length, length-replicate, length-append, take, replicate,
}
use hawkeye.StripeFilter.Gradients.{GradientInfo}
use hawkeye.Jpeg.Pixels.{red, green, blue, Pixels, Position, convert_pixels}
use hawkeye.Jpeg.Compress.{scan_lines, detect_stripes, start_position, scan_z16}
use hawkeye.Jpeg.Compressing.{DetectedIn, DetectedDrawn, scan_lines-Drawn}
use hawkeye.Jpeg.Depth.{depth_unit, gray_levels, scan_z16-gray_levels}
use hawkeye.Jpeg.Groups.{converted, convert_pixels-groups}
use hawkeye.Jpeg.Exact.{Near, jfif_red, jfif_green, jfif_blue, colors-Near}
use hawkeye.Jpeg.Destination.{output_buf_size, Destination, init_destination, dest_buffer, calls}
use hawkeye.Jpeg.Output.{concat, Delivered, calls-init_destination}

abbrev buffer : ℕ → Bytes
buffer v = replicate output_buf_size v

abbrev unset : Destination
unset = record {
  next_output = 0;
  free_in_buffer = 0;
  buffer = [];
  outbuffer = [];
  cursor = 9;
  written = 9;
}

calls-init_destination_example :
    (end : Destination) × (calls
        (buffer 7 ∷ [])
        (buffer 9)
        4093
        (init_destination (buffer 0) (dest_buffer (replicate 5000 0) unset))
      ≡ some end)
    × Delivered
        (concat (buffer 7 ∷ []) ++ take (output_buf_size - 4093) (buffer 9))
        (replicate 5000 0)
        end
calls-init_destination_example =
    calls-init_destination (buffer 7 ∷ []) (buffer 9) (buffer 0) (replicate 5000 0) 4093 unset
      (length-replicate {A = ℕ} output_buf_size 7, tt) (length-replicate {A = ℕ} output_buf_size 9)
      (room)
  where
    room :
        length (concat (buffer 7 ∷ [])) + (output_buf_size - 4093)
        ≤ length (replicate {A = ℕ} 5000 0)
    room = omega (
      arith,
      length-append {A = ℕ} (buffer 7) [],
      length-replicate {A = ℕ} output_buf_size 7,
      length-replicate {A = ℕ} 5000 0,
    )

abbrev source : Bytes
source = 100 ∷ 128 ∷ 50 ∷ 200 ∷ 0 ∷ 0 ∷ 255 ∷ 255 ∷ 7 ∷ []

abbrev nothing_yet : Pixels
nothing_yet = record { rgb = []; gray = [] }

convert_pixels-groups_example :
    convert_pixels (2 * 2) (record { z = false; src = source; pixels = nothing_yet })
    ≡ some (converted (take (4 * 2) source) (drop (4 * 2) source) nothing_yet)
convert_pixels-groups_example = convert_pixels-groups 2 source nothing_yet (omega arith)

colors-Near_example :
    Near (red 77 200) (jfif_red 77 200)
    × Near (green 77 90 200) (jfif_green 77 90 200)
    × Near (blue 77 90) (jfif_blue 77 90)
colors-Near_example = colors-Near 77 90 200 (omega arith) (omega arith) (omega arith)

-- A picture of four by three pixels.
abbrev small_picture : Bytes
small_picture = replicate 24 10

scan_lines-Drawn_example :
    (q : Position) × (gs : List GradientInfo) × (scan_lines true 4 3 0
        (start_position small_picture)
        []
      ≡ some (q, gs))
    × (length q.pixels.gray ≡ 3 * 4)
    × DetectedIn 4 3 (detect_stripes gs)
    × DetectedDrawn 4 3 (detect_stripes gs) q.pixels.gray
scan_lines-Drawn_example =
    scan_lines-Drawn 4 3 (omega arith) (omega arith) (omega arith) (omega arith) small_picture
      (omega arith) (omega arith)

-- Depths of 40, 300, 10000 and 0 millimetres.
abbrev depths : Bytes
depths = 40 ∷ 0 ∷ 44 ∷ 1 ∷ 16 ∷ 39 ∷ 0 ∷ 0 ∷ []

gray_of_depths : gray_levels (depth_unit 0) depths ≡ 2 ∷ 15 ∷ 255 ∷ 0 ∷ []
gray_of_depths = refl

scan_z16-gray_levels_example :
    scan_z16 depths 2 2 80 0
    ≡ some (record {
      components = 1;
      width = 2;
      height = 2;
      quality = 80;
      comment = none;
      rows = gray_levels (depth_unit 0) (take (2 * (2 * 2)) depths);
    })
scan_z16-gray_levels_example = scan_z16-gray_levels depths 2 2 80 0 (omega arith)
