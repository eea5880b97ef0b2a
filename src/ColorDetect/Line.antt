-- ===== src/ColorDetect/Line.antt =====
-- src/color_detect.c: `write_single_blob_data_to_image`, whose pointers are not null. `calloc` is an argument: whether it
-- gives memory. The result of the function is false always.
use hawkeye.Base.{
  ℕ, ◌-◌, ◌*◌, Bool, not, ◌||◌, Option, none, some, [], ◌∷◌, ◌++◌, Bytes, length, replicate, ltb,
  ◌==◌, if◌then◌else◌, memcpy,
}
use hawkeye.Base.Print.{digits}
use hawkeye.ColorDetect.Blob.{Blob}

-- %u
unfoldable pub print_unsigned : ℕ → Bytes
print_unsigned v = digits 9 v

unfoldable pub line_of : Blob → Bytes
line_of b =
    b'1'
    ∷ b','
    ∷ b'0'
    ∷ b','
    ∷ (print_unsigned b.bb_x_min
        ++ (b','
            ∷ (print_unsigned b.bb_x_max
                ++ (b','
                    ∷ (print_unsigned b.bb_y_min
                        ++ (b','
                            ∷ (print_unsigned b.bb_y_max
                                ++ (b',' ∷ (print_unsigned b.num_pixels ++ (10 ∷ []))))))))))

-- The line in its zeroed buffer of `stride` bytes; `none` is a write behind it.
unfoldable pub line_buffer : ℕ → Bytes → Option Bytes
line_buffer stride text =
    if ltb (length text) stride then some (text ++ replicate (stride - length text) 0) else none

abbrev pub copy_line : Bytes → ℕ → Option Bytes → Option Bytes
copy_line image stride none = none
copy_line image stride (some line) = memcpy image 0 line 0 stride

-- The image afterwards.
unfoldable pub write_single_blob_data_to_image : Bool → Blob → Bytes → ℕ → ℕ → ℕ → Option Bytes
write_single_blob_data_to_image calloc b image image_size stride height =
    if not (image_size == stride * height) || stride == 0 || height == 0
    then some image
    else if not calloc
    then some image
    else if not b.valid || not b.complete || b.num_pixels == 0
    then some image
    else copy_line image stride (line_buffer stride (line_of b))
