-- ===== src/Jpeg/Compress.antt =====
-- src/image_utils.c: `compress_yuyv_to_jpeg` and `compress_z16_to_jpeg`. libjpeg is a parameter: what it
-- leaves in the buffer of the destination manager for a picture of so many components, its
-- dimensions, quality, comment and rows. The static buffers of the first call are those of all
-- calls, since a device keeps its dimensions.
use hawkeye.Base.{
  ℕ, zero, suc, ◌+◌, Bool, true, false, ◌&&◌, Option, none, some, List, [], ◌∷◌, ◌++◌, Bytes, ◌>>=◌,
  length, drop, if◌then◌else◌, leb, u32, ◌*◌,
}
use hawkeye.Base.Text.{codes}
use hawkeye.Files.{Files}
use hawkeye.Bitmap.{Stdio}
use hawkeye.StripeFilter.Gradients.{GradientInfo, sf_find_gradients}
use hawkeye.StripeFilter.Clusters.{ClusterInfo, sf_cluster_gradients}
use hawkeye.StripeFilter.Features.{FeatureInfo, sf_find_features}
use hawkeye.StripeFilter.Report.{sf_get_feature_list_data_string}
use hawkeye.StripeFilter.Image.{sf_write_image}
use hawkeye.Jpeg.Pixels.{Pixels, Position, convert_pixels, z16_pixel}
use hawkeye.Jpeg.Destination.{Destination, dest_buffer, init_destination, calls}

-- The full buffers, the last one, and free_in_buffer for it.
pub record Fills : Type 0 where
  pub full : List Bytes
  pub last : Bytes
  pub free : ℕ

-- What the two functions hand to libjpeg.
pub record Picture : Type 0 where
  pub components : ℕ
  pub width : ℕ
  pub height : ℕ
  pub quality : ℕ
  pub comment : Option Bytes
  pub rows : Bytes

abbrev pub Libjpeg : Type 0
Libjpeg = Picture → Fills

-- A list that the called function leaves alone when it returns false, which the caller ignores.
unfoldable pub list_after : {A : Type 0} → List A → Option (List A) → List A
list_after before none = before
list_after before (some after) = after

-- The loop over the lines, with `n` lines left: p_gray is the luminance of the last line.
unfoldable pub scan_lines :
    Bool → ℕ → ℕ → ℕ → Position → List GradientInfo → Option (Position × List GradientInfo)
scan_lines detect width zero line p grads = some (p, grads)
scan_lines detect width (suc n) line p grads = convert_pixels width p >>= λ p'.
    let gray = drop (length p.pixels.gray) p'.pixels.gray in
    scan_lines detect width n (line + 1) p'
      (if detect then list_after grads (sf_find_gradients grads gray line) else grads)

-- The lists behind the loop.
pub record Detected : Type 0 where
  pub grads : List GradientInfo
  pub clusters : List ClusterInfo
  pub features : List FeatureInfo

unfoldable pub detect_stripes : List GradientInfo → Detected
detect_stripes grads =
    let clusters = list_after [] (sf_cluster_gradients grads []) in
    record {
      grads = grads;
      clusters = clusters;
      features = list_after [] (sf_find_features clusters []);
    }

-- The comment, if one is written.
unfoldable pub comment_of : Bool → Detected → Option (Option Bytes)
comment_of false d = some none
comment_of true d = sf_get_feature_list_data_string d.features

abbrev pub start_position : Bytes → Position
start_position src = record { z = false; src = src; pixels = record { rgb = []; gray = [] } }

-- The picture, the luminance image and what was detected; `none` is an access out of bounds.
pub record Scanned : Type 0 where
  pub picture : Picture
  pub gray_image : Bytes
  pub detected : Detected

-- The static buffers have as many bytes as their unsigned products say, which wrap around.
unfoldable pub in_memory : ℕ → ℕ → Pixels → Bool
in_memory width height p =
    leb (length p.rgb) (u32 (width * 3 * height)) && leb (length p.gray) (u32 (width * height))

unfoldable pub scan_yuyv : Bytes → ℕ → ℕ → ℕ → Bool → Option Scanned
scan_yuyv src width height quality detect =
    scan_lines detect width height 0 (start_position src) [] >>= λ (p, grads).
    (if in_memory width height p.pixels then some (p, grads) else none) >>= λ (p, grads).
    comment_of detect (detect_stripes grads) >>= λ comment. some (record {
      picture = record {
        components = 3;
        width = width;
        height = height;
        quality = quality;
        comment = comment;
        rows = p.pixels.rgb;
      };
      gray_image = p.pixels.gray;
      detected = detect_stripes grads;
    })

-- The compressed picture in `dst`, and the size returned.
pub record Compressed : Type 0 where
  pub dst : Bytes
  pub size : ℕ

unfoldable pub compress : Libjpeg → Bytes → Destination → Bytes → Picture → Option Compressed
compress jpeg fresh before dst picture =
    let f = jpeg picture in
    calls f.full f.last f.free (init_destination fresh (dest_buffer dst before)) >>= λ end.
    some (record { dst = end.outbuffer; size = end.written })

-- A line of `compress_z16_to_jpeg`: `width` pixels, and the source behind them.
unfoldable pub z16_line : ℕ → ℕ → Bytes → Option (Bytes × Bytes)
z16_line mm_scale zero src = some ([], src)
z16_line mm_scale (suc n) [] = none
z16_line mm_scale (suc n) (low ∷ []) = none
z16_line mm_scale (suc n) (low ∷ high ∷ src) =
    z16_line mm_scale n src >>= λ (line, rest). some (z16_pixel mm_scale low high ∷ line, rest)

-- The loop over the lines, each of which is handed over at once.
unfoldable pub z16_lines : ℕ → ℕ → ℕ → Bytes → Option Bytes
z16_lines mm_scale width zero src = some []
z16_lines mm_scale width (suc n) src = z16_line mm_scale width src >>= λ (line, rest).
    z16_lines mm_scale width n rest >>= λ lines. some (line ++ lines)

unfoldable pub scan_z16 : Bytes → ℕ → ℕ → ℕ → ℕ → Option Picture
scan_z16 src width height quality mm_scale = z16_lines mm_scale width height src >>= λ rows.
    some (record {
      components = 1;
      width = width;
      height = height;
      quality = quality;
      comment = none;
      rows = rows;
    })

unfoldable pub compress_z16_to_jpeg :
    Libjpeg → Bytes → Destination → Bytes → Bytes → ℕ → ℕ → ℕ → ℕ → Option Compressed
compress_z16_to_jpeg jpeg fresh before dst src width height quality mm_scale =
    scan_z16 src width height quality mm_scale >>= compress jpeg fresh before dst

module _ (stdio : Stdio) (malloc : ℕ → Option Bytes) where
  open stdio use {File}

  -- `compress_yuyv_to_jpeg`; `opened` is the temporary file of the annotated picture.
  unfoldable pub compress_yuyv_to_jpeg :
      Libjpeg
      → Bytes
      → Destination
      → Bytes
      → Bytes
      → ℕ
      → ℕ
      → ℕ
      → Bool
      → Bool
      → Option File
      → Files
      → Option (Compressed × Files)
  compress_yuyv_to_jpeg jpeg fresh before dst src width height quality detect write opened files =
      scan_yuyv src width height quality detect >>= λ s.
      (if detect && write
        then sf_write_image stdio malloc (codes "./sf_image.bmp") width height s.gray_image
            s.detected.grads s.detected.clusters s.detected.features opened files
        else some files)
      >>= λ after. compress jpeg fresh before dst s.picture >>= λ c. some (c, after)
