-- ===== src/Video/Capture.antt =====
-- src/v4l2uvc.c: `capture_frame`. What the driver dequeues is an argument: `none` where xioctl reports an
-- error. A panic of xioctl ends the program and is not a case here.
use hawkeye.Base.{
  ℕ, ◌-◌, ◌^◌, ◌≤◌, ◌<◌, ◌≡◌, refl, ap, ◌∙◌, ◌⊎◌, inl, inr, min, Option, none, some, List, [], ◌++◌,
  arith, Bytes, length, get_or, take, drop, memcpy, memcpy-append, ◌>>=◌, ltb, leb, if-intro,
  if◌then◌else◌,
}

-- The pixel formats that the switch tells apart.
pub data Format : Type 0 where
  mjpeg : Format
  yuyv : Format
  z16 : Format
  unknown : Format

-- The fields of struct video_device that `capture_frame` uses.
pub record Device : Type 0 where
  pub format_in : Format
  pub framebuffer : Bytes
  pub framebuffer_size : ℕ
  pub mem : List Bytes

-- The fields index and bytesused of struct v4l2_buffer.
pub record Dequeued : Type 0 where
  pub index : ℕ
  pub bytesused : ℕ

-- The framebuffer afterwards and the size_t returned.
pub record Captured : Type 0 where
  pub framebuffer : Bytes
  pub size : ℕ

-- (size_t) -1
abbrev pub failed_size : ℕ
failed_size = 2 ^ 64 - 1

-- memcpy(vd->framebuffer, vd->mem[vd->buf.index], n); return vd->buf.bytesused
unfoldable pub copy_frame_of : Device → Dequeued → ℕ → Option Captured
copy_frame_of vd buf n = memcpy vd.framebuffer 0 (get_or vd.mem buf.index []) 0 n >>= λ fb.
    some (record { framebuffer = fb; size = buf.bytesused })

unfoldable pub capture_as : Format → Device → Dequeued → Option Captured
capture_as mjpeg vd buf =
    if leb buf.bytesused 175
    then some (record { framebuffer = vd.framebuffer; size = 0 })
    else copy_frame_of vd buf buf.bytesused
capture_as yuyv vd buf =
    if ltb vd.framebuffer_size buf.bytesused
    then copy_frame_of vd buf vd.framebuffer_size
    else copy_frame_of vd buf buf.bytesused
capture_as z16 vd buf =
    if ltb vd.framebuffer_size buf.bytesused
    then copy_frame_of vd buf vd.framebuffer_size
    else copy_frame_of vd buf buf.bytesused
capture_as unknown vd buf = some (record { framebuffer = vd.framebuffer; size = failed_size })

unfoldable pub capture_frame : Device → Option Dequeued → Option Captured
capture_frame vd none = some (record { framebuffer = vd.framebuffer; size = failed_size })
capture_frame vd (some buf) = capture_as vd.format_in vd buf

module _ (vd : Device) (buf : Dequeued) (sized : length vd.framebuffer ≡ vd.framebuffer_size)
    (mapped : buf.bytesused ≤ length (get_or vd.mem buf.index [])) where
  copy_frame_of-eq :
      (n : ℕ)
      → n ≤ vd.framebuffer_size
      → n ≤ buf.bytesused
      → copy_frame_of vd buf n
        ≡ some (record {
          framebuffer = take n (get_or vd.mem buf.index []) ++ drop n vd.framebuffer;
          size = buf.bytesused;
        })
  unfolding copy_frame_of
  copy_frame_of-eq n h k =
      rw
        (memcpy-append [] vd.framebuffer 0 refl n (omega (arith, sized, h))
          (get_or vd.mem buf.index []) 0 (omega (arith, k, mapped)))
        refl

  clamped :
      (if ltb vd.framebuffer_size buf.bytesused
        then copy_frame_of vd buf vd.framebuffer_size
        else copy_frame_of vd buf buf.bytesused)
      ≡ some (record {
        framebuffer =
            take (min buf.bytesused vd.framebuffer_size) (get_or vd.mem buf.index [])
            ++ drop (min buf.bytesused vd.framebuffer_size) vd.framebuffer;
        size = buf.bytesused;
      })
  clamped =
      let goal : ℕ → Option Captured = λ n. some (record {
        framebuffer = take n (get_or vd.mem buf.index []) ++ drop n vd.framebuffer;
        size = buf.bytesused;
      }) in
      if-intro (λ r. r ≡ goal (min buf.bytesused vd.framebuffer_size))
        (ltb vd.framebuffer_size buf.bytesused)
        (λ on.
          let less : vd.framebuffer_size < buf.bytesused = ground (arith, on) in
          let m : vd.framebuffer_size ≡ min buf.bytesused vd.framebuffer_size =
            omega (arith, less) in
          copy_frame_of-eq vd.framebuffer_size (omega arith) (omega (arith, less)) ∙ ap goal m)
        (λ off.
          let most : buf.bytesused ≤ vd.framebuffer_size = ground (arith, off) in
          let m : buf.bytesused ≡ min buf.bytesused vd.framebuffer_size = omega (arith, most) in
          copy_frame_of-eq buf.bytesused most (omega arith) ∙ ap goal m)

-- For an uncompressed format, a framebuffer of the size recorded, and a mapped driver buffer that
-- holds bytesused bytes, `capture_frame` copies the driver's bytes as far as both reach and nothing
-- beyond the framebuffer, and returns bytesused, also where it is more than was copied.
pub capture_frame-clamped :
    (vd : Device) (buf : Dequeued)
    → (vd.format_in ≡ yuyv) ⊎ (vd.format_in ≡ z16)
    → length vd.framebuffer ≡ vd.framebuffer_size
    → buf.bytesused ≤ length (get_or vd.mem buf.index [])
    → capture_frame vd (some buf)
      ≡ some (record {
        framebuffer =
            take (min buf.bytesused vd.framebuffer_size) (get_or vd.mem buf.index [])
            ++ drop (min buf.bytesused vd.framebuffer_size) vd.framebuffer;
        size = buf.bytesused;
      })
unfolding capture_frame capture_as
capture_frame-clamped vd buf (inl e) sized mapped =
    ap (λ f. capture_as f vd buf) e ∙ clamped vd buf sized mapped
capture_frame-clamped vd buf (inr e) sized mapped =
    ap (λ f. capture_as f vd buf) e ∙ clamped vd buf sized mapped
