-- ===== src/Video/Allotted.antt =====
-- src/v4l2uvc.c: proofs about the device that `create_video_device` returns, with its framebuffer.
use hawkeye.Base.{
  ℕ, ◌+◌, ◌*◌, ◌^◌, ◌≤◌, ◌≡◌, refl, sym, ap, ◌∙◌, ◌⊎◌, inl, inr, true, ◌||◌, Option, none, some,
  arith, Bytes, Bool-cases, if-intro, subst, ◌==◌, ltb, ltb→le, u32, size_of_int,
}
use hawkeye.Video.Capture.{Format, mjpeg, yuyv, z16, unknown}
use hawkeye.Video.Calls.{World, Driver, Reply, M, ◌>>=◌, pure, exit, or_else}
use hawkeye.Video.Enumerate.{enumerate}
use hawkeye.Video.Setup.{VideoDevice, init_v4l2, new_device, with_framebuffer, create_video_device}
use hawkeye.Video.Giving.{Gives, Any, all-Gives, >>=-Gives, or_exit-Gives}
use hawkeye.Video.Agreed.{agreed, Agreed, init_v4l2-Gives}

-- Two bytes for each pixel, and in MJPEG for those of eight lines more.
abbrev pub frame_bytes : Format → ℕ → ℕ → ℕ
frame_bytes mjpeg width height = 2 * (width * (height + 8))
frame_bytes _ width height = 2 * (width * height)

-- The framebuffer is what malloc gives for framebuffer_size, and that is enough for a frame, unless its size is no int.
abbrev pub Framed : (ℕ → Bytes) → Format → VideoDevice → Type 0
Framed fresh format vd =
    (vd.device.framebuffer ≡ fresh vd.device.framebuffer_size)
    × ((vd.device.framebuffer_size ≡ frame_bytes format vd.width vd.height)
        ⊎ (2 ^ 31 ≤ frame_bytes format vd.width vd.height))

product_of :
    (f g : Format) (width height n : ℕ)
    → g ≡ f
    → n ≡ frame_bytes f width height
    → (size_of_int (u32 n) ≡ frame_bytes g width height) ⊎ (2 ^ 31 ≤ frame_bytes g width height)
product_of f g width height n same e =
    let bytes : n ≡ frame_bytes g width height =
      e ∙ ap (λ k. frame_bytes k width height) (sym same) in
    elim (Bool-cases (ltb n (2 ^ 31))) [
      | inl small ↦ inl (exact n small ∙ bytes)
      | inr large ↦ inr (subst (λ k. 2 ^ 31 ≤ k) bytes (ltb→le n (2 ^ 31) large))
    ]
  where
    exact : (n : ℕ) → ltb n (2 ^ 31) ≡ true → size_of_int (u32 n) ≡ n
    exact n small = ground (arith, small)

module _ (driver : Driver) (mmap : ℕ → Option Bytes) where
  -- What the device of `create_video_device` is like; no device is fine.
  abbrev pub Fitted : (ℕ → Bytes) → Format × Reply → Option VideoDevice → World → Type 0
  Fitted fresh a none v = Unit
  Fitted fresh a (some vd) v = Agreed a vd × Framed fresh vd.device.format_in vd

  with_framebuffer-Gives :
      (fresh : ℕ → Bytes) (a : Format × Reply) (f : Format) (vd : VideoDevice) (w : World)
      → vd.device.format_in ≡ f
      → Agreed a vd
      → Gives
          (Fitted fresh a)
          ((with_framebuffer driver mmap fresh f vd >>= λ made. pure (some made)) w)
  unfolding with_framebuffer
  with_framebuffer-Gives fresh a mjpeg vd w e h =
      (h, (refl, product_of mjpeg vd.device.format_in vd.width vd.height _ e (grind arith)))
  with_framebuffer-Gives fresh a yuyv vd w e h =
      (h, (refl, product_of yuyv vd.device.format_in vd.width vd.height _ e (grind arith)))
  with_framebuffer-Gives fresh a z16 vd w e h =
      (h, (refl, product_of z16 vd.device.format_in vd.width vd.height _ e (grind arith)))
  with_framebuffer-Gives fresh a unknown vd w e h = tt

  pub create_video_device-Gives :
      (fuel : ℕ) (fresh : ℕ → Bytes) (name : Option Bytes) (width height fps : ℕ) (format : Format)
      (quality : ℕ) (w : World)
      → Gives
          (Fitted fresh (agreed driver (w.time + 1) width height format))
          (create_video_device driver mmap fuel fresh name width height fps format quality w)
  unfolding create_video_device new_device
  create_video_device-Gives fuel fresh none width height fps format quality w = tt
  create_video_device-Gives fuel fresh (some name) width height fps format quality w =
      if-intro (λ (m : M (Option VideoDevice)). Gives Done (m w)) (width == 0 || height == 0)
        (λ _. tt)
        (λ _.
          let fresh_device = new_device name width height fps format quality in
          >>=-Gives Ready Done (or_else (init_v4l2 driver mmap fresh_device) exit) _ w
            (or_exit-Gives Ready (init_v4l2 driver mmap fresh_device w)
              (init_v4l2-Gives driver mmap fresh_device w))
            (λ vd u ready.
              >>=-Gives Any Done (enumerate driver format width height fuel) _ u (all-Gives _)
                (λ listed v _.
                  with_framebuffer-Gives fresh a vd.device.format_in (record vd { listed = listed })
                    v refl ready)))
    where
      a : Format × Reply
      a = agreed driver (w.time + 1) width height format

      Ready : VideoDevice → World → Type 0
      Ready vd v = Agreed a vd

      Done : Option VideoDevice → World → Type 0
      Done = Fitted fresh a
