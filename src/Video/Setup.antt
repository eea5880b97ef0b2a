-- ===== src/Video/Setup.antt =====
-- src/v4l2uvc.c: `init_v4l2`, `video_enable`, `video_disable`, `create_video_device`,
-- `requeue_device_buffer` and `destroy_video_device`. mmap is a parameter: the memory behind a driver
-- buffer, as is malloc. An int is its 32-bit pattern, and a product of ints wraps around. A failed
-- open is seen by the first call only.
use hawkeye.Base.{
  ℕ, zero, suc, ◌+◌, ◌*◌, Bool, true, false, not, ◌||◌, ◌&&◌, Option, none, some, List, [], ◌∷◌,
  ◌++◌, Bytes, ◌==◌, if◌then◌else◌, u32, size_of_int,
}
use hawkeye.Base.Print.{snprintf}
use hawkeye.Video.Capture.{Format, mjpeg, yuyv, z16, unknown, Device, Dequeued}
use hawkeye.Video.Enumerate.{Listed, nothing_listed, same_format, enumerate}
use hawkeye.Video.Calls.{
  Driver, Reply, query_capabilities, set_format, set_parameters, request_buffers, query_buffer,
  queue_buffer, stream_on, stream_off, M, ◌>>=◌, ◌>>◌, pure, fail, exit, or_else, call,
}

abbrev pub nb_buffer : ℕ
nb_buffer = 4

abbrev pub max_device_filename : ℕ
max_device_filename = 32

-- enum _streaming_state
pub data StreamingState : Type 0 where
  streaming_off : StreamingState
  streaming_on : StreamingState
  streaming_paused : StreamingState

-- struct video_device, with the fields of `capture_frame` in `device`.
pub record VideoDevice : Type 0 where
  pub device_filename : Bytes
  pub device : Device
  pub buf : Dequeued
  pub streaming_state : StreamingState
  pub use_streaming : Bool
  pub width : ℕ
  pub height : ℕ
  pub fps : ℕ
  pub jpeg_quality : ℕ
  pub listed : Listed

abbrev pub with_format : VideoDevice → Format → VideoDevice
with_format vd f = record vd { device = record (vd.device) { format_in = f } }

abbrev pub no_buffer : Dequeued
no_buffer = record { index = 0; bytesused = 0 }

unfoldable pub is_unknown : Format → Bool
is_unknown unknown = true
is_unknown _ = false

-- The device as `create_video_device` fills it in.
unfoldable pub new_device : Bytes → ℕ → ℕ → ℕ → Format → ℕ → VideoDevice
new_device name width height fps format jpeg_quality = record {
  device_filename = snprintf max_device_filename name;
  device = record { format_in = format; framebuffer = []; framebuffer_size = 0; mem = [] };
  buf = no_buffer;
  streaming_state = streaming_off;
  use_streaming = true;
  width = width;
  height = height;
  fps = fps;
  jpeg_quality = jpeg_quality;
  listed = nothing_listed;
}

-- What mmap returns; `none` is MAP_FAILED.
abbrev pub mapped : Option Bytes → (Bytes → M (List Bytes)) → M (List Bytes)
mapped none k = fail
mapped (some b) k = k b

module _ (driver : Driver) (mmap : ℕ → Option Bytes) where
  unfoldable pub video_enable : VideoDevice → M VideoDevice
  video_enable vd = call driver stream_on >> pure (record vd { streaming_state = streaming_on })

  unfoldable pub video_disable : VideoDevice → StreamingState → M VideoDevice
  video_disable vd disabled_state =
      call driver stream_off >> pure (record vd { streaming_state = disabled_state })

  -- The tests of the capabilities.
  unfoldable pub check_capabilities : VideoDevice → Reply → M VideoDevice
  check_capabilities vd cap =
      if not cap.captures
      then fail
      else if vd.use_streaming
      then (if not cap.streams then fail else pure (record vd { streaming_state = streaming_off }))
      else if not cap.reads
      then fail
      else pure (record vd { streaming_state = streaming_off })

  -- VIDIOC_S_FMT, with the fallback format behind a refusal. Returns the device and what the driver chose.
  unfoldable pub choose_format : VideoDevice → M (VideoDevice × Reply)
  choose_format vd =
      or_else
        (call driver (set_format vd.width vd.height vd.device.format_in) >>= λ fmt. pure (vd, fmt))
        (call driver (set_format vd.width vd.height yuyv) >>= λ fmt.
          pure (with_format vd yuyv, fmt))

  -- The size that the driver chose. Its format is looked at only where the size is another one.
  unfoldable pub take_size : VideoDevice → Reply → M VideoDevice
  take_size vd fmt =
      if not (fmt.width == vd.width) || not (fmt.height == vd.height)
      then (if not (same_format vd.device.format_in fmt.pixelformat)
            && not (is_unknown vd.device.format_in)
          then fail
          else pure (record vd { width = fmt.width; height = fmt.height }))
      else pure vd

  -- The loop that maps the buffers, with `n` left, from `i`.
  unfoldable pub map_buffers : ℕ → ℕ → List Bytes → M (List Bytes)
  map_buffers zero i mem = pure mem
  map_buffers (suc n) i mem =
      call driver (query_buffer i) >> mapped (mmap i) (λ b. map_buffers n (i + 1) (mem ++ (b ∷ [])))

  -- The loop that queues the buffers.
  unfoldable pub queue_buffers : ℕ → ℕ → M (Unit {0})
  queue_buffers zero i = pure tt
  queue_buffers (suc n) i = call driver (queue_buffer i) >> queue_buffers n (i + 1)

  unfoldable pub init_v4l2 : VideoDevice → M VideoDevice
  init_v4l2 vd = do
    cap ← call driver query_capabilities
    checked ← check_capabilities vd cap
    (chosen, fmt) ← choose_format checked
    sized ← take_size chosen fmt
    call driver (set_parameters sized.fps)
    call driver (request_buffers nb_buffer)
    mem ← map_buffers nb_buffer 0 []
    queue_buffers nb_buffer 0
    video_enable (record sized { device = record (sized.device) { mem = mem } })

  -- framebuffer_size, from an int product that wraps around: an MJPEG picture has eight lines of
  -- room more. `fresh` is what malloc hands out.
  unfoldable pub with_framebuffer : (ℕ → Bytes) → Format → VideoDevice → M VideoDevice
  with_framebuffer fresh format vd = allocated format
    where
      sized : ℕ → VideoDevice
      sized size = record vd {
        device = record (vd.device) { framebuffer = fresh size; framebuffer_size = size };
      }

      allocated : Format → M VideoDevice
      allocated mjpeg = pure (sized (size_of_int (u32 (vd.width * (vd.height + 8) * 2))))
      allocated yuyv = pure (sized (size_of_int (u32 (vd.width * vd.height * 2))))
      allocated z16 = pure (sized (size_of_int (u32 (vd.width * vd.height * 2))))
      allocated unknown = exit

  -- `create_video_device`; NULL is `none`. A failure of init_v4l2 is a panic. `fuel` is that of the
  -- enumeration of formats, which looks for the format and the size that were asked for.
  unfoldable pub create_video_device :
      ℕ → (ℕ → Bytes) → Option Bytes → ℕ → ℕ → ℕ → Format → ℕ → M (Option VideoDevice)
  create_video_device fuel fresh none width height fps format jpeg_quality = pure none
  create_video_device fuel fresh (some name) width height fps format jpeg_quality =
      if width == 0 || height == 0
      then pure none
      else (or_else (init_v4l2 (new_device name width height fps format jpeg_quality)) exit
          >>= λ vd. enumerate driver format width height fuel >>= λ listed.
              with_framebuffer fresh vd.device.format_in (record vd { listed = listed }) >>= λ made.
              pure (some made))

  -- The case of a device that streams; what video_disable returns is ignored.
  abbrev pub stop_streaming : VideoDevice → StreamingState → M (Unit {0})
  stop_streaming vd streaming_on = or_else (video_disable vd streaming_off >> pure tt) (pure tt)
  stop_streaming vd _ = pure tt

  -- What free and close return is ignored.
  unfoldable pub destroy_video_device : VideoDevice → M (Unit {0})
  destroy_video_device vd = stop_streaming vd vd.streaming_state

  -- `requeue_device_buffer`
  unfoldable pub requeue_device_buffer : VideoDevice → M (Unit {0})
  requeue_device_buffer vd = call driver (queue_buffer vd.buf.index) >> pure tt
