-- ===== src/Main/Loop.antt =====
-- src/main.c: `grab_frame` and `main`. There is one frame buffer, since init_settings sets the number of
-- devices to 1, and its frames are never used. What a round of the loop meets, libjpeg, memory,
-- files and signals, is an argument. The times that the loop measures, prints and sleeps for are left out.
use hawkeye.Base.{
  ℕ, Bool, true, false, Option, none, some, List, [], ◌∷◌, Bytes, ◌==◌, if◌then◌else◌,
}
use hawkeye.Files.{Files}
use hawkeye.Bitmap.{Stdio}
use hawkeye.Jpeg.Destination.{Destination}
use hawkeye.Jpeg.Compress.{Libjpeg, Compressed, compress_yuyv_to_jpeg, compress_z16_to_jpeg}
use hawkeye.Settings.{Settings}
use hawkeye.Video.Calls.{
  Returned, returns, exits, of_option, ◌and_then◌, Driver, dequeue_buffer, M, ◌>>=◌, ◌>>◌, pure,
  given, exit, or_else, call,
}
use hawkeye.Video.Capture.{Format, yuyv, z16, Dequeued, Captured, capture_frame}
use hawkeye.Video.Setup.{
  VideoDevice, no_buffer, create_video_device, destroy_video_device, requeue_device_buffer,
}
use hawkeye.Main.Output.{Paths, no_paths, Disk, write_frame}

-- The signals that init_signals installs the handler for; SIGPIPE is ignored.
pub data Signal : Type 0 where
  sigint : Signal
  sigterm : Signal
  sighup : Signal
  sigusr1 : Signal
  sigusr2 : Signal

-- `signal_handler`, on is_running.
unfoldable pub signal_handler : Signal → Bool → Bool
signal_handler sigint running = false
signal_handler sigterm running = false
signal_handler _ running = running

unfoldable pub handle : List Signal → Bool → Bool
handle [] running = running
handle (g ∷ gs) running = handle gs (signal_handler g running)

-- The static and global variables besides the device, and the files.
pub record State : Type 0 where
  pub paths : Paths
  pub files : Files

-- Behind the pointers: the device and all else.
pub record Camera : Type 0 where
  pub vd : VideoDevice
  pub state : State

module _ (stdio : Stdio) where
  open stdio use {File}

  -- What a round meets: the output buffer, libjpeg and its buffer and manager, the temporary file of the
  -- debug picture, the disk, and the signals until the loop looks at is_running again.
  pub record Round : Type 0 where
    pub buf : Option Bytes
    pub jpeg : Libjpeg
    pub fresh : Bytes
    pub before : Destination
    pub opened : Option File
    pub disk : Disk
    pub signals : List Signal

abbrev pub buffer_or_cleared : Option Dequeued → Dequeued
buffer_or_cleared none = no_buffer
buffer_or_cleared (some d) = d

module _ (driver : Driver) (mmap : ℕ → Option Bytes) (stdio : Stdio) (malloc : ℕ → Option Bytes)
    (s : Settings) where
  -- The call of xioctl in `capture_frame`.
  unfoldable pub dequeue : M (Option Dequeued)
  dequeue =
      or_else
        (call driver dequeue_buffer >>= λ r.
          pure (some (record { index = r.index; bytesused = r.bytesused })))
        (pure none)

  -- The switch on the format; the default is a panic.
  unfoldable pub compress_as :
      Format → Round stdio → Bytes → VideoDevice → Bytes → Files → Returned (Compressed × Files)
  compress_as yuyv r buf vd src files = of_option (
      compress_yuyv_to_jpeg stdio malloc r.jpeg r.fresh r.before buf src vd.width vd.height
        vd.jpeg_quality s.enable_stripe_detect s.write_detect_image r.opened files)
  compress_as z16 r buf vd src files =
      of_option (
        compress_z16_to_jpeg r.jpeg r.fresh r.before buf src vd.width vd.height vd.jpeg_quality
          s.mm_scale)
      and_then λ c. returns (c, files)
  compress_as _ r buf vd src files = exits

  -- What becomes of a captured frame.
  unfoldable pub process : Round stdio → Bytes → VideoDevice → Captured → State → Returned State
  process r buf vd captured st =
      if captured.size == 0
      then returns st
      else (compress_as vd.device.format_in r buf vd captured.framebuffer st.files
          and_then λ (c, files).
              write_frame r.disk s vd.device.format_in c.dst c.size st.paths files
              and_then λ (paths, after). returns (record { paths = paths; files = after }))

  -- `grab_frame` once it has its buffer.
  unfoldable pub grab_into : Bytes → Round stdio → Camera → M Camera
  grab_into buf r c = do
    got ← dequeue
    let vd = record (c.vd) { buf = buffer_or_cleared got }
    captured ← given (of_option (capture_frame vd.device got))
    st ← given (process r buf vd captured c.state)
    or_else (requeue_device_buffer driver mmap vd) (pure tt)
    pure (record {
      vd = record vd { device = record (vd.device) { framebuffer = captured.framebuffer } };
      state = st;
    })

  -- The output buffer is `none` where malloc fails, which ends the round.
  abbrev pub grab_for : Round stdio → Camera → Option Bytes → M Camera
  grab_for r c none = pure c
  grab_for r c (some buf) = grab_into buf r c

  unfoldable pub grab_frame : Round stdio → Camera → M Camera
  grab_frame r c = grab_for r c r.buf

  -- The loop of `main` over the rounds to come: the device, and whether the loop has ended.
  unfoldable pub main_loop : List (Round stdio) → Bool → Camera → M (Camera × Bool)
  main_loop rounds false c = pure (c, true)
  main_loop [] true c = pure (c, false)
  main_loop (r ∷ rs) true c = grab_frame r c >>= main_loop rs (handle r.signals true)

  unfoldable pub clean_up : Camera × Bool → M (Camera × Bool)
  clean_up (c, false) = pure (c, false)
  clean_up (c, true) = destroy_video_device driver mmap c.vd >> pure (c, true)

  abbrev pub camera_of : VideoDevice → Files → Camera
  camera_of vd files = record { vd = vd; state = record { paths = no_paths; files = files } }

  -- A device that is NULL is a panic.
  abbrev pub start_rounds : List (Round stdio) → Files → Option VideoDevice → M (Camera × Bool)
  start_rounds rounds files none = exit
  start_rounds rounds files (some vd) = main_loop rounds true (camera_of vd files) >>= clean_up

  -- `main` behind init_settings, with what init_frame_buffers does for one device.
  unfoldable pub run_camera : ℕ → (ℕ → Bytes) → List (Round stdio) → Files → M (Camera × Bool)
  run_camera fuel fresh rounds files =
      create_video_device driver mmap fuel fresh (some s.video_device_file) s.width s.height s.fps
        s.v4l2_format s.jpeg_quality
      >>= start_rounds rounds files
