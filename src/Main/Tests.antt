-- ===== src/Main/Tests.antt =====
-- Runs of the program with a driver that serves it, and of `write_frame`.
use hawkeye.Base.{
  ◌*◌, ◌^◌, Bool, not, ◌-◌, ◌==◌, ℕ, ◌+◌, ◌<◌, ◌≡◌, refl, ◌⊎◌, inl, true, false, Option, none, some,
  [], ◌∷◌, ◌++◌, Bytes, arith, length, replicate, ◌%◌,
}
use hawkeye.Base.Text.{codes}
use hawkeye.Files.{Files}
use hawkeye.Bitmap.{Stdio}
use hawkeye.Jpeg.Compress.{Picture, Fills}
use hawkeye.Settings.{Settings}
use hawkeye.Video.Ioctl.{xioctl, xioctl_from}
use hawkeye.Video.Capture.{yuyv}
use hawkeye.Video.Calls.{
  Request, enum_format, enum_frame_size, Driver, World, returns, faults, ◌>>=◌,
}
use hawkeye.Video.Setup.{new_device}
use hawkeye.Video.Protocol.{Queue, no_queue, replay, Post}
use hawkeye.Video.Listing.{Anything}
use hawkeye.ColorDetect.Color.{Pixel}
use hawkeye.Main.DetectColor.{parse_detect_color, parse_detect_color-bits}
use hawkeye.Main.Output.{Paths, no_paths, Disk, path_of, write_frame}
use hawkeye.Main.Replacing.{Fits, Replaces, write_frame-Replaces}
use hawkeye.Main.Loop.{sigusr1, sigint, Camera, Round, main_loop, clean_up, run_camera}
use hawkeye.Main.Stopping.{grab_all, end_camera, main_loop-stops}
use hawkeye.Main.Grabbing.{Serves}
use hawkeye.Main.Serving.{Finished, run_camera-serves}

abbrev memory : Stdio
memory = record {
  File = Bytes;
  contents = λ f. f;
  fwrite = λ bytes f. (true, f ++ bytes);
  fwrite_appends = λ bytes f e. refl;
}

abbrev malloc : ℕ → Option Bytes
malloc n = some (replicate n 7)

abbrev settings : Settings
settings = record {
  run_in_background = false;
  fps = 6;
  width = 4;
  height = 1;
  mm_scale = 0;
  jpeg_quality = 80;
  file_root = codes "/tmp";
  base_file_name = codes "image";
  v4l2_format = yuyv;
  video_device_count = 1;
  video_device_file = codes "/dev/video0";
  profile_fps = 0;
  enable_stripe_detect = false;
  write_detect_image = false;
}

-- There is one format with one size.
abbrev is_listed : Request → Bool
is_listed (enum_format i) = i == 0
is_listed (enum_frame_size f j) = j == 0
is_listed _ = true

-- All calls succeed but for what is not listed, and the buffers come back in turn.
abbrev turning : Driver
turning t r = record {
  answers = λ k. record { fails = not (is_listed r); is_temporary = false };
  captures = true;
  streams = true;
  reads = true;
  width = 4;
  height = 1;
  pixelformat = yuyv;
  index = t % 4;
  bytesused = 8;
}

turning-Serves : Serves turning
unfolding xioctl xioctl_from
turning-Serves = record {
  dequeues = λ t e. absurd (cc e);
  hands_out = λ t. omega arith;
  queues = λ t i e. absurd (cc e);
  stops = λ t e. absurd (cc e);
}

abbrev mmap : ℕ → Option Bytes
mmap i = some (i ∷ 128 ∷ i ∷ 128 ∷ i ∷ 128 ∷ i ∷ 128 ∷ [])

abbrev raw : Picture → Fills
raw p = record {
  full = [];
  last = p.rows ++ replicate (4096 - length p.rows) 0;
  free = 4096 - length p.rows;
}

abbrev disk : Disk
disk = record { opens = true; stored = λ bytes. bytes }

abbrev no_files : Files
no_files path = none

abbrev round : Round memory
round = record {
  buf = none;
  jpeg = raw;
  fresh = [];
  before = record {
    buffer = [];
    outbuffer = [];
    next_output = 0;
    free_in_buffer = 0;
    cursor = 0;
    written = 0;
  };
  opened = none;
  disk = disk;
  signals = sigusr1 ∷ [];
}

abbrev last_round : Round memory
last_round = record round { buf = some (replicate 20 0); signals = sigusr1 ∷ sigint ∷ [] }

abbrev camera : Camera
camera = record {
  vd = new_device (codes "/dev/video0") 4 1 6 yuyv 80;
  state = record { paths = no_paths; files = no_files };
}

abbrev beginning : World
beginning = record { time = 0; events = [] }

write_frame-Replaces_example :
    (Fits settings
      × (p : Paths) × (after : Files) × (write_frame disk settings yuyv
            (5 ∷ 6 ∷ 7 ∷ [])
            2
            no_paths
            no_files
          ≡ returns (p, after))
      × Replaces
          (path_of settings (codes ".jpg~"))
          (path_of settings (codes ".jpg"))
          (5 ∷ 6 ∷ [])
          no_files
          after)
    ⊎ ((121 < length settings.file_root + length settings.base_file_name)
        × (write_frame disk settings yuyv (5 ∷ 6 ∷ 7 ∷ []) 2 no_paths no_files ≡ faults))
write_frame-Replaces_example =
    write_frame-Replaces disk refl settings (5 ∷ 6 ∷ 7 ∷ []) 2 (omega arith) no_files yuyv
      (inl refl)

main_loop-stops_example :
    (main_loop turning mmap memory malloc settings (round ∷ last_round ∷ round ∷ []) true camera
      >>= clean_up turning mmap memory malloc settings)
    ≡ (grab_all turning mmap memory malloc settings (round ∷ last_round ∷ []) camera
        >>= end_camera turning mmap memory malloc settings)
main_loop-stops_example =
    main_loop-stops turning mmap memory malloc settings (round ∷ []) last_round (round ∷ []) camera
      (refl, tt) refl

run_camera-serves_example :
    (q : Queue) × (replay
        (run_camera turning mmap memory malloc settings 9
          (λ n. replicate n 0)
          (round ∷ last_round ∷ [])
          no_files
          beginning).1.events
        no_queue
      ≡ some q)
    × Post
        (Finished turning turning-Serves mmap memory malloc settings)
        Anything
        (run_camera turning mmap memory malloc settings 9
          (λ n. replicate n 0)
          (round ∷ last_round ∷ [])
          no_files
          beginning).0
        q
unfolding replay
run_camera-serves_example =
    run_camera-serves turning turning-Serves mmap memory malloc settings 9 (λ n. replicate n 0)
      (round ∷ last_round ∷ []) no_files beginning refl

-- The value of hexadecimal digits from 0 to 9.
abbrev hex_from : ℕ → Bytes → ℕ
hex_from n [] = n
hex_from n (c ∷ cs) = hex_from (16 * n + (c - 48)) cs

parse_detect_color-bits_example :
    (p : Pixel) × (parse_detect_color (hex_from 0) (some (codes "#102030")) 7 ≡ some p)
    × (p.red < 256)
    × (p.green < 256)
    × (p.blue < 256)
    × (p.red * 2 ^ 16 + p.green * 2 ^ 8 + p.blue ≡ hex_from 0 (codes "102030") % 2 ^ 24)
parse_detect_color-bits_example = parse_detect_color-bits (hex_from 0) (codes "102030")
