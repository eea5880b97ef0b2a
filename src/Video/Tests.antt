-- ===== src/Video/Tests.antt =====
-- Frames and device calls at concrete inputs.
use hawkeye.Base.{
  inl, ◌⊎◌, ◌≤◌, ◌<◌, ℕ, ◌*◌, ◌≡◌, ◌≢◌, refl, Bool, true, false, not, le→ltb, Option, none, some,
  [], ◌∷◌, ◌++◌, arith, Bytes, take, drop, replicate, ltb,
}
use hawkeye.Video.Ioctl.{Answer, success, panic, ioctl_retry, xioctl, xioctl_from}
use hawkeye.Video.Retries.{Ends, xioctl-Ends}
use hawkeye.Video.Frames.{dht_data, is_huffman, is_huffman_from, find_start_of_frame, copy_frame}
use hawkeye.Video.Capture.{Device, yuyv, capture_frame, capture_frame-clamped}
use hawkeye.Video.Copied.{start_of_frame, copy_frame-inserted, copy_frame-overflow}
use hawkeye.Video.Marked.{copy_frame-same}
use hawkeye.Video.Calls.{Request, enum_format, enum_frame_size, Driver, World}
use hawkeye.Video.Enumerate.{enumerate}
use hawkeye.Video.Yielding.{Yields}
use hawkeye.Video.Enumerated.{Has, Lists, enumerate-Lists}
use hawkeye.Video.Setup.{create_video_device}
use hawkeye.Video.Protocol.{Queue, no_queue, replay, Post}
use hawkeye.Video.Listing.{Anything}
use hawkeye.Video.Giving.{Gives}
use hawkeye.Video.Agreed.{agreed}
use hawkeye.Video.Allotted.{Fitted}
use hawkeye.Video.Started.{Created, create_video_device-starts}

-- Three temporary failures, then success; and a lasting failure at the fourth call.
abbrev slow_driver : ℕ → Answer
slow_driver k = record { fails = ltb k 3; is_temporary = true }

abbrev refusing_driver : ℕ → Answer
refusing_driver k = record { fails = true; is_temporary = ltb k 3 }

slow_driver_succeeds : xioctl slow_driver ≡ success
unfolding xioctl xioctl_from
slow_driver_succeeds = refl

refusing_driver_panics : xioctl refusing_driver ≡ panic
unfolding xioctl xioctl_from
refusing_driver_panics = refl

xioctl-Ends_example : Ends slow_driver 0 ioctl_retry (xioctl slow_driver)
xioctl-Ends_example = xioctl-Ends slow_driver

-- A frame of a start of image, a start of frame, a scan and two bytes.
abbrev rest_of_frame : Bytes
rest_of_frame = 8 ∷ 255 ∷ 218 ∷ 1 ∷ 2 ∷ []

copy_frame-inserted_example :
    copy_frame (replicate 430 0) 430 (255 ∷ 216 ∷ start_of_frame rest_of_frame) 9
    ≡ some (record {
      dst =
          255
          ∷ 216
          ∷ (dht_data ++ (take 7 (start_of_frame rest_of_frame) ++ drop 429 (replicate 430 0)));
      size = 429;
    })
unfolding is_huffman is_huffman_from
copy_frame-inserted_example =
    copy_frame-inserted (255 ∷ 216 ∷ []) rest_of_frame (replicate 430 0) 430 7 refl (refl, tt)
      (omega arith) (omega arith) (omega arith) (omega arith)

abbrev frame_with_table : Bytes
frame_with_table = 255 ∷ 216 ∷ 255 ∷ 196 ∷ 0 ∷ []

copy_frame-same_example :
    ((2 ≤ 2048)
      × (copy_frame (replicate 6 0) 6 (frame_with_table ++ (7 ∷ [])) 5
          ≡ some (record { dst = frame_with_table ++ (0 ∷ []); size = 5 })))
    ⊎ ((2048 < 2) × (is_huffman (frame_with_table ++ (7 ∷ [])) ≡ some false))
copy_frame-same_example =
    copy_frame-same (255 ∷ 216 ∷ []) (0 ∷ []) (7 ∷ []) (replicate 6 0) 6 (refl, refl, tt)
      (omega arith)

copy_frame-overflow_example :
    copy_frame (replicate 20 0) 20 (255 ∷ 216 ∷ start_of_frame rest_of_frame) 9 ≡ none
unfolding is_huffman find_start_of_frame is_huffman_from
copy_frame-overflow_example =
    copy_frame-overflow (replicate 20 0) (255 ∷ 216 ∷ start_of_frame rest_of_frame) 9 2 refl refl
      (omega arith) (omega arith) (omega arith) (omega arith)

-- A driver buffer that is longer than the framebuffer.
abbrev camera : Device
camera = record {
  format_in = yuyv;
  framebuffer = 0 ∷ 0 ∷ [];
  framebuffer_size = 2;
  mem = (7 ∷ 8 ∷ 9 ∷ []) ∷ [];
}

capture_frame-clamped_example :
    capture_frame camera (some (record { index = 0; bytesused = 3 }))
    ≡ some (record { framebuffer = 7 ∷ 8 ∷ []; size = 3 })
capture_frame-clamped_example =
    capture_frame-clamped camera (record { index = 0; bytesused = 3 }) (inl refl) refl (omega arith)

-- A driver with one format and two frame sizes.
abbrev is_listed : Request → Bool
is_listed (enum_format i) = ltb i 1
is_listed (enum_frame_size f j) = ltb j 2
is_listed _ = true

abbrev small_driver : Driver
small_driver t r = record {
  answers = λ k. record { fails = not (is_listed r); is_temporary = false };
  captures = true;
  streams = true;
  reads = true;
  width = 4;
  height = 2;
  pixelformat = yuyv;
  index = 0;
  bytesused = 16;
}

abbrev mapped_memory : ℕ → Option Bytes
mapped_memory i = some (replicate 16 i)

abbrev zeros : ℕ → Bytes
zeros n = replicate n 0

abbrev beginning : World
beginning = record { time = 0; events = [] }

create_video_device-starts_example :
    (q : Queue) × (replay
        (create_video_device small_driver mapped_memory 9 zeros
          (some (47 ∷ 118 ∷ []))
          8
          6
          5
          yuyv
          80
          beginning).1.events
        no_queue
      ≡ some q)
    × Post
        (Created small_driver mapped_memory)
        Anything
        (create_video_device small_driver mapped_memory 9 zeros
          (some (47 ∷ 118 ∷ []))
          8
          6
          5
          yuyv
          80
          beginning).0
        q
    × Gives (Fitted small_driver mapped_memory zeros (agreed small_driver 1 8 6 yuyv)) (
        create_video_device small_driver mapped_memory 9 zeros
          (some (47 ∷ 118 ∷ []))
          8
          6
          5
          yuyv
          80
          beginning)
unfolding replay
create_video_device-starts_example =
    create_video_device-starts small_driver mapped_memory 9 zeros (some (47 ∷ 118 ∷ [])) 8 6 5 yuyv
      80 beginning refl

refusal-refuses :
    (b : Bool) → b ≡ false → xioctl (λ k. record { fails = not b; is_temporary = false }) ≢ success
unfolding xioctl xioctl_from
refusal-refuses true e = absurd (cc e)
refusal-refuses false e = λ h. cc h

-- The driver of this test chooses four by two pixels.
agreed_size : (agreed small_driver 1 8 6 yuyv).1.width ≡ 4
unfolding xioctl xioctl_from
agreed_size = refl

small_driver-Has : Has small_driver 1 2
small_driver-Has = record {
  no_format = λ t i h. refusal-refuses (ltb i 1) (le→ltb i 1 h);
  no_size = λ t j f h. refusal-refuses (ltb j 2) (le→ltb j 2 h);
}

enumerate-Lists_example :
    Yields (Lists small_driver yuyv 4 2 1 (1 * 2)) (enumerate small_driver yuyv 4 2 3 beginning).0
enumerate-Lists_example =
    enumerate-Lists small_driver yuyv 4 2 1 2 small_driver-Has 3 beginning (omega arith)
      (omega arith)
