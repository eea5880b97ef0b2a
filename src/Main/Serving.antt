-- ===== src/Main/Serving.antt =====
-- src/main.c: proofs about the order of the device calls of the whole program, with a driver that serves it.
use hawkeye.Base.{
  ℕ, ◌≡◌, refl, sym, Bool, true, false, Option, none, some, List, [], ◌∷◌, Bytes, subst,
}
use hawkeye.Bitmap.{Stdio}
use hawkeye.Files.{Files}
use hawkeye.Settings.{Settings}
use hawkeye.Video.Calls.{World, Driver, stream_off, ◌>>◌, pure, call}
use hawkeye.Video.Setup.{
  VideoDevice, streaming_on, streaming_off, stop_streaming, video_disable, destroy_video_device,
  create_video_device,
}
use hawkeye.Video.Protocol.{
  Queue, no_queue, allows, replay, Post, Keeps, At, pure-Keeps, then-Keeps, >>=-Keeps,
  or_else-Keeps, call-Serves,
}
use hawkeye.Video.Listing.{Anything}
use hawkeye.Video.Preparing.{ready}
use hawkeye.Video.Started.{Created, create_video_device-Keeps}
use hawkeye.Main.Loop.{
  Camera, Round, grab_frame, camera_of, start_rounds, handle, main_loop, clean_up, run_camera,
}
use hawkeye.Main.Grabbing.{Serves, stopped, Running, grab_frame-Keeps}

module _ (driver : Driver) (serves : Serves driver) (mmap : ℕ → Option Bytes) (stdio : Stdio)
    (malloc : ℕ → Option Bytes) (s : Settings) where
  -- The loop is between two rounds, or has ended.
  abbrev pub Looped : Camera × Bool → Queue → Type 0
  Looped (c, ended) q = Running c q

  main_loop-Keeps :
      (rounds : List (Round stdio)) (running : Bool) (c : Camera) (q : Queue)
      → Running c q
      → Keeps q Looped Anything (main_loop driver mmap stdio malloc s rounds running c)
  unfolding main_loop
  main_loop-Keeps rounds false c q at = pure-Keeps Looped Anything q (c, true) at
  main_loop-Keeps [] true c q at = pure-Keeps Looped Anything q (c, false) at
  main_loop-Keeps (r ∷ rs) true c q at =
      >>=-Keeps Running Looped Anything (grab_frame driver mmap stdio malloc s r c) _ q
        (subst (λ p. Keeps p Running Anything (grab_frame driver mmap stdio malloc s r c))
          (sym at.1) (grab_frame-Keeps driver serves mmap stdio malloc s r c at.0))
        (main_loop-Keeps rs (handle r.signals true))

  -- Behind the program: streaming is off if the loop has ended.
  abbrev pub Finished : Camera × Bool → Queue → Type 0
  Finished (c, true) q = q ≡ stopped
  Finished (c, false) q = Running c q

  destroy-Keeps :
      (c : Camera)
      → c.vd.streaming_state ≡ streaming_on
      → Keeps ready Finished Anything (destroy_video_device driver mmap c.vd >> pure (c, true))
  unfolding destroy_video_device video_disable allows
  destroy-Keeps c on =
      then-Keeps Finished Anything ready stopped _ _
        (subst (λ st. Keeps ready (At stopped) Anything (stop_streaming driver mmap c.vd st))
          (sym on)
          (or_else-Keeps (At stopped) (λ q. ⊥) Anything _ _ ready
            (then-Keeps (At stopped) (λ q. ⊥) ready stopped _ _
              (then-Keeps (At stopped) (λ q. ⊥) ready stopped (call driver stream_off) _
                (call-Serves driver stream_off ready (At stopped) serves.stops
                  (λ t. (stopped, refl, refl)))
                (λ _.
                  pure-Keeps (At stopped) (λ q. ⊥) stopped
                    (record (c.vd) { streaming_state = streaming_off }) refl))
              (λ _. pure-Keeps (At stopped) (λ q. ⊥) stopped tt refl))
            (λ q never. absurd never)))
        (λ _. pure-Keeps Finished Anything stopped (c, true) refl)

  clean_up-Keeps :
      (p : Camera × Bool) (q : Queue)
      → Looped p q
      → Keeps q Finished Anything (clean_up driver mmap stdio malloc s p)
  unfolding clean_up
  clean_up-Keeps (c, false) q at = pure-Keeps Finished Anything q (c, false) at
  clean_up-Keeps (c, true) q at =
      subst
        (λ p. Keeps p Finished Anything (destroy_video_device driver mmap c.vd >> pure (c, true)))
        (sym at.1) (destroy-Keeps c at.0)

  start_rounds-Keeps :
      (rounds : List (Round stdio)) (files : Files) (o : Option VideoDevice) (q : Queue)
      → Created driver mmap o q
      → Keeps q Finished Anything (start_rounds driver mmap stdio malloc s rounds files o)
  start_rounds-Keeps rounds files none q at w e = (q, e, tt)
  start_rounds-Keeps rounds files (some vd) q at w e =
      >>=-Keeps Looped Finished Anything
        (main_loop driver mmap stdio malloc s rounds true
          (camera_of driver mmap stdio malloc s vd files))
        (clean_up driver mmap stdio malloc s) q
        (main_loop-Keeps rounds true (camera_of driver mmap stdio malloc s vd files) q (at.0, at.2))
        clean_up-Keeps w e

  -- With a driver that does not refuse to hand out, to queue or to stop for good and hands out one
  -- of the four buffers, the calls of the whole program, for any frames, files and signals, follow
  -- the order that V4L2 demands, from the set-up of the device to the end. Between two rounds the
  -- device streams and the driver has all four buffers; if the loop ends and the program does not
  -- exit or leave a buffer before, streaming is off and the driver has none.
  pub run_camera-serves :
      (fuel : ℕ) (fresh : ℕ → Bytes) (rounds : List (Round stdio)) (files : Files) (w : World)
      → replay w.events no_queue ≡ some no_queue
      → (q : Queue) × (replay
            (run_camera driver mmap stdio malloc s fuel fresh rounds files w).1.events
            no_queue
          ≡ some q)
        × Post Finished Anything
            (run_camera driver mmap stdio malloc s fuel fresh rounds files w).0
            q
  unfolding run_camera
  run_camera-serves fuel fresh rounds files w h =
      >>=-Keeps (Created driver mmap) Finished Anything
        (create_video_device driver mmap fuel fresh (some s.video_device_file) s.width s.height
          s.fps s.v4l2_format s.jpeg_quality)
        (start_rounds driver mmap stdio malloc s rounds files) no_queue
        (create_video_device-Keeps driver mmap fuel fresh (some s.video_device_file) s.width
          s.height s.fps s.v4l2_format s.jpeg_quality)
        (start_rounds-Keeps rounds files) w h
