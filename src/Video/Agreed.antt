-- ===== src/Video/Agreed.antt =====
-- src/v4l2uvc.c: proofs about the format and the size that `init_v4l2` agrees on with the driver.
use hawkeye.Base.{
  ℕ, ◌+◌, ◌≡◌, refl, ◌∙◌, Bool, true, false, not, ◌||◌, ◌&&◌, Option, arith, Bytes, if-intro,
  if◌then◌else◌, subst, List, [], ◌==◌,
}
use hawkeye.Video.Ioctl.{Outcome, success, error, panic, xioctl}
use hawkeye.Video.Capture.{Format, yuyv}
use hawkeye.Video.Calls.{
  Request, query_capabilities, set_format, set_parameters, request_buffers, stream_on, World, fails,
  Driver, Reply, M, ◌>>=◌, ◌>>◌, go_on, recover, pure, after, call,
}
use hawkeye.Video.Enumerate.{same_format}
use hawkeye.Video.Setup.{
  VideoDevice, nb_buffer, streaming_on, streaming_off, with_format, is_unknown, video_enable,
  check_capabilities, choose_format, take_size, map_buffers, queue_buffers, init_v4l2,
}
use hawkeye.Video.Giving.{Gives, Any, all-Gives, >>=-Gives}

-- The format that V4L2 agrees to, and its answer: what was asked for in call `t`, or YUYV of this size in the next one
-- if that call is refused.
abbrev agreed_by : Driver → ℕ → ℕ → ℕ → Format → Outcome → Format × Reply
agreed_by driver t width height format success = (format, driver t (set_format width height format))
agreed_by driver t width height format _ = (yuyv, driver (t + 1) (set_format width height yuyv))

abbrev pub agreed : Driver → ℕ → ℕ → ℕ → Format → Format × Reply
agreed driver t width height format =
    agreed_by driver t width height format
      (xioctl (driver t (set_format width height format)).answers)

-- The device has the format that was agreed to and the size that the driver chose for it.
abbrev pub Agreed : Format × Reply → VideoDevice → Type 0
Agreed a vd = (vd.device.format_in ≡ a.0) × (vd.width ≡ a.1.width) × (vd.height ≡ a.1.height)

module _ (driver : Driver) (mmap : ℕ → Option Bytes) where
  -- What a function leaves alone.
  abbrev Same : VideoDevice → VideoDevice → Type 0
  Same vd d =
      (d.device.format_in ≡ vd.device.format_in) × (d.width ≡ vd.width) × (d.height ≡ vd.height)

  call-Gives : (r : Request) (w : World) → Gives (λ reply v. v.time ≡ w.time + 1) (call driver r w)
  unfolding call after
  call-Gives r w = by_outcome (xioctl (driver w.time r).answers) (driver w.time r)
    where
      by_outcome :
          (o : Outcome) (reply : Reply) → Gives (λ reply v. v.time ≡ w.time + 1) (after o r reply w)
      by_outcome success reply = refl
      by_outcome error reply = tt
      by_outcome panic reply = tt

  check_capabilities-Gives :
      (vd : VideoDevice) (cap : Reply) (w : World)
      → Gives (λ d v. Same vd d × (v.time ≡ w.time)) (check_capabilities driver mmap vd cap w)
  unfolding check_capabilities
  check_capabilities-Gives vd cap w = by_tests cap.captures vd.use_streaming cap.streams cap.reads
    where
      by_tests :
          (c u s r : Bool)
          → Gives
              (λ d v. Same vd d × (v.time ≡ w.time))
              ((if not c
                  then (λ w. (fails, w))
                  else if u
                  then (if not s
                      then (λ w. (fails, w))
                      else pure (record vd { streaming_state = streaming_off }))
                  else if not r
                  then (λ w. (fails, w))
                  else pure (record vd { streaming_state = streaming_off }))
                w)
      by_tests false u s r = tt
      by_tests true true false r = tt
      by_tests true true true r = ((refl, refl, refl), refl)
      by_tests true false s false = tt
      by_tests true false s true = ((refl, refl, refl), refl)

  choose_format-Gives :
      (vd : VideoDevice) (w : World)
      → Gives
          (λ (p : VideoDevice × Reply) v.
            ((p.0.device.format_in, p.1)
              ≡ agreed driver w.time vd.width vd.height vd.device.format_in)
            × (p.0.width ≡ vd.width)
            × (p.0.height ≡ vd.height))
          (choose_format driver mmap vd w)
  unfolding choose_format call after
  choose_format-Gives vd w =
      by_first (xioctl (driver w.time (set_format vd.width vd.height vd.device.format_in)).answers)
    where
      Chosen : Outcome → VideoDevice × Reply → World → Type 0
      Chosen o p v =
          ((p.0.device.format_in, p.1)
            ≡ agreed_by driver w.time vd.width vd.height vd.device.format_in o)
          × (p.0.width ≡ vd.width)
          × (p.0.height ≡ vd.height)

      by_second :
          (p : Outcome)
          → Gives (Chosen error) (
              let (r, v) =
                after p
                  (set_format vd.width vd.height yuyv)
                  (driver (w.time + 1) (set_format vd.width vd.height yuyv))
                  (record w { time = w.time + 1 }) in
              go_on (λ fmt. pure (with_format vd yuyv, fmt)) r v)
      by_second success = (refl, refl, refl)
      by_second error = tt
      by_second panic = tt

      by_first :
          (o : Outcome)
          → Gives (Chosen o) (
              let (r, v) =
                after o
                  (set_format vd.width vd.height vd.device.format_in)
                  (driver w.time (set_format vd.width vd.height vd.device.format_in))
                  w in
              let (s, u) = go_on (λ fmt. pure (vd, fmt)) r v in
              recover
                (call driver (set_format vd.width vd.height yuyv) >>= λ fmt.
                  pure (with_format vd yuyv, fmt))
                s
                u)
      by_first success = (refl, refl, refl)
      by_first error =
          by_second (xioctl (driver (w.time + 1) (set_format vd.width vd.height yuyv)).answers)
      by_first panic = tt

  take_size-Gives :
      (vd : VideoDevice) (fmt : Reply) (w : World)
      → Gives (λ d v. Agreed (vd.device.format_in, fmt) d) (take_size driver mmap vd fmt w)
  unfolding take_size
  take_size-Gives vd fmt w =
      if-intro (λ (m : M VideoDevice). Gives Taken (m w))
        (not (fmt.width == vd.width) || not (fmt.height == vd.height))
        (λ other.
          if-intro (λ (m : M VideoDevice). Gives Taken (m w))
            (not (same_format vd.device.format_in fmt.pixelformat)
              && not (is_unknown vd.device.format_in))
            (λ bad. tt) (λ fine. (refl, refl, refl)))
        (λ equal. (refl, ground (arith, equal), ground (arith, equal)))
    where
      Taken : VideoDevice → World → Type 0
      Taken d v = Agreed (vd.device.format_in, fmt) d

  -- The calls behind the choice of a size.
  start-Gives :
      (P : VideoDevice → Type 0) (vd : VideoDevice) (w : World)
      → ((mem : List Bytes)
          → P (record vd {
            device = record (vd.device) { mem = mem };
            streaming_state = streaming_on;
          }))
      → Gives
          (λ d v. P d)
          ((call driver (set_parameters vd.fps)
              >> (call driver (request_buffers nb_buffer)
                  >> (map_buffers driver mmap nb_buffer 0 [] >>= λ mem.
                      queue_buffers driver mmap nb_buffer 0
                      >> video_enable driver mmap
                          (record vd { device = record (vd.device) { mem = mem } }))))
            w)
  unfolding video_enable
  start-Gives P vd w p =
      >>=-Gives Any Done (call driver (set_parameters vd.fps)) _ w (all-Gives _) λ _ u _.
        >>=-Gives Any Done (call driver (request_buffers nb_buffer)) _ u (all-Gives _) λ _ v _.
          >>=-Gives Any Done (map_buffers driver mmap nb_buffer 0 []) _ v (all-Gives _) λ mem x _.
            >>=-Gives Any Done (queue_buffers driver mmap nb_buffer 0) _ x (all-Gives _)
              λ _ y _. >>=-Gives Any Done (call driver stream_on) _ y (all-Gives _) λ _ z _. p mem
    where
      Done : VideoDevice → World → Type 0
      Done d v = P d

  pub init_v4l2-Gives :
      (vd : VideoDevice) (w : World)
      → Gives
          (λ d v. Agreed (agreed driver (w.time + 1) vd.width vd.height vd.device.format_in) d)
          (init_v4l2 driver mmap vd w)
  unfolding init_v4l2
  init_v4l2-Gives vd w =
      >>=-Gives _ Done (call driver query_capabilities) _ w (call-Gives query_capabilities w)
        λ cap u at.
          >>=-Gives _ Done (check_capabilities driver mmap vd cap) _ u
            (check_capabilities-Gives vd cap u)
            λ checked v same.
              >>=-Gives _ Done (choose_format driver mmap checked) _ v
                (choose_format-Gives checked v)
                λ p x chosen.
                  >>=-Gives _ Done (take_size driver mmap p.0 p.1) _ x (take_size-Gives p.0 p.1 x)
                    λ sized y taken.
                      let asked : (p.0.device.format_in, p.1)
                          ≡ agreed driver (w.time + 1) vd.width vd.height vd.device.format_in =
                        chosen.0 ∙ (λ i.
                          agreed driver ((same.1 ∙ at) i) (same.0.1 i) (same.0.2 i) (same.0.0 i)) in
                      start-Gives
                        (Agreed (agreed driver (w.time + 1) vd.width vd.height vd.device.format_in))
                        sized y (λ mem. subst (λ a. Agreed a sized) asked taken)
    where
      Done : VideoDevice → World → Type 0
      Done d v = Agreed (agreed driver (w.time + 1) vd.width vd.height vd.device.format_in) d
