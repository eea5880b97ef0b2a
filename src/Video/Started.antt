-- ===== src/Video/Started.antt =====
-- src/v4l2uvc.c: proofs about the order of the calls that set up the device.
use hawkeye.Base.{
  ℕ, ◌+◌, ◌≡◌, refl, sym, ◌||◌, Option, none, some, [], Bytes, length, ◌==◌, if-intro, subst,
}
use hawkeye.Video.Calls.{
  query_capabilities, set_parameters, request_buffers, stream_on, World, ◌>>=◌, pure, Driver, call,
}
use hawkeye.Video.Capture.{Format, mjpeg, yuyv, z16, unknown}
use hawkeye.Video.Enumerate.{enumerate}
use hawkeye.Video.Listing.{Anything, enumerate-Keeps}
use hawkeye.Video.Setup.{
  VideoDevice, streaming_on, video_enable, check_capabilities, choose_format, take_size,
  map_buffers, queue_buffers, init_v4l2, new_device, with_framebuffer, create_video_device,
}
use hawkeye.Video.Protocol.{
  Queue, no_queue, allows, replay, Post, Keeps, pure-Keeps, then-Keeps, call-At, >>=-Keeps,
  or_else-Keeps,
}
use hawkeye.Video.Giving.{Gives}
use hawkeye.Video.Agreed.{agreed}
use hawkeye.Video.Allotted.{Fitted, create_video_device-Gives}
use hawkeye.Video.Preparing.{
  filled, ready, Mapped, check_capabilities-Keeps, choose_format-Keeps, take_size-Keeps,
  map_buffers-Keeps, queue_buffers-Keeps,
}

module _ (driver : Driver) (mmap : ℕ → Option Bytes) where
  -- The device streams from four buffers, all of which the driver has.
  abbrev pub Streams : VideoDevice → Queue → Type 0
  Streams vd q = (vd.streaming_state ≡ streaming_on) × (length vd.device.mem ≡ 4) × (q ≡ ready)

  video_enable-Keeps :
      (vd : VideoDevice)
      → length vd.device.mem ≡ 4
      → Keeps (filled 4) Streams Anything (video_enable driver mmap vd)
  unfolding video_enable allows
  video_enable-Keeps vd h =
      then-Keeps Streams Anything (filled 4) ready (call driver stream_on) _
        (call-At driver stream_on (filled 4) ready Anything tt (λ j. refl))
        (λ _.
          pure-Keeps Streams Anything ready (record vd { streaming_state = streaming_on })
            (refl, h, refl))

  init_v4l2-Keeps : (vd : VideoDevice) → Keeps no_queue Streams Anything (init_v4l2 driver mmap vd)
  unfolding init_v4l2 allows
  init_v4l2-Keeps vd =
      then-Keeps Streams Anything no_queue no_queue (call driver query_capabilities) _
        (call-At driver query_capabilities no_queue no_queue Anything tt (λ j. refl))
        λ cap.
          then-Keeps Streams Anything no_queue no_queue (check_capabilities driver mmap vd cap) _
            (check_capabilities-Keeps driver mmap vd cap)
            λ checked.
              then-Keeps Streams Anything no_queue no_queue (choose_format driver mmap checked) _
                (choose_format-Keeps driver mmap checked)
                λ p.
                  then-Keeps Streams Anything no_queue no_queue (take_size driver mmap p.0 p.1) _
                    (take_size-Keeps driver mmap p.0 p.1)
                    λ sized.
                      then-Keeps Streams Anything no_queue no_queue
                        (call driver (set_parameters sized.fps)) _
                        (call-At driver (set_parameters sized.fps) no_queue no_queue Anything tt
                          (λ j. refl))
                        λ _.
                          then-Keeps Streams Anything no_queue (filled 0)
                            (call driver (request_buffers 4)) _
                            (call-At driver (request_buffers 4) no_queue (filled 0) Anything tt
                              (λ j. refl))
                            λ _.
                              >>=-Keeps (Mapped driver mmap) Streams Anything
                                (map_buffers driver mmap 4 0 []) _ (filled 0)
                                (map_buffers-Keeps driver mmap 4 0 [] refl refl)
                                λ mem q at.
                                  subst
                                    (λ p. Keeps p Streams Anything (
                                      queue_buffers driver mmap 4 0 >>= λ _.
                                      video_enable driver mmap (record sized {
                                        device = record (sized.device) { mem = mem };
                                      })))
                                    (sym at.1)
                                    (then-Keeps Streams Anything (filled 0) (filled 4)
                                      (queue_buffers driver mmap 4 0) _
                                      (queue_buffers-Keeps driver mmap 4 0 refl)
                                      λ _.
                                        video_enable-Keeps
                                          (record sized {
                                            device = record (sized.device) { mem = mem };
                                          })
                                          at.0)

  -- What `create_video_device` leaves: no device and no buffers, or a device that streams.
  abbrev pub Created : Option VideoDevice → Queue → Type 0
  Created none q = q ≡ no_queue
  Created (some vd) q = Streams vd q

  with_framebuffer-Keeps :
      (fresh : ℕ → Bytes) (f : Format) (vd : VideoDevice)
      → vd.streaming_state ≡ streaming_on
      → length vd.device.mem ≡ 4
      → Keeps ready Created Anything
          (with_framebuffer driver mmap fresh f vd >>= λ made. pure (some made))
  unfolding with_framebuffer
  with_framebuffer-Keeps fresh mjpeg vd s h w e = (ready, e, (s, h, refl))
  with_framebuffer-Keeps fresh yuyv vd s h w e = (ready, e, (s, h, refl))
  with_framebuffer-Keeps fresh z16 vd s h w e = (ready, e, (s, h, refl))
  with_framebuffer-Keeps fresh unknown vd s h w e = (ready, e, tt)

  pub create_video_device-Keeps :
      (fuel : ℕ) (fresh : ℕ → Bytes) (name : Option Bytes) (width height fps : ℕ) (format : Format)
      (quality : ℕ)
      → Keeps no_queue Created Anything
          (create_video_device driver mmap fuel fresh name width height fps format quality)
  unfolding create_video_device
  create_video_device-Keeps fuel fresh none width height fps format quality =
      pure-Keeps Created Anything no_queue none refl
  create_video_device-Keeps fuel fresh (some name) width height fps format quality =
      if-intro (Keeps no_queue Created Anything) (width == 0 || height == 0)
        (λ _. pure-Keeps Created Anything no_queue none refl)
        (λ _.
          >>=-Keeps Streams Created Anything _ _ no_queue
            (or_else-Keeps Streams Anything Anything _ _ no_queue
              (init_v4l2-Keeps (new_device name width height fps format quality))
              (λ q any w e. (q, e, tt)))
            (λ vd q at.
              subst
                (λ p. Keeps p Created Anything (
                  enumerate driver format width height fuel >>= λ listed.
                  with_framebuffer driver mmap fresh vd.device.format_in
                    (record vd { listed = listed })
                  >>= λ made. pure (some made)))
                (sym at.2)
                (then-Keeps Created Anything ready ready (enumerate driver format width height fuel)
                  _ (enumerate-Keeps driver ready format width height fuel)
                  (λ listed.
                    with_framebuffer-Keeps fresh vd.device.format_in (record vd { listed = listed })
                      at.0 at.1))))

  -- Whatever the driver answers, the calls that `create_video_device` makes the driver carry out
  -- follow the order that V4L2 demands. If it returns a device, this streams and its four buffers
  -- are mapped and queued. Its format is the one that was asked for, or YUYV where the driver
  -- refused that; its width and height are those of the driver's answer to the accepted request.
  -- Its framebuffer is what malloc gives for framebuffer_size, which is two bytes for each pixel of
  -- that size, and in MJPEG for eight lines more, unless this number is no int, 2^31 or more. If it
  -- returns NULL, no buffers are allocated.
  pub create_video_device-starts :
      (fuel : ℕ) (fresh : ℕ → Bytes) (name : Option Bytes) (width height fps : ℕ) (format : Format)
      (quality : ℕ) (w : World)
      → replay w.events no_queue ≡ some no_queue
      → (q : Queue) × (replay
            (create_video_device driver mmap fuel fresh name width height fps format quality
              w).1.events
            no_queue
          ≡ some q)
        × Post Created Anything
            (create_video_device driver mmap fuel fresh name width height fps format quality w).0
            q
        × Gives
            (Fitted driver mmap fresh (agreed driver (w.time + 1) width height format))
            (create_video_device driver mmap fuel fresh name width height fps format quality w)
  create_video_device-starts fuel fresh name width height fps format quality w h =
      let (q, follows, created) =
        create_video_device-Keeps fuel fresh name width height fps format quality w h in
      (
        q,
        follows,
        created,
        create_video_device-Gives driver mmap fuel fresh name width height fps format quality w,
      )
