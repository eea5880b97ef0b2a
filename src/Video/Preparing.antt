-- ===== src/Video/Preparing.antt =====
-- src/v4l2uvc.c: proofs about the order of the calls that choose a format and allocate the buffers.
use hawkeye.Base.{
  ℕ, zero, suc, ◌+◌, ◌<◌, ◌≡◌, refl, sym, ap, Bool, true, false, not, ◌||◌, ◌&&◌, Option, none,
  some, List, [], ◌∷◌, ◌++◌, arith, Bytes, length, length-append, ltb, ◌==◌, if◌then◌else◌, subst,
}
use hawkeye.Video.Calls.{
  set_format, query_buffer, queue_buffer, M, ◌>>=◌, pure, fail, Driver, Reply, call,
}
use hawkeye.Video.Capture.{Format, yuyv}
use hawkeye.Video.Enumerate.{same_format}
use hawkeye.Video.Listing.{Anything}
use hawkeye.Video.Setup.{
  VideoDevice, streaming_off, mapped, is_unknown, with_format, check_capabilities, choose_format,
  take_size, map_buffers, queue_buffers,
}
use hawkeye.Video.Protocol.{
  Queue, no_queue, is_free, allows, Keeps, At, pure-Keeps, fail-Keeps, then-Keeps, call-At,
  or_else-Keeps,
}

-- No buffer is queued, or the first `n` of the four are.
abbrev pub filled : ℕ → Queue
filled n = record { queued = ltb 0 n ∷ ltb 1 n ∷ ltb 2 n ∷ ltb 3 n ∷ []; streaming = false }

abbrev pub ready : Queue
ready = record { queued = true ∷ true ∷ true ∷ true ∷ []; streaming = true }

-- Functions on devices that leave the queue alone.
abbrev Idle : M VideoDevice → Type 0
Idle = Keeps no_queue (At no_queue) Anything

ends : Idle fail
ends = fail-Keeps {A = VideoDevice} (At no_queue) Anything no_queue tt

stays : (vd : VideoDevice) → Idle (pure vd)
stays vd = pure-Keeps (At no_queue) Anything no_queue vd refl

if-Idle : (b : Bool) (m k : M VideoDevice) → Idle m → Idle k → Idle (if b then m else k)
if-Idle true m k h l = h
if-Idle false m k h l = l

query-filled : (i j : ℕ) → i < 4 → allows (filled 0) (query_buffer i) j ≡ some (filled 0)
unfolding allows
query-filled i j h = ground (arith, h)

queue-filled : (i j : ℕ) → i < 4 → allows (filled i) (queue_buffer i) j ≡ some (filled (i + 1))
unfolding allows is_free
queue-filled zero j h = refl
queue-filled (suc zero) j h = refl
queue-filled (suc (suc zero)) j h = refl
queue-filled (suc (suc (suc zero))) j h = refl
queue-filled (suc (suc (suc (suc i)))) j h = absurd (omega arith)

module _ (driver : Driver) (mmap : ℕ → Option Bytes) where
  pub check_capabilities-Keeps :
      (vd : VideoDevice) (cap : Reply) → Idle (check_capabilities driver mmap vd cap)
  unfolding check_capabilities
  check_capabilities-Keeps vd cap =
      let off = stays (record vd { streaming_state = streaming_off }) in
      if-Idle (not cap.captures) _ _ ends (
        if-Idle vd.use_streaming _ _ (if-Idle (not cap.streams) _ _ ends off)
          (if-Idle (not cap.reads) _ _ ends off))

  -- A format is set, with any size, while no buffer is allocated.
  set_format-Keeps :
      (w h : ℕ) (f : Format) (vd : VideoDevice) (F : Queue → Type 0)
      → F no_queue
      → Keeps {A = VideoDevice × Reply} no_queue
          (At no_queue)
          F
          (call driver (set_format w h f) >>= λ fmt. pure (vd, fmt))
  unfolding allows
  set_format-Keeps w h f vd F ok =
      then-Keeps {B = VideoDevice × Reply} (At no_queue) F no_queue no_queue
        (call driver (set_format w h f)) _
        (call-At driver (set_format w h f) no_queue no_queue F ok (λ i. refl))
        (λ fmt. pure-Keeps {A = VideoDevice × Reply} (At no_queue) F no_queue (vd, fmt) refl)

  pub choose_format-Keeps :
      (vd : VideoDevice) → Keeps no_queue (At no_queue) Anything (choose_format driver mmap vd)
  unfolding choose_format
  choose_format-Keeps vd =
      or_else-Keeps (At no_queue) (λ q. q ≡ no_queue) Anything _ _ no_queue
        (set_format-Keeps vd.width vd.height vd.device.format_in vd (λ q. q ≡ no_queue) refl)
        (λ q at.
          subst
            (λ p. Keeps {A = VideoDevice × Reply} p (At no_queue) Anything (
              call driver (set_format vd.width vd.height yuyv) >>= λ fmt.
              pure (with_format vd yuyv, fmt)))
            (sym at) (set_format-Keeps vd.width vd.height yuyv (with_format vd yuyv) Anything tt))

  pub take_size-Keeps : (vd : VideoDevice) (fmt : Reply) → Idle (take_size driver mmap vd fmt)
  unfolding take_size
  take_size-Keeps vd fmt =
      if-Idle (not (fmt.width == vd.width) || not (fmt.height == vd.height)) _ _
        (if-Idle
          (not (same_format vd.device.format_in fmt.pixelformat)
            && not (is_unknown vd.device.format_in))
          _ _ ends (stays (record vd { width = fmt.width; height = fmt.height })))
        (stays vd)

  -- Each buffer is mapped.
  abbrev pub Mapped : List Bytes → Queue → Type 0
  Mapped mem q = (length mem ≡ 4) × (q ≡ filled 0)

  pub map_buffers-Keeps :
      (n i : ℕ) (mem : List Bytes)
      → i + n ≡ 4
      → length mem ≡ i
      → Keeps (filled 0) Mapped Anything (map_buffers driver mmap n i mem)
  unfolding map_buffers
  map_buffers-Keeps zero i mem e h =
      pure-Keeps Mapped Anything (filled 0) mem (omega (arith, e, h), refl)
  map_buffers-Keeps (suc n) i mem e h =
      then-Keeps Mapped Anything (filled 0) (filled 0) (call driver (query_buffer i)) _
        (call-At driver (query_buffer i) (filled 0) (filled 0) Anything tt
          (λ j. query-filled i j (omega (arith, e))))
        (λ reply. next (mmap i) (λ b.
          map_buffers-Keeps n (i + 1) (mem ++ (b ∷ [])) (omega (arith, e))
            (omega (arith, h, length-append {0} mem (b ∷ [])))))
    where
      next :
          (o : Option Bytes)
          → ((b : Bytes)
              → Keeps
                  (filled 0)
                  Mapped
                  Anything
                  (map_buffers driver mmap n (i + 1) (mem ++ (b ∷ []))))
          → Keeps
              (filled 0)
              Mapped
              Anything
              (mapped o (λ b. map_buffers driver mmap n (i + 1) (mem ++ (b ∷ []))))
      next none k = fail-Keeps Mapped Anything (filled 0) tt
      next (some b) k = k b

  pub queue_buffers-Keeps :
      (n i : ℕ)
      → i + n ≡ 4
      → Keeps (filled i) (At (filled 4)) Anything (queue_buffers driver mmap n i)
  unfolding queue_buffers
  queue_buffers-Keeps zero i e =
      let all : i ≡ 4 = omega (arith, e) in
      pure-Keeps (At (filled 4)) Anything (filled i) tt (ap filled all)
  queue_buffers-Keeps (suc n) i e =
      then-Keeps (At (filled 4)) Anything (filled i) (filled (i + 1)) (call driver (queue_buffer i))
        _
        (call-At driver (queue_buffer i) (filled i) (filled (i + 1)) Anything tt
          (λ j. queue-filled i j (omega (arith, e))))
        (λ _. queue_buffers-Keeps n (i + 1) (omega (arith, e)))
