-- ===== src/Main/Grabbing.antt =====
-- src/main.c: proofs about the device calls of a round of the loop.
use hawkeye.Base.{
  ℕ, zero, suc, ◌<◌, ◌≡◌, ◌≢◌, refl, sym, true, false, Option, none, some, [], ◌∷◌, Bytes, arith,
  set, subst,
}
use hawkeye.Bitmap.{Stdio}
use hawkeye.Settings.{Settings}
use hawkeye.Video.Ioctl.{error, xioctl}
use hawkeye.Video.Capture.{Dequeued, capture_frame}
use hawkeye.Video.Calls.{
  Driver, Reply, dequeue_buffer, queue_buffer, stream_off, M, ◌>>=◌, ◌>>◌, pure, given, of_option,
  or_else, call,
}
use hawkeye.Video.Setup.{VideoDevice, streaming_on, requeue_device_buffer}
use hawkeye.Video.Protocol.{
  Queue, is_free, allows, Keeps, At, pure-Keeps, given-Keeps, then-Keeps, >>=-Keeps, or_else-Keeps,
  call-Serves,
}
use hawkeye.Video.Listing.{Anything}
use hawkeye.Video.Preparing.{ready}
use hawkeye.Main.Loop.{
  Camera, Round, dequeue, process, buffer_or_cleared, grab_into, grab_for, grab_frame,
}

-- The driver refuses none of these calls for good, and hands out one of the four buffers.
pub record Serves (driver : Driver) : Type 0 where
  pub dequeues : (t : ℕ) → xioctl (driver t dequeue_buffer).answers ≢ error
  pub hands_out : (t : ℕ) → (driver t dequeue_buffer).index < 4
  pub queues : (t i : ℕ) → xioctl (driver t (queue_buffer i)).answers ≢ error
  pub stops : (t : ℕ) → xioctl (driver t stream_off).answers ≢ error

-- The program has one of the buffers, and nothing streams any more.
abbrev taken : ℕ → Queue
taken i = record { queued = set (true ∷ true ∷ true ∷ true ∷ []) i false; streaming = true }

abbrev pub stopped : Queue
stopped = record { queued = false ∷ false ∷ false ∷ false ∷ []; streaming = false }

dequeue-ready : (i : ℕ) → i < 4 → allows ready dequeue_buffer i ≡ some (taken i)
unfolding allows
dequeue-ready zero h = refl
dequeue-ready (suc zero) h = refl
dequeue-ready (suc (suc zero)) h = refl
dequeue-ready (suc (suc (suc zero))) h = refl
dequeue-ready (suc (suc (suc (suc i)))) h = absurd (omega arith)

queue-taken : (i j : ℕ) → i < 4 → allows (taken i) (queue_buffer i) j ≡ some ready
unfolding allows is_free
queue-taken zero j h = refl
queue-taken (suc zero) j h = refl
queue-taken (suc (suc zero)) j h = refl
queue-taken (suc (suc (suc zero))) j h = refl
queue-taken (suc (suc (suc (suc i)))) j h = absurd (omega arith)

-- What `dequeue` leaves.
abbrev Took : Option Dequeued → Queue → Type 0
Took none q = ⊥
Took (some d) q = (d.index < 4) × (q ≡ taken d.index)

abbrev Handed : Reply → Queue → Type 0
Handed r q = (r.index < 4) × (q ≡ taken r.index)

-- Between two rounds.
abbrev pub Running : Camera → Queue → Type 0
Running c q = (c.vd.streaming_state ≡ streaming_on) × (q ≡ ready)

module _ (driver : Driver) (serves : Serves driver) (mmap : ℕ → Option Bytes) (stdio : Stdio)
    (malloc : ℕ → Option Bytes) (s : Settings) where
  dequeue-Keeps : Keeps ready Took Anything (dequeue driver mmap stdio malloc s)
  unfolding dequeue
  dequeue-Keeps =
      or_else-Keeps Took (λ q. ⊥) Anything _ _ ready
        (>>=-Keeps Handed Took (λ q. ⊥) (call driver dequeue_buffer) _ ready
          (call-Serves driver dequeue_buffer ready Handed serves.dequeues
            (λ t. (taken _, dequeue-ready _ (serves.hands_out t), (serves.hands_out t, refl))))
          (λ r q at.
            pure-Keeps Took (λ q. ⊥) q (some (record { index = r.index; bytesused = r.bytesused }))
              at))
        (λ q never. absurd never)

  requeue-Keeps :
      (vd : VideoDevice)
      → vd.buf.index < 4
      → Keeps
          (taken vd.buf.index)
          (At ready)
          Anything
          (or_else (requeue_device_buffer driver mmap vd) (pure tt))
  unfolding requeue_device_buffer
  requeue-Keeps vd low =
      or_else-Keeps (At ready) (λ q. ⊥) Anything _ _ (taken vd.buf.index)
        (then-Keeps (At ready) (λ q. ⊥) (taken vd.buf.index) ready
          (call driver (queue_buffer vd.buf.index)) _
          (call-Serves driver (queue_buffer vd.buf.index) (taken vd.buf.index) (At ready)
            (λ t. serves.queues t vd.buf.index)
            (λ t. (ready, queue-taken vd.buf.index _ low, refl)))
          (λ _. pure-Keeps (At ready) (λ q. ⊥) ready tt refl))
        (λ q never. absurd never)

  grab_into-Keeps :
      (buf : Bytes) (r : Round stdio) (c : Camera)
      → c.vd.streaming_state ≡ streaming_on
      → Keeps ready Running Anything (grab_into driver mmap stdio malloc s buf r c)
  unfolding grab_into
  grab_into-Keeps buf r c on =
      >>=-Keeps Took Running Anything (dequeue driver mmap stdio malloc s) _ ready dequeue-Keeps
        (λ got. after got)
    where
      rest : Option Dequeued → M Camera
      rest got = do
        let vd = record (c.vd) { buf = buffer_or_cleared got }
        captured ← given (of_option (capture_frame vd.device got))
        st ← given (process driver mmap stdio malloc s r buf vd captured c.state)
        or_else (requeue_device_buffer driver mmap vd) (pure tt)
        pure (record {
          vd = record vd { device = record (vd.device) { framebuffer = captured.framebuffer } };
          state = st;
        })

      after : (got : Option Dequeued) (q : Queue) → Took got q → Keeps q Running Anything (rest got)
      after none q never = absurd never
      after (some d) q (low, at) =
          subst (λ p. Keeps p Running Anything (rest (some d))) (sym at)
            (then-Keeps Running Anything (taken d.index) (taken d.index) _ _
              (given-Keeps Anything (taken d.index) (of_option (capture_frame c.vd.device (some d)))
                tt)
              λ captured.
                then-Keeps Running Anything (taken d.index) (taken d.index) _ _
                  (given-Keeps Anything (taken d.index)
                    (process driver mmap stdio malloc s r buf (record (c.vd) { buf = d }) captured
                      c.state)
                    tt)
                  λ st.
                    then-Keeps Running Anything (taken d.index) ready _ _
                      (requeue-Keeps (record (c.vd) { buf = d }) low)
                      λ _.
                        pure-Keeps Running Anything ready
                          (record {
                            vd = record (c.vd) {
                              buf = d;
                              device = record (c.vd.device) { framebuffer = captured.framebuffer };
                            };
                            state = st;
                          })
                          (on, refl))

  pub grab_frame-Keeps :
      (r : Round stdio) (c : Camera)
      → c.vd.streaming_state ≡ streaming_on
      → Keeps ready Running Anything (grab_frame driver mmap stdio malloc s r c)
  unfolding grab_frame
  grab_frame-Keeps r c on = for r.buf
    where
      for :
          (o : Option Bytes)
          → Keeps ready Running Anything (grab_for driver mmap stdio malloc s r c o)
      for none = pure-Keeps Running Anything ready c (on, refl)
      for (some buf) = grab_into-Keeps buf r c on
