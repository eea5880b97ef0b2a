-- ===== src/Video/Calls.antt =====
-- src/v4l2uvc.c: the calls of the device in a row. The driver is a parameter: its answers to the n-th
-- `xioctl` of the program, and what the call leaves in its argument when it succeeds.
use hawkeye.Base.{ℕ, ◌+◌, Bool, Option, none, some, List, [], ◌∷◌, ◌++◌}
use hawkeye.Video.Ioctl.{Answer, Outcome, success, error, panic, xioctl}
use hawkeye.Video.Capture.{Format}

-- The requests, with those of their arguments that the code sets.
pub data Request : Type 0 where
  query_capabilities : Request
  set_format : ℕ → ℕ → Format → Request
  set_parameters : ℕ → Request
  request_buffers : ℕ → Request
  query_buffer : ℕ → Request
  queue_buffer : ℕ → Request
  dequeue_buffer : Request
  stream_on : Request
  stream_off : Request
  enum_format : ℕ → Request
  enum_frame_size : Format → ℕ → Request

-- The fields that the code reads from what the driver leaves: capabilities, fmt.fmt.pix, and index
-- and bytesused of a buffer.
pub record Reply : Type 0 where
  pub answers : ℕ → Answer
  pub captures : Bool
  pub streams : Bool
  pub reads : Bool
  pub width : ℕ
  pub height : ℕ
  pub pixelformat : Format
  pub index : ℕ
  pub bytesused : ℕ

abbrev pub Driver : Type 0
Driver = ℕ → Request → Reply

-- A request that the driver has carried out, and the index that it has left.
pub record Event : Type 0 where
  pub request : Request
  pub index : ℕ

-- How many calls of xioctl there were, and what they have done.
pub record World : Type 0 where
  pub time : ℕ
  pub events : List Event

-- A function returns a value, returns -1, ends the program, leaves a buffer, or is still running when its
-- fuel is used up.
pub data Returned (A : Type 0) : Type 0 where
  returns : A → Returned A
  fails : Returned A
  exits : Returned A
  faults : Returned A
  runs_on : Returned A

abbrev pub of_option : {A : Type 0} → Option A → Returned A
of_option none = faults
of_option (some a) = returns a

infixl 5 ◌and_then◌
abbrev pub ◌and_then◌ : {A B : Type 0} → Returned A → (A → Returned B) → Returned B
returns a and_then f = f a
fails and_then f = fails
exits and_then f = exits
faults and_then f = faults
runs_on and_then f = runs_on

abbrev pub M : Type 0 → Type 0
M A = World → Returned A × World

abbrev pub go_on : {A B : Type 0} → (A → M B) → Returned A → World → Returned B × World
go_on f (returns a) w = f a w
go_on f fails w = (fails, w)
go_on f exits w = (exits, w)
go_on f faults w = (faults, w)
go_on f runs_on w = (runs_on, w)

infixl 5 ◌>>=◌ ◌>>◌
abbrev pub ◌>>=◌ : {A B : Type 0} → M A → (A → M B) → M B
◌>>=◌ m f w = let (r, v) = m w in go_on f r v

abbrev pub ◌>>◌ : {A B : Type 0} → M A → M B → M B
m >> k = m >>= λ _. k

abbrev pub pure : {A : Type 0} → A → M A
pure a w = (returns a, w)

-- What does not call the driver.
abbrev pub given : {A : Type 0} → Returned A → M A
given r w = (r, w)

abbrev pub fail : {A : Type 0} → M A
fail w = (fails, w)

abbrev pub exit : {A : Type 0} → M A
exit w = (exits, w)

abbrev pub recover : {A : Type 0} → M A → Returned A → World → Returned A × World
recover k (returns a) w = (returns a, w)
recover k fails w = k w
recover k exits w = (exits, w)
recover k faults w = (faults, w)
recover k runs_on w = (runs_on, w)

-- Goes on with the first function's value, or with the second function if it returns -1.
abbrev pub or_else : {A : Type 0} → M A → M A → M A
or_else m k w = let (r, v) = m w in recover k r v

abbrev pub run_on : {A : Type 0} → M A
run_on w = (runs_on, w)

-- The value, or `none` where the function returns -1.
abbrev pub attempt : {A : Type 0} → M A → M (Option A)
attempt m = or_else (m >>= λ a. pure (some a)) (pure none)

-- One `xioctl`, by its outcome.
unfoldable pub after : Outcome → Request → Reply → M Reply
after success r reply w = (
  returns reply,
  record {
    time = w.time + 1;
    events = w.events ++ (record { request = r; index = reply.index } ∷ []);
  },
)
after error r reply w = (fails, record w { time = w.time + 1 })
after panic r reply w = (exits, record w { time = w.time + 1 })

unfoldable pub call : Driver → Request → M Reply
call driver r w = let reply = driver w.time r in after (xioctl reply.answers) r reply w
