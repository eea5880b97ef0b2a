-- ===== src/Video/Protocol.antt =====
-- What V4L2 demands of the order of calls, and how functions that keep to it are put together.
use hawkeye.Base.{
  ℕ, ◌≡◌, ◌≢◌, refl, sym, ap, ◌∙◌, Bool, true, false, not, ◌&&◌, Option, none, some, List, [], ◌∷◌,
  ◌++◌, length, get_or, set, replicate, ltb, ◌==◌, if◌then◌else◌, subst,
}
use hawkeye.Video.Calls.{
  Request, query_capabilities, set_format, set_parameters, request_buffers, query_buffer,
  queue_buffer, dequeue_buffer, stream_on, stream_off, enum_format, enum_frame_size, Event, World,
  Returned, returns, fails, exits, faults, runs_on, M, go_on, recover, ◌>>=◌, or_else, pure, fail,
  given, Driver, Reply, call, after,
}
use hawkeye.Video.Ioctl.{Outcome, success, error, panic, xioctl}

-- The buffers that are allocated, by whether the driver has them, and whether it streams.
pub record Queue : Type 0 where
  pub queued : List Bool
  pub streaming : Bool

abbrev pub no_queue : Queue
no_queue = record { queued = []; streaming = false }

-- The buffer is allocated, and the program has it.
unfoldable pub is_free : List Bool → ℕ → Bool
is_free queued i = not (get_or queued i true)

-- The state behind a call that was carried out; `none` where V4L2 does not allow the call. Formats are set
-- while no buffers are allocated, buffers are allocated before streaming, a buffer is queued
-- only by who has it, streaming starts with buffers allocated, and the driver hands out a buffer that it has while it streams.
unfoldable pub allows : Queue → Request → ℕ → Option Queue
allows q query_capabilities i = some q
allows q (set_format w h f) i = if length q.queued == 0 then some q else none
allows q (set_parameters n) i = if q.streaming then none else some q
allows q (request_buffers n) i =
    if q.streaming then none else some (record { queued = replicate n false; streaming = false })
allows q (query_buffer n) i = if ltb n (length q.queued) then some q else none
allows q (queue_buffer n) i =
    if is_free q.queued n then some (record q { queued = set q.queued n true }) else none
allows q (enum_format n) i = some q
allows q (enum_frame_size f n) i = some q
allows q dequeue_buffer i =
    if q.streaming && get_or q.queued i false
    then some (record q { queued = set q.queued i false })
    else none
allows q stream_on i =
    if not q.streaming && not (length q.queued == 0)
    then some (record q { streaming = true })
    else none
allows q stream_off i =
    if q.streaming
    then some (record { queued = replicate (length q.queued) false; streaming = false })
    else none

infixl 5 ◌then_allow◌
abbrev pub ◌then_allow◌ : Option Queue → (Queue → Option Queue) → Option Queue
none then_allow f = none
some q then_allow f = f q

unfoldable pub replay : List Event → Queue → Option Queue
replay [] q = some q
replay (e ∷ es) q = allows q e.request e.index then_allow replay es

pub replay-append :
    (es fs : List Event) (q : Queue) → replay (es ++ fs) q ≡ (replay es q then_allow replay fs)
unfolding replay
replay-append [] fs q = refl
replay-append (e ∷ es) fs q = through (allows q e.request e.index) (replay-append es fs)
  where
    through :
        (o : Option Queue)
        → ((p : Queue) → replay (es ++ fs) p ≡ (replay es p then_allow replay fs))
        → (o then_allow replay (es ++ fs)) ≡ (o then_allow replay es then_allow replay fs)
    through none h = refl
    through (some p) h = h p

-- A function keeps to the protocol from a queue on, whatever the driver answers: the calls that were
-- carried out were allowed, `P` holds where it returns and `F` where it fails.
abbrev pub Post :
    {A : Type 0} → (A → Queue → Type 0) → (Queue → Type 0) → Returned A → Queue → Type 0
Post P F (returns a) q = P a q
Post P F fails q = F q
Post P F exits q = Unit
Post P F faults q = Unit
Post P F runs_on q = Unit

abbrev pub Keeps : {A : Type 0} → Queue → (A → Queue → Type 0) → (Queue → Type 0) → M A → Type 0
Keeps q P F m =
    (w : World)
    → replay w.events no_queue ≡ some q
    → (q' : Queue) × (replay (m w).1.events no_queue ≡ some q') × Post P F (m w).0 q'

module _ {A B : Type 0} (P : A → Queue → Type 0) (R : B → Queue → Type 0) (F : Queue → Type 0) where
  go_on-Post :
      (f : A → M B)
      → ((a : A) (q : Queue) → P a q → Keeps q R F (f a))
      → (r : Returned A) (v : World) (q : Queue) → replay v.events no_queue ≡ some q
      → Post P F r q
      → (q' : Queue) × (replay (go_on f r v).1.events no_queue ≡ some q')
        × Post R F (go_on f r v).0 q'
  go_on-Post f k (returns a) v q e p = k a q p v e
  go_on-Post f k fails v q e p = (q, e, p)
  go_on-Post f k exits v q e p = (q, e, tt)
  go_on-Post f k faults v q e p = (q, e, tt)
  go_on-Post f k runs_on v q e p = (q, e, tt)

  pub >>=-Keeps :
      (m : M A) (f : A → M B) (q : Queue)
      → Keeps q P F m
      → ((a : A) (q : Queue) → P a q → Keeps q R F (f a))
      → Keeps q R F (m >>= f)
  >>=-Keeps m f q h k w e = let (q', e', p) = h w e in go_on-Post f k (m w).0 (m w).1 q' e' p

module _ {A : Type 0} (P : A → Queue → Type 0) (F G : Queue → Type 0) where
  recover-Post :
      (k : M A)
      → ((q : Queue) → F q → Keeps q P G k)
      → (r : Returned A) (v : World) (q : Queue) → replay v.events no_queue ≡ some q
      → Post P F r q
      → (q' : Queue) × (replay (recover k r v).1.events no_queue ≡ some q')
        × Post P G (recover k r v).0 q'
  recover-Post k h (returns a) v q e p = (q, e, p)
  recover-Post k h fails v q e p = h q p v e
  recover-Post k h exits v q e p = (q, e, tt)
  recover-Post k h faults v q e p = (q, e, tt)
  recover-Post k h runs_on v q e p = (q, e, tt)

  pub or_else-Keeps :
      (m k : M A) (q : Queue)
      → Keeps q P F m
      → ((q : Queue) → F q → Keeps q P G k)
      → Keeps q P G (or_else m k)
  or_else-Keeps m k q h l w e = let (q', e', p) = h w e in recover-Post k l (m w).0 (m w).1 q' e' p

-- A call that is allowed, with what the driver replies.
pub call-Keeps :
    (driver : Driver) (r : Request) (q : Queue) (F : Queue → Type 0) (P : Reply → Queue → Type 0)
    → F q
    → ((reply : Reply) → (q' : Queue) × (allows q r reply.index ≡ some q') × P reply q')
    → Keeps q P F (call driver r)
unfolding call after replay
call-Keeps driver r q F P f p w e = by_outcome (xioctl (driver w.time r).answers) (driver w.time r)
  where
    by_outcome :
        (o : Outcome) (reply : Reply)
        → (q' : Queue) × (replay (after o r reply w).1.events no_queue ≡ some q')
          × Post P F (after o r reply w).0 q'
    by_outcome success reply =
        let event : Event = record { request = r; index = reply.index } in
        let (q', allowed, holds) = p reply in
        (
          q',
          replay-append w.events (event ∷ []) no_queue
              ∙ ap (λ o. o then_allow replay (event ∷ [])) e
              ∙ ap (λ o. o then_allow replay []) allowed,
          holds,
        )
    by_outcome error reply = (q, e, f)
    by_outcome panic reply = (q, e, tt)

-- The queue is known between the calls.
abbrev pub At : {A : Type 0} → Queue → A → Queue → Type 0
At p a q = q ≡ p

module _ {A : Type 0} (P : A → Queue → Type 0) (F : Queue → Type 0) (q : Queue) where
  pub pure-Keeps : (a : A) → P a q → Keeps q P F (pure a)
  pure-Keeps a p w e = (q, e, p)

  pub fail-Keeps : F q → Keeps q P F fail
  fail-Keeps f w e = (q, e, f)

pub then-Keeps :
    {A B : Type 0} (R : B → Queue → Type 0) (F : Queue → Type 0) (q p : Queue) (m : M A)
    (f : A → M B)
    → Keeps q (At p) F m
    → ((a : A) → Keeps p R F (f a))
    → Keeps q R F (m >>= f)
then-Keeps R F q p m f h k =
    >>=-Keeps (At p) R F m f q h (λ a q' at. subst (λ x. Keeps x R F (f a)) (sym at) (k a))

pub call-At :
    (driver : Driver) (r : Request) (q p : Queue) (F : Queue → Type 0)
    → F q
    → ((i : ℕ) → allows q r i ≡ some p)
    → Keeps q (At p) F (call driver r)
call-At driver r q p F f h = call-Keeps driver r q F (At p) f (λ reply. (p, h reply.index, refl))

pub given-Keeps :
    {A : Type 0} (F : Queue → Type 0) (q : Queue) (r : Returned A)
    → F q
    → Keeps q (At q) F (given r)
given-Keeps F q (returns a) f w e = (q, e, refl)
given-Keeps F q fails f w e = (q, e, f)
given-Keeps F q exits f w e = (q, e, tt)
given-Keeps F q faults f w e = (q, e, tt)
given-Keeps F q runs_on f w e = (q, e, tt)

-- A call that the driver never refuses.
pub call-Serves :
    (driver : Driver) (r : Request) (q : Queue) (P : Reply → Queue → Type 0)
    → ((t : ℕ) → xioctl (driver t r).answers ≢ error)
    → ((t : ℕ) → (q' : Queue) × (allows q r (driver t r).index ≡ some q') × P (driver t r) q')
    → Keeps q P (λ q'. ⊥) (call driver r)
unfolding call after replay
call-Serves driver r q P never p w e = by_outcome (xioctl (driver w.time r).answers) (never w.time)
  where
    reply : Reply
    reply = driver w.time r

    by_outcome :
        (o : Outcome)
        → o ≢ error
        → (q' : Queue) × (replay (after o r reply w).1.events no_queue ≡ some q')
          × Post P (λ q'. ⊥) (after o r reply w).0 q'
    by_outcome success h =
        let event : Event = record { request = r; index = reply.index } in
        let (q', allowed, holds) = p w.time in
        (
          q',
          replay-append w.events (event ∷ []) no_queue
              ∙ ap (λ o. o then_allow replay (event ∷ [])) e
              ∙ ap (λ o. o then_allow replay []) allowed,
          holds,
        )
    by_outcome error h = absurd (h refl)
    by_outcome panic h = (q, e, tt)
