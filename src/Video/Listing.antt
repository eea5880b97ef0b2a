-- ===== src/Video/Listing.antt =====
-- src/v4l2uvc.c: proofs about the order of the calls that enumerate formats.
use hawkeye.Base.{ℕ, zero, suc, ◌+◌, ◌≡◌, refl, Option, none, some}
use hawkeye.Video.Capture.{Format}
use hawkeye.Video.Calls.{
  Request, enum_format, enum_frame_size, Driver, Reply, M, ◌>>=◌, pure, attempt, call,
}
use hawkeye.Video.Enumerate.{
  Listed, nothing_listed, add_format, add_resolution, next_size, list_sizes, next_format,
  list_formats, enumerate,
}
use hawkeye.Video.Protocol.{
  Queue, allows, Keeps, At, pure-Keeps, then-Keeps, or_else-Keeps, call-At,
}

abbrev pub Anything : Queue → Type 0
Anything q = Unit

module _ (driver : Driver) (q : Queue) where
  attempt-Keeps :
      (r : Request)
      → ((i : ℕ) → allows q r i ≡ some q)
      → Keeps q (At q) Anything (attempt (call driver r))
  attempt-Keeps r h =
      or_else-Keeps (At q) (At q tt) Anything (call driver r >>= λ a. pure (some a)) (pure none) q
        (then-Keeps (At q) (At q tt) q q (call driver r) (λ a. pure (some a))
          (call-At driver r q q (At q tt) refl h)
          (λ a. pure-Keeps (At q) (At q tt) q (some a) refl))
        (λ p at w e. (p, e, at))

  module _ (format : Format) (width height : ℕ) where
    next_size-Keeps :
        (more : Listed → M Listed) (found : Format) (l : Listed)
        → ((m : Listed) → Keeps q (At q) Anything (more m))
        → (o : Option Reply)
        → Keeps q (At q) Anything (next_size driver format width height more found l o)
    unfolding next_size
    next_size-Keeps more found l h none = pure-Keeps (At q) Anything q l refl
    next_size-Keeps more found l h (some size) = h (add_resolution format width height found size l)

    list_sizes-Keeps :
        (fuel j : ℕ) (found : Format) (l : Listed)
        → Keeps q (At q) Anything (list_sizes driver format width height fuel j found l)
    unfolding list_sizes allows
    list_sizes-Keeps zero j found l = λ w e. (q, e, tt)
    list_sizes-Keeps (suc fuel) j found l =
        then-Keeps (At q) Anything q q (attempt (call driver (enum_frame_size found j))) _
          (attempt-Keeps (enum_frame_size found j) (λ i. refl))
          (next_size-Keeps _ found l (list_sizes-Keeps fuel (j + 1) found))

    next_format-Keeps :
        (fuel : ℕ) (more : Listed → M Listed) (l : Listed)
        → ((m : Listed) → Keeps q (At q) Anything (more m))
        → (o : Option Reply)
        → Keeps q (At q) Anything (next_format driver format width height fuel more l o)
    unfolding next_format
    next_format-Keeps fuel more l h none = pure-Keeps (At q) Anything q l refl
    next_format-Keeps fuel more l h (some desc) =
        then-Keeps (At q) Anything q q
          (list_sizes driver format width height fuel 0 desc.pixelformat
            (add_format format desc.pixelformat l))
          more (list_sizes-Keeps fuel 0 desc.pixelformat (add_format format desc.pixelformat l)) h

    list_formats-Keeps :
        (fuel n i : ℕ) (l : Listed)
        → Keeps q (At q) Anything (list_formats driver format width height fuel n i l)
    unfolding list_formats allows
    list_formats-Keeps fuel zero i l = λ w e. (q, e, tt)
    list_formats-Keeps fuel (suc n) i l =
        then-Keeps (At q) Anything q q (attempt (call driver (enum_format i))) _
          (attempt-Keeps (enum_format i) (λ j. refl))
          (next_format-Keeps fuel _ l (list_formats-Keeps fuel n (i + 1)))

    pub enumerate-Keeps :
        (fuel : ℕ) → Keeps q (At q) Anything (enumerate driver format width height fuel)
    unfolding enumerate
    enumerate-Keeps fuel = list_formats-Keeps fuel fuel 0 nothing_listed
