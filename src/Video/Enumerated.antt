-- ===== src/Video/Enumerated.antt =====
-- src/v4l2uvc.c: proofs about the lists of formats and frame sizes.
use hawkeye.Base.{
  ℕ, zero, suc, ◌+◌, ◌*◌, ◌≤◌, ◌<◌, ◌≡◌, ◌≢◌, refl, Bool, ◌&&◌, Option, none, some, [], ◌∷◌, arith,
  length, length-append, ltb, ltb→lt, ltb→le, ◌==◌, Bool-cases, inl, inr,
}
use hawkeye.Video.Ioctl.{success, xioctl}
use hawkeye.Video.Capture.{Format, unknown}
use hawkeye.Video.Calls.{enum_format, enum_frame_size, World, Driver, Reply, M, attempt, call}
use hawkeye.Video.Enumerate.{
  Resolution, Listed, nothing_listed, same_format, add_format, add_resolution, next_size,
  list_sizes, next_format, list_formats, enumerate,
}
use hawkeye.Video.Yielding.{Points, Points-added, Yields, >>=-Yields, Answered, attempt-Yields}

-- The driver has at most so many formats, and so many frame sizes for each.
pub record Has (driver : Driver) (formats sizes : ℕ) : Type 0 where
  pub no_format : (t i : ℕ) → formats ≤ i → xioctl (driver t (enum_format i)).answers ≢ success
  pub no_size :
      (t j : ℕ) (f : Format) → sizes ≤ j → xioctl (driver t (enum_frame_size f j)).answers ≢ success

mul_mono : (a b c : ℕ) → a ≤ b → a * c ≤ b * c
mul_mono zero b c h = omega arith
mul_mono (suc a) zero c h = absurd (omega (arith, h))
mul_mono (suc a) (suc b) c h = omega (arith, mul_mono a b c (omega (arith, h)))

abbrev no_resolution : Resolution
no_resolution = record { width = 0; height = 0; pixelformat = unknown }

module _ (driver : Driver) (format : Format) (width height : ℕ) where
  abbrev pub is_asked : Resolution → Bool
  is_asked r = same_format format r.pixelformat && (r.width == width && r.height == height)

  -- At most so many formats and resolutions, and the two indices point to what was asked for.
  abbrev pub Lists : ℕ → ℕ → Listed → Type 0
  Lists p q l =
      (length l.formats ≤ p)
      × (length l.resolutions ≤ q)
      × Points (λ f. same_format f format) unknown l.formats l.current_format_index
      × Points is_asked no_resolution l.resolutions l.current_resolution_index

  add_format-Lists :
      (p q : ℕ) (f : Format) (l : Listed) → Lists p q l → Lists (p + 1) q (add_format format f l)
  unfolding add_format
  add_format-Lists p q f l (few, small, points, sizes) = (
    omega (arith, few, length-append {0} l.formats (f ∷ [])),
    small,
    Points-added (λ f. same_format f format) unknown l.formats f l.current_format_index _ refl
        points,
    sizes,
  )

  add_resolution-Lists :
      (p q : ℕ) (f : Format) (size : Reply) (l : Listed)
      → Lists p q l
      → Lists p (q + 1) (add_resolution format width height f size l)
  unfolding add_resolution
  add_resolution-Lists p q f size l (few, small, points, sizes) =
      let r : Resolution = record { width = size.width; height = size.height; pixelformat = f } in
      (
        few,
        omega (arith, small, length-append {0} l.resolutions (r ∷ [])),
        points,
        Points-added is_asked no_resolution l.resolutions r l.current_resolution_index _ refl sizes,
      )

  Lists-mono : (p q q' : ℕ) (l : Listed) → q ≤ q' → Lists p q l → Lists p q' l
  Lists-mono p q q' l h (few, small, points, sizes) = (few, omega (arith, h, small), points, sizes)

  next_size-Yields :
      (R : Listed → Type 0) (P : Type 0) (more : Listed → M Listed) (f : Format) (l : Listed)
      → R l
      → (P
          → (size : Reply) (v : World)
          → Yields R (more (add_resolution format width height f size l) v).0)
      → (o : Option Reply) (v : World) → Answered P o
      → Yields R (next_size driver format width height more f l o v).0
  unfolding next_size
  next_size-Yields R P more f l h k none v _ = h
  next_size-Yields R P more f l h k (some size) v p = k p size v

  next_format-Yields :
      (R S : Listed → Type 0) (P : Type 0) (fuel : ℕ) (more : Listed → M Listed) (l : Listed)
      → R l
      → (P
          → (f : Format) (v : World)
          → Yields S (list_sizes driver format width height fuel 0 f (add_format format f l) v).0)
      → (P → (m : Listed) (v : World) → S m → Yields R (more m v).0)
      → (o : Option Reply) (v : World) → Answered P o
      → Yields R (next_format driver format width height fuel more l o v).0
  unfolding next_format
  next_format-Yields R S P fuel more l h k n none v _ = h
  next_format-Yields R S P fuel more l h k n (some desc) v p =
      >>=-Yields S R
        (list_sizes driver format width height fuel 0 desc.pixelformat
          (add_format format desc.pixelformat l))
        more v (k p desc.pixelformat v) (n p)

  module _ (nf ns : ℕ) (has : Has driver nf ns) where
    size_inside :
        (t j : ℕ) (f : Format) → xioctl (driver t (enum_frame_size f j)).answers ≡ success → j < ns
    size_inside t j f e = elim (Bool-cases (ltb j ns)) [
      | inl below ↦ ltb→lt j ns below
      | inr above ↦ absurd (has.no_size t j f (ltb→le j ns above) e)
    ]

    format_inside : (t i : ℕ) → xioctl (driver t (enum_format i)).answers ≡ success → i < nf
    format_inside t i e = elim (Bool-cases (ltb i nf)) [
      | inl below ↦ ltb→lt i nf below
      | inr above ↦ absurd (has.no_format t i (ltb→le i nf above) e)
    ]

    list_sizes-Lists :
        (fuel j p q : ℕ) (f : Format) (l : Listed) (w : World)
        → ns < fuel + j
        → j ≤ ns
        → Lists p (q + j) l
        → Yields (Lists p (q + ns)) (list_sizes driver format width height fuel j f l w).0
    unfolding list_sizes
    list_sizes-Lists zero j p q f l w enough low h = absurd (omega (arith, enough, low))
    list_sizes-Lists (suc fuel) j p q f l w enough low h =
        >>=-Yields (Answered (j < ns)) (Lists p (q + ns))
          (attempt (call driver (enum_frame_size f j))) _ w
          (attempt-Yields driver (enum_frame_size f j) (j < ns) w (size_inside w.time j f))
          (next_size-Yields (Lists p (q + ns)) (j < ns) _ f l
            (Lists-mono p (q + j) (q + ns) l (omega (arith, low)) h)
            (λ below size v.
              list_sizes-Lists fuel (j + 1) p q f (add_resolution format width height f size l) v
                (omega (arith, enough)) (omega (arith, below))
                (Lists-mono p (q + j + 1) (q + (j + 1)) _ (omega arith)
                  (add_resolution-Lists p (q + j) f size l h))))

    list_formats-Lists :
        (fuel n i : ℕ) (l : Listed) (w : World)
        → ns < fuel
        → nf < n + i
        → i ≤ nf
        → Lists i (i * ns) l
        → Yields (Lists nf (nf * ns)) (list_formats driver format width height fuel n i l w).0
    unfolding list_formats
    list_formats-Lists fuel zero i l w deep enough low h = absurd (omega (arith, enough, low))
    list_formats-Lists fuel (suc n) i l w deep enough low h =
        >>=-Yields (Answered (i < nf)) (Lists nf (nf * ns)) (attempt (call driver (enum_format i)))
          _ w (attempt-Yields driver (enum_format i) (i < nf) w (format_inside w.time i))
          (next_format-Yields (Lists nf (nf * ns)) (Lists (i + 1) (i * ns + ns)) (i < nf) fuel _ l
            (stop low h)
            (λ below f v.
              list_sizes-Lists fuel 0 (i + 1) (i * ns) f (add_format format f l) v
                (omega (arith, deep)) (omega arith)
                (Lists-mono (i + 1) (i * ns) (i * ns + 0) _ (omega arith)
                  (add_format-Lists i (i * ns) f l h)))
            (λ below m v at.
              list_formats-Lists fuel n (i + 1) m v deep (omega (arith, enough))
                (omega (arith, below))
                (Lists-mono (i + 1) (i * ns + ns) ((i + 1) * ns) m (grind arith) at)))
      where
        stop : i ≤ nf → Lists i (i * ns) l → Lists nf (nf * ns) l
        stop low (few, small, points, sizes) =
            (omega (arith, few, low), omega (arith, small, mul_mono i nf ns low), points, sizes)

    -- With a driver that has at most nf formats and ns frame sizes for each, and fuel for more than
    -- both, the enumeration of `create_video_device` comes to its end, unless a failing call ends
    -- the program. It lists at most nf formats and nf * ns resolutions, and the current format and
    -- the current resolution, where they are set, are in these lists and are what was asked for.
    pub enumerate-Lists :
        (fuel : ℕ) (w : World)
        → nf < fuel
        → ns < fuel
        → Yields (Lists nf (nf * ns)) (enumerate driver format width height fuel w).0
    unfolding enumerate
    enumerate-Lists fuel w deep long =
        list_formats-Lists fuel fuel 0 nothing_listed w long (omega (arith, deep)) (omega arith)
          (omega arith, omega arith, tt, tt)
