-- ===== src/Video/Giving.antt =====
-- What a function of the device returns, if it returns a value.
use hawkeye.Video.Calls.{
  World, Returned, returns, fails, exits, faults, runs_on, M, ◌>>=◌, go_on, recover, exit,
}

-- What holds of the value, and of the calls so far, if one is returned.
abbrev pub Gives : {A : Type 0} → (A → World → Type 0) → Returned A × World → Type 0
Gives P (returns a, w) = P a w
Gives P (fails, w) = Unit
Gives P (exits, w) = Unit
Gives P (faults, w) = Unit
Gives P (runs_on, w) = Unit

abbrev pub Any : {A : Type 0} → A → World → Type 0
Any a w = Unit

pub all-Gives : {A : Type 0} (x : Returned A × World) → Gives Any x
all-Gives (returns a, w) = tt
all-Gives (fails, w) = tt
all-Gives (exits, w) = tt
all-Gives (faults, w) = tt
all-Gives (runs_on, w) = tt

module _ {A B : Type 0} (P : A → World → Type 0) (R : B → World → Type 0) where
  go_on-Gives :
      (f : A → M B) (x : Returned A × World)
      → Gives P x
      → ((a : A) (v : World) → P a v → Gives R (f a v))
      → Gives R (go_on f x.0 x.1)
  go_on-Gives f (returns a, v) p k = k a v p
  go_on-Gives f (fails, v) p k = tt
  go_on-Gives f (exits, v) p k = tt
  go_on-Gives f (faults, v) p k = tt
  go_on-Gives f (runs_on, v) p k = tt

  pub >>=-Gives :
      (m : M A) (f : A → M B) (w : World)
      → Gives P (m w)
      → ((a : A) (v : World) → P a v → Gives R (f a v))
      → Gives R ((m >>= f) w)
  >>=-Gives m f w p k = go_on-Gives f (m w) p k

pub or_exit-Gives :
    {A : Type 0} (P : A → World → Type 0) (x : Returned A × World)
    → Gives P x
    → Gives P (recover exit x.0 x.1)
or_exit-Gives P (returns a, v) p = p
or_exit-Gives P (fails, v) p = tt
or_exit-Gives P (exits, v) p = tt
or_exit-Gives P (faults, v) p = tt
or_exit-Gives P (runs_on, v) p = tt
