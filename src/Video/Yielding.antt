-- ===== src/Video/Yielding.antt =====
-- Indices into lists, and functions that return a value or end the program.
use hawkeye.Base.{
  ℕ, zero, suc, ◌<◌, ◌≡◌, refl, ap, ◌∙◌, Bool, true, false, Option, none, some, List, [], ◌∷◌, ◌++◌,
  arith, length, length-append, get_or, if◌then◌else◌,
}
use hawkeye.Video.Ioctl.{Outcome, success, error, panic, xioctl}
use hawkeye.Video.Calls.{
  Request, World, Returned, returns, fails, exits, faults, runs_on, Driver, Reply, M, ◌>>=◌, go_on,
  recover, pure, attempt, after, call,
}

get_or-append :
    {A : Type 0} (xs ys : List A) (i : ℕ) (d : A)
    → i < length xs
    → get_or (xs ++ ys) i d ≡ get_or xs i d
get_or-append [] ys i d h = absurd (omega arith)
get_or-append (x ∷ xs) ys zero d h = refl
get_or-append (x ∷ xs) ys (suc i) d h = get_or-append xs ys i d (omega arith)

get_or-last : {A : Type 0} (xs : List A) (x d : A) → get_or (xs ++ (x ∷ [])) (length xs) d ≡ x
get_or-last [] x d = refl
get_or-last (y ∷ xs) x d = get_or-last xs x d

-- The index, if it was set, is that of an element of the list, which has the property.
abbrev pub Points : {A : Type 0} → (A → Bool) → A → List A → Option ℕ → Type 0
Points test d xs none = Unit
Points test d xs (some i) = (i < length xs) × (test (get_or xs i d) ≡ true)

module _ {A : Type 0} (test : A → Bool) (d : A) where
  Points-append :
      (xs : List A) (x : A) (o : Option ℕ) → Points test d xs o → Points test d (xs ++ (x ∷ [])) o
  Points-append xs x none p = tt
  Points-append xs x (some i) p = (
    omega (arith, p.0, length-append {0} xs (x ∷ [])),
    ap test (get_or-append xs (x ∷ []) i d p.0) ∙ p.1,
  )

  -- The index behind an element is added.
  pub Points-added :
      (xs : List A) (x : A) (o : Option ℕ) (b : Bool)
      → test x ≡ b
      → Points test d xs o
      → Points test d (xs ++ (x ∷ [])) (if b then some (length xs) else o)
  Points-added xs x o true e p =
      (omega (arith, length-append {0} xs (x ∷ [])), ap test (get_or-last xs x d) ∙ e)
  Points-added xs x o false e p = Points-append xs x o p

-- The function returns a value with the property, or ends the program.
abbrev pub Yields : {A : Type 0} → (A → Type 0) → Returned A → Type 0
Yields P (returns a) = P a
Yields P fails = ⊥
Yields P exits = Unit
Yields P faults = ⊥
Yields P runs_on = ⊥

pub >>=-Yields :
    {A B : Type 0} (P : A → Type 0) (R : B → Type 0) (m : M A) (f : A → M B) (w : World)
    → Yields P (m w).0
    → ((a : A) (v : World) → P a → Yields R (f a v).0)
    → Yields R ((m >>= f) w).0
>>=-Yields {A} {B} P R m f w h k = through (m w).0 (m w).1 h
  where
    through : (r : Returned A) (v : World) → Yields P r → Yields R (go_on f r v).0
    through (returns a) v p = k a v p
    through fails v p = absurd p
    through exits v p = tt
    through faults v p = absurd p
    through runs_on v p = absurd p

-- What an attempt yields: a refusal, or a reply, which some requests never get.
abbrev pub Answered : Type 0 → Option Reply → Type 0
Answered P none = Unit
Answered P (some r) = P

pub attempt-Yields :
    (driver : Driver) (r : Request) (P : Type 0) (w : World)
    → (xioctl (driver w.time r).answers ≡ success → P)
    → Yields (Answered P) (attempt (call driver r) w).0
unfolding call after
attempt-Yields driver r P w h = by_outcome (xioctl (driver w.time r).answers) h
  where
    by_outcome :
        (o : Outcome)
        → (o ≡ success → P)
        → (let (a, v) = after o r (driver w.time r) w in
            let (b, u) = go_on (λ x. pure (some x)) a v in
            Yields (Answered P) (recover (pure none) b u).0)
    by_outcome success k = k refl
    by_outcome error k = tt
    by_outcome panic k = tt
