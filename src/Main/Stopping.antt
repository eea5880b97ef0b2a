-- ===== src/Main/Stopping.antt =====
-- src/main.c: proofs about the end of the loop of `main`.
use hawkeye.Base.{
  ℕ, ◌≡◌, refl, sym, ap, ◌∙◌, Bool, true, false, not, ◌||◌, Option, List, [], ◌∷◌, ◌++◌, Bytes, All,
}
use hawkeye.Bitmap.{Stdio}
use hawkeye.Settings.{Settings}
use hawkeye.Video.Calls.{
  Driver, M, ◌>>=◌, ◌>>◌, pure, World, Returned, returns, fails, exits, faults, runs_on, go_on,
}
use hawkeye.Video.Setup.{destroy_video_device}
use hawkeye.Main.Loop.{
  Signal, sigint, sigterm, signal_handler, handle, Camera, Round, grab_frame, main_loop, clean_up,
}

-- A signal that asks the program to end, and whether there is one among many.
abbrev pub asks_to_end : Signal → Bool
asks_to_end sigint = true
asks_to_end sigterm = true
asks_to_end _ = false

abbrev pub any_asks : List Signal → Bool
any_asks [] = false
any_asks (g ∷ gs) = asks_to_end g || any_asks gs

handle-false : (gs : List Signal) → handle gs false ≡ false
unfolding handle signal_handler
handle-false [] = refl
handle-false (sigint ∷ gs) = handle-false gs
handle-false (sigterm ∷ gs) = handle-false gs
handle-false (g ∷ gs) = handle-false gs

handle-any_asks : (gs : List Signal) → handle gs true ≡ not (any_asks gs)
unfolding handle signal_handler
handle-any_asks [] = refl
handle-any_asks (sigint ∷ gs) = handle-false gs
handle-any_asks (sigterm ∷ gs) = handle-false gs
handle-any_asks (g ∷ gs) = handle-any_asks gs

module _ (driver : Driver) (mmap : ℕ → Option Bytes) (stdio : Stdio) (malloc : ℕ → Option Bytes)
    (s : Settings) where
  -- The frames of all rounds, and the end of the program.
  abbrev pub grab_all : List (Round stdio) → Camera → M Camera
  grab_all [] c = pure c
  grab_all (r ∷ rs) c = grab_frame driver mmap stdio malloc s r c >>= grab_all rs

  abbrev pub end_camera : Camera → M (Camera × Bool)
  end_camera c = destroy_video_device driver mmap c.vd >> pure (c, true)

  >>=-assoc :
      {A B C : Type 0} (m : M A) (f : A → M B) (g : B → M C)
      → (m >>= f >>= g) ≡ (m >>= λ a. f a >>= g)
  >>=-assoc {A} {B} {C} m f g = λ i w. through (m w).0 (m w).1 i
    where
      through :
          (r : Returned A) (v : World)
          → (let (t, u) = go_on f r v in go_on g t u) ≡ go_on (λ a. f a >>= g) r v
      through (returns a) v = refl
      through fails v = refl
      through exits v = refl
      through faults v = refl
      through runs_on v = refl

  -- When no signal of some rounds asks the program to end and a signal of the next one does, then
  -- the loop, whatever would come later, takes the frames of these rounds and of that next one, and
  -- of no other, and then stops the device.
  pub main_loop-stops :
      (rs : List (Round stdio)) (r : Round stdio) (later : List (Round stdio)) (c : Camera)
      → All (λ q. any_asks q.signals ≡ false) rs
      → any_asks r.signals ≡ true
      → (main_loop driver mmap stdio malloc s (rs ++ (r ∷ later)) true c
          >>= clean_up driver mmap stdio malloc s)
        ≡ (grab_all (rs ++ (r ∷ [])) c >>= end_camera)
  unfolding main_loop clean_up
  main_loop-stops [] r later c h k =
      let grab = grab_frame driver mmap stdio malloc s r c in
      let clean = clean_up driver mmap stdio malloc s in
      let ended : handle r.signals true ≡ false = handle-any_asks r.signals ∙ ap not k in
      ap (λ b. grab >>= main_loop driver mmap stdio malloc s later b >>= clean) ended
      ∙ >>=-assoc grab (main_loop driver mmap stdio malloc s later false) clean
      ∙ sym (>>=-assoc grab pure end_camera)
  main_loop-stops (q ∷ rs) r later c h k =
      let grab = grab_frame driver mmap stdio malloc s q c in
      let clean = clean_up driver mmap stdio malloc s in
      let loop = main_loop driver mmap stdio malloc s (rs ++ (r ∷ later)) in
      let goes_on : handle q.signals true ≡ true = handle-any_asks q.signals ∙ ap not h.0 in
      ap (λ b. grab >>= loop b >>= clean) goes_on
      ∙ >>=-assoc grab (loop true) clean
      ∙ (λ i. grab >>= λ c'. main_loop-stops rs r later c' h.1 k i)
      ∙ sym (>>=-assoc grab (grab_all (rs ++ (r ∷ []))) end_camera)
