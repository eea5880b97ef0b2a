-- ===== src/Files.antt =====
-- Named files, as fopen, fwrite and rename change them: the way in which src/main.c, src/color_detect.c and
-- src/stripe_filter.c replace a file by a new one.
use hawkeye.Base.{
  ℕ, zero, suc, ◌≡◌, refl, ◌⊎◌, inl, inr, true, false, Option, none, some, List, [], ◌∷◌, ◌++◌,
  Bytes, arith, take, if◌then◌else◌,
}
use hawkeye.Base.Text.{str_eq}

-- The contents of the file at a path.
abbrev pub Files : Type 0
Files = Bytes → Option Bytes

-- fopen(path, "w+"), a write at the end of the file, and rename(from, to).
pub data FileStep : Type 0 where
  create : Bytes → FileStep
  append : Bytes → Bytes → FileStep
  rename : Bytes → Bytes → FileStep

unfoldable pub set_file : Bytes → Option Bytes → Files → Files
set_file path contents fs p = if str_eq p path then contents else fs p

abbrev appended : Option Bytes → Bytes → Option Bytes
appended none bytes = none
appended (some old) bytes = some (old ++ bytes)

-- rename fails, and changes nothing, if there is no file to rename.
abbrev renamed : Bytes → Bytes → Option Bytes → Files → Files
renamed from to none fs = fs
renamed from to (some contents) fs = set_file to (some contents) (set_file from none fs)

unfoldable pub file_step : FileStep → Files → Files
file_step (create path) fs = set_file path (some []) fs
file_step (append path bytes) fs = set_file path (appended (fs path) bytes) fs
file_step (rename from to) fs = renamed from to (fs from) fs

unfoldable pub file_steps : List FileStep → Files → Files
file_steps [] fs = fs
file_steps (s ∷ ss) fs = file_steps ss (file_step s fs)

-- Create a temporary file, write it, and move it to its name.
abbrev pub replace_steps : Bytes → Bytes → Bytes → List FileStep
replace_steps temp path bytes = create temp ∷ append temp bytes ∷ rename temp path ∷ []

pub str_eq_refl : (s : Bytes) → str_eq s s ≡ true
unfolding str_eq
str_eq_refl [] = refl
str_eq_refl (c ∷ s) = ground (arith, str_eq_refl s)

-- Whoever looks at the path between the steps finds the old file or the whole new one, and no
-- other file but the temporary one changes.
module _ (temp path bytes : Bytes) (fs : Files) (apart : str_eq path temp ≡ false) where
  pub replace_steps_atomic :
      (k : ℕ)
      → let now = file_steps (take k (replace_steps temp path bytes)) fs in
        ((now path ≡ fs path) ⊎ (now path ≡ some bytes))
        × ((other : Bytes)
            → str_eq other temp ≡ false
            → str_eq other path ≡ false
            → now other ≡ fs other)
  unfolding file_steps file_step set_file
  replace_steps_atomic zero = (inl refl, λ other a b. refl)
  replace_steps_atomic (suc zero) = (inl (rw apart refl), λ other a b. rw a refl)
  replace_steps_atomic (suc (suc zero)) =
      (inl (rw (str_eq_refl temp, apart) refl), λ other a b. rw (str_eq_refl temp, a) refl)
  replace_steps_atomic (suc (suc (suc zero))) = (
    inr (rw (str_eq_refl temp, str_eq_refl path) refl),
    λ other a b. rw (str_eq_refl temp, a, b) refl,
  )
  replace_steps_atomic (suc (suc (suc (suc k)))) = (
    inr (rw (str_eq_refl temp, str_eq_refl path) refl),
    λ other a b. rw (str_eq_refl temp, a, b) refl,
  )

  pub replace_steps-path : file_steps (replace_steps temp path bytes) fs path ≡ some bytes
  unfolding file_steps file_step set_file
  replace_steps-path = rw (str_eq_refl temp, str_eq_refl path) refl
