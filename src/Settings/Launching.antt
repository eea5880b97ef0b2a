-- ===== src/Settings/Launching.antt =====
-- src/settings.c: proofs about the ways in which `init_settings` ends.
use hawkeye.Base.{
  ℕ, ◌≤◌, ◌<◌, ◌^◌, ◌≡◌, ◌≢◌, refl, sym, ap, ◌∙◌, ◌⊎◌, inl, inr, true, false, Option, none, some,
  List, [], ◌∷◌, Bytes, arith, ◌==◌, if◌then◌else◌, All, subst, if-intro, Option-cases, get_or,
}
use hawkeye.Base.Text.{codes}
use hawkeye.Config.Items.{
  config_bool, config_int, LongOption, ConfigItem, Value, int_value, Store, write, Result, done,
  panics, ◌then_do◌, set_as, set_config_item_value, find_item, new_item, add_config_item,
}
use hawkeye.Config.CommandLine.{Found, optstring, long_options, read_command_line}
use hawkeye.Config.Again.{read_command_line_again}
use hawkeye.Settings.{
  setting_items, flag, int, str, clamp, normalize_path, Launch, run, usage, add_items, settings_of,
  finish, init_settings,
}
use hawkeye.Settings.Variables.{
  written, value_or, last_set, Known, Lettered, LastSet, process_options-LastSet,
}

clamp_bounds :
    (most v : ℕ) → 1 ≤ most → most ≤ 100 → v < 2 ^ 32 → (1 ≤ clamp most v) × (clamp most v ≤ most)
unfolding clamp
clamp_bounds most v h k l = ground arith

-- The variables after all items are added.
abbrev pub defaults : (Bytes → ℕ) → List ConfigItem → Store → Store
defaults atoi [] s = s
defaults atoi (c ∷ cs) s =
    defaults atoi cs
      (write s c.dst (value_or atoi (s c.dst) (written atoi c.dst_type (some c.default_value))))

setting_items-Lettered : (atoi : Bytes → ℕ) → Lettered atoi setting_items
setting_items-Lettered atoi = omega arith

abbrev item_at : ℕ → ConfigItem
item_at i = get_or setting_items i (new_item 0 [] config_bool 0 [])

fps_item : (atoi : Bytes → ℕ) → find_item atoi setting_items b'F' ≡ some (item_at 1)
unfolding find_item
fps_item atoi = refl

quality_item : (atoi : Bytes → ℕ) → find_item atoi setting_items b'j' ≡ some (item_at 8)
unfolding find_item
quality_item atoi = refl

default_fps :
    (atoi : Bytes → ℕ) (s : Store)
    → defaults atoi setting_items s b'F' ≡ int_value (atoi (codes "6"))
unfolding write
default_fps atoi s = refl

default_quality :
    (atoi : Bytes → ℕ) (s : Store)
    → defaults atoi setting_items s b'j' ≡ int_value (atoi (codes "80"))
unfolding write
default_quality atoi s = refl

add_items-defaults :
    (atoi : Bytes → ℕ) (getopt_long : Bytes → List LongOption → List Bytes → List Found)
    (realpath : Bytes → Option Bytes) (s : Store)
    → add_items atoi getopt_long realpath setting_items (record { items = []; store = s })
      ≡ done (record { items = setting_items; store = defaults atoi setting_items s })
unfolding add_items add_config_item set_config_item_value set_as
add_items-defaults atoi getopt_long realpath s = refl

module _ (atoi : Bytes → ℕ) (ints : (text : Bytes) → atoi text < 2 ^ 32)
    (getopt_long : Bytes → List LongOption → List Bytes → List Found)
    (realpath : Bytes → Option Bytes) where
  last_set-lt :
      (k : ℕ) (os : List Found) (v : Value)
      → int v < 2 ^ 32
      → int (last_set atoi config_int k v os) < 2 ^ 32
  last_set-lt k [] v h = h
  last_set-lt k (o ∷ os) v h =
      last_set-lt k os
        (if o.short_name == k then value_or atoi v (written atoi config_int o.optarg) else v)
        (if-intro (λ w. int w < 2 ^ 32) (o.short_name == k) (λ on. chosen o.optarg) (λ off. h))
    where
      chosen : (a : Option Bytes) → int (value_or atoi v (written atoi config_int a)) < 2 ^ 32
      chosen none = h
      chosen (some a) = ints a

  abbrev Normalized : Bytes → Bytes → Type 0
  Normalized path root = ((path ≡ []) × (root ≡ [])) ⊎ ((path ≢ []) × (realpath path ≡ some root))

  -- How the program goes on with the variables `t`.
  pub data Ends (t : Store) : Result Launch → Type 0 where
    started :
        (root : Bytes)
        → Normalized (str (t b'r')) root
        → flag (t b'h') ≡ false
        → (1 ≤ (settings_of atoi getopt_long realpath t root).fps)
          × ((settings_of atoi getopt_long realpath t root).fps ≤ 50)
        → (1 ≤ (settings_of atoi getopt_long realpath t root).jpeg_quality)
          × ((settings_of atoi getopt_long realpath t root).jpeg_quality ≤ 100)
        → Ends t (done (run (settings_of atoi getopt_long realpath t root)))
    shown :
        (root : Bytes) → Normalized (str (t b'r')) root → flag (t b'h') ≡ true → Ends t (done usage)
    refused : str (t b'r') ≢ [] → realpath (str (t b'r')) ≡ none → Ends t panics

  launched-Ends :
      (t : Store) (root : Bytes)
      → int (t b'F') < 2 ^ 32
      → int (t b'j') < 2 ^ 32
      → Normalized (str (t b'r')) root
      → Ends t (
          done
            (if flag (t b'h') then usage else run (settings_of atoi getopt_long realpath t root)))
  unfolding settings_of
  launched-Ends t root fps quality n =
      if-intro (λ l. Ends t (done l)) (flag (t b'h')) (λ on. shown root n on)
        (λ off.
          started root n off (clamp_bounds 50 (int (t b'F')) (omega arith) (omega arith) fps)
            (clamp_bounds 100 (int (t b'j')) (omega arith) (omega arith) quality))

  finish-Ends :
      (t : Store)
      → int (t b'F') < 2 ^ 32
      → int (t b'j') < 2 ^ 32
      → Ends t (finish atoi getopt_long realpath t)
  unfolding finish normalize_path
  finish-Ends t fps quality = at_root (str (t b'r')) refl
    where
      at_root :
          (path : Bytes)
          → str (t b'r') ≡ path
          → Ends t (
              normalize_path realpath path then_do λ root.
              done (
                if flag (t b'h')
                then usage
                else run (settings_of atoi getopt_long realpath t root)))
      at_root [] e = launched-Ends t [] fps quality (inl (e, refl))
      at_root (c ∷ path) e = elim (Option-cases (realpath (c ∷ path))) [
        | inl missing ↦ rw missing (refused (λ f. cc) (ap realpath e ∙ missing))
        | inr (p, found) ↦
            rw found (launched-Ends t p fps quality (inr (λ f. cc, ap realpath e ∙ found)))
      ]

  -- If atoi returns ints and all options of the command line are known and have the argument that
  -- they need, then after both readings each variable has the value of the last option that sets
  -- it, or its default. The program goes on with 1 to 50 frames per second and a quality of 1 to
  -- 100, shows its usage if help was asked for, or panics where the root directory, if it is not
  -- empty, does not exist.
  pub init_settings-Ends :
      (argv : List Bytes) (s : Store)
      → All
          (Known atoi setting_items)
          (getopt_long (optstring setting_items) (long_options setting_items) argv)
      → (t : Store) × LastSet atoi setting_items
          (defaults atoi setting_items s)
          (getopt_long (optstring setting_items) (long_options setting_items) argv)
          t
        × Ends t (init_settings atoi getopt_long realpath argv s)
  unfolding init_settings read_command_line
  init_settings-Ends argv s known =
      let os = getopt_long (optstring setting_items) (long_options setting_items) argv in
      let start = defaults atoi setting_items s in
      let (t, ends, last) =
        process_options-LastSet atoi setting_items (setting_items-Lettered atoi) os start known in
      let (u, again, same) =
        read_command_line_again atoi getopt_long setting_items argv start t ends in
      let at_fps : u b'F' ≡ last_set atoi config_int b'F' (int_value (atoi (codes "6"))) os =
        same b'F'
        ∙ last b'F' _ (fps_item atoi)
        ∙ ap (λ v. last_set atoi config_int b'F' v os) (default_fps atoi s) in
      let at_quality : u b'j' ≡ last_set atoi config_int b'j' (int_value (atoi (codes "80"))) os =
        same b'j'
        ∙ last b'j' _ (quality_item atoi)
        ∙ ap (λ v. last_set atoi config_int b'j' v os) (default_quality atoi s) in
      (
        u,
        λ k c e. same k ∙ last k c e,
        rw (add_items-defaults atoi getopt_long realpath s, ends, again)
            (finish-Ends u
              (subst (λ v. int v < 2 ^ 32) (sym at_fps) (last_set-lt b'F' os _ (ints (codes "6"))))
              (subst (λ v. int v < 2 ^ 32) (sym at_quality)
                (last_set-lt b'j' os _ (ints (codes "80"))))),
      )
