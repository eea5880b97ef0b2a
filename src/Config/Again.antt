-- ===== src/Config/Again.antt =====
-- Reading the same command line once more, as `init_settings` of src/settings.c does.
use hawkeye.Base.{
  ℕ, ◌≡◌, refl, sym, ap, ◌∙◌, ◌⊎◌, inl, inr, true, false, Bool-cases, Option, none, some, List, [],
  ◌∷◌, Bytes, arith, ◌==◌,
}
use hawkeye.Config.Items.{
  DstType, config_bool, config_int, config_str, LongOption, ConfigItem, Value, Store, write, Result,
  done, panics, fault, ◌then_do◌, set_as, set_config_item_value, find_item, set_found,
  process_option,
}
use hawkeye.Config.CommandLine.{optstring, long_options, Found, process_options, read_command_line}

store_of : Result Store → Store → Store
store_of (done s) t = s
store_of panics t = t
store_of fault t = t

done_inj : (a b : Store) → done a ≡ done b → a ≡ b
unfolding store_of
done_inj a b e = ap (λ r. store_of r a) e

-- A call writes one variable, the same one with the same value in any store.
abbrev Writes : (Store → Result Store) → Type 0
Writes f = (d : ℕ) × (v : Value) × ((b : Store) → f b ≡ done (write b d v))

module _ (atoi : Bytes → ℕ) where
  set_as-Writes :
      (t : DstType) (d : ℕ) (o : Option Bytes) (a a1 : Store)
      → set_as atoi t d o a ≡ done a1
      → Writes (set_as atoi t d o)
  unfolding set_as
  set_as-Writes config_bool d none a a1 e = (d, _, λ b. refl)
  set_as-Writes config_bool d (some v) a a1 e = (d, _, λ b. refl)
  set_as-Writes config_str d none a a1 e = absurd (ground (arith, e))
  set_as-Writes config_str d (some v) a a1 e = (d, _, λ b. refl)
  set_as-Writes config_int d none a a1 e = absurd (ground (arith, e))
  set_as-Writes config_int d (some v) a a1 e = (d, _, λ b. refl)

  set_found-Writes :
      (c : Option ConfigItem) (o : Option Bytes) (a a1 : Store)
      → set_found atoi c o a ≡ done a1
      → Writes (set_found atoi c o)
  unfolding set_found set_config_item_value
  set_found-Writes none o a a1 e = absurd (ground (arith, e))
  set_found-Writes (some c) o a a1 e = set_as-Writes c.dst_type c.dst o a a1 e

  write-here : (s : Store) (d k : ℕ) (v : Value) → (k == d) ≡ true → write s d v k ≡ v
  unfolding write
  write-here s d k v h = rw h refl

  write-other : (s : Store) (d k : ℕ) (v : Value) → (k == d) ≡ false → write s d v k ≡ s k
  unfolding write
  write-other s d k v h = rw h refl

  -- Two runs of the same options: at each variable they end alike, or neither touched it.
  abbrev Alike : Store → Store → Store → Store → Type 0
  Alike a b a' b' = (k : ℕ) → (a' k ≡ b' k) ⊎ ((a' k ≡ a k) × (b' k ≡ b k))

  Alike-write :
      (a b a' b' : Store) (d : ℕ) (v : Value)
      → Alike (write a d v) (write b d v) a' b'
      → Alike a b a' b'
  Alike-write a b a' b' d v h k = elim (h k) [
    | inl same ↦ inl same
    | inr (p, q) ↦ elim (Bool-cases (k == d)) [
      | inl here ↦ inl (p ∙ write-here a d k v here ∙ sym (q ∙ write-here b d k v here))
      | inr other ↦ inr (p ∙ write-other a d k v other, q ∙ write-other b d k v other)
    ]
  ]

  process_options-Alike :
      (con : List ConfigItem) (os : List Found) (a b a' : Store)
      → process_options atoi con os a ≡ done a'
      → (b' : Store) × (process_options atoi con os b ≡ done b') × Alike a b a' b'
  unfolding process_options process_option
  process_options-Alike con [] a b a' e =
      (b, refl, λ k. inr (ap (λ (s : Store). s k) (sym (done_inj a a' e)), refl))
  process_options-Alike con (o ∷ os) a b a' e =
      after (set_found atoi (find_item atoi con o.short_name) o.optarg a) refl e
        (process_options-Alike con os)
    where
      call : Store → Result Store
      call = set_found atoi (find_item atoi con o.short_name) o.optarg

      after :
          (r : Result Store)
          → call a ≡ r
          → (r then_do process_options atoi con os) ≡ done a'
          → ((a1 b1 a' : Store)
              → process_options atoi con os a1 ≡ done a'
              → (b' : Store) × (process_options atoi con os b1 ≡ done b') × Alike a1 b1 a' b')
          → (b' : Store) × ((call b then_do process_options atoi con os) ≡ done b')
            × Alike a b a' b'
      after (done a1) first rest later =
          let (d, v, at) = set_found-Writes (find_item atoi con o.short_name) o.optarg a a1 first in
          let first_is : a1 ≡ write a d v = done_inj a1 (write a d v) (sym first ∙ at a) in
          let (b', ends, alike) =
            later (write a d v) (write b d v) a'
              (ap (process_options atoi con os) (sym first_is) ∙ rest) in
          (b', rw (at b) ends, Alike-write a b a' b' d v alike)
      after panics first rest later = absurd (ground (arith, rest))
      after fault first rest later = absurd (ground (arith, rest))

-- When reading a command line succeeds, reading the same command line again succeeds too and leaves every
-- variable as it is, whatever options getopt_long finds in it, repeated ones included.
pub read_command_line_again :
    (atoi : Bytes → ℕ) (getopt_long : Bytes → List LongOption → List Bytes → List Found)
    (con : List ConfigItem) (argv : List Bytes) (before after : Store)
    → read_command_line atoi getopt_long con argv before ≡ done after
    → (again : Store) × (read_command_line atoi getopt_long con argv after ≡ done again)
      × ((k : ℕ) → again k ≡ after k)
unfolding read_command_line
read_command_line_again atoi getopt_long con argv before after e =
    let os = getopt_long (optstring con) (long_options con) argv in
    let (again, ends, alike) = process_options-Alike atoi con os before after after e in
    (again, ends, λ k. elim (alike k) [ inl same ↦ sym same | inr (_, q) ↦ q ])
