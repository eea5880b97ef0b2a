-- ===== src/Settings/Variables.antt =====
-- src/config.c: proofs about the variables behind the command line.
use hawkeye.Base.{
  ℕ, ◌≡◌, refl, sym, ap, ◌∙◌, inl, inr, true, false, not, Option, none, some, List, [], ◌∷◌, Bytes,
  arith, ◌==◌, if◌then◌else◌, All, Bool-cases, ==_iff,
}
use hawkeye.Config.Items.{
  DstType, config_bool, config_int, config_str, ConfigItem, Value, short_value, int_value,
  str_value, Store, write, done, set_as, set_config_item_value, find_item, set_found,
  process_option,
}
use hawkeye.Config.CommandLine.{Found, process_options}

module _ (atoi : Bytes → ℕ) where
  -- What an option with this argument writes; `none` where the argument is needed.
  abbrev pub written : DstType → Option Bytes → Option Value
  written config_bool none = some (short_value true)
  written config_bool (some a) = some (short_value (not (atoi a == 0)))
  written config_int (some a) = some (int_value (atoi a))
  written config_str (some a) = some (str_value a)
  written _ none = none

  set_as-written :
      (t : DstType) (d : ℕ) (o : Option Bytes) (s : Store) (v : Value)
      → written t o ≡ some v
      → set_as atoi t d o s ≡ done (write s d v)
  unfolding set_as
  set_as-written config_bool d none s v e = ground (arith, e)
  set_as-written config_bool d (some a) s v e = ground (arith, e)
  set_as-written config_int d none s v e = ground (arith, e)
  set_as-written config_int d (some a) s v e = ground (arith, e)
  set_as-written config_str d none s v e = ground (arith, e)
  set_as-written config_str d (some a) s v e = ground (arith, e)

  abbrev pub value_or : Value → Option Value → Value
  value_or v none = v
  value_or v (some w) = w

  -- The value of the last option with the letter, or the one before all options.
  abbrev pub last_set : DstType → ℕ → Value → List Found → Value
  last_set t k v [] = v
  last_set t k v (o ∷ os) =
      last_set t k (if o.short_name == k then value_or v (written t o.optarg) else v) os

  -- An option of the table, with its argument where it needs one.
  abbrev pub Known : List ConfigItem → Found → Type 0
  Known con o =
      (c : ConfigItem) × (v : Value) × (find_item atoi con o.short_name ≡ some c)
      × (written c.dst_type o.optarg ≡ some v)

  abbrev pub Lettered : List ConfigItem → Type 0
  Lettered = All (λ c. c.dst ≡ c.short_name)

  find_item-Lettered :
      (con : List ConfigItem) (k : ℕ) (c : ConfigItem)
      → Lettered con
      → find_item atoi con k ≡ some c
      → (c.short_name ≡ k) × (c.dst ≡ k)
  unfolding find_item
  find_item-Lettered [] k c h e = cc
  find_item-Lettered (d ∷ con) k c h e = ground (arith, h.0, find_item-Lettered con k c h.1)

  -- At each letter of the table stands the value of its last option.
  abbrev pub LastSet : List ConfigItem → Store → List Found → Store → Type 0
  LastSet con s os t =
      (k : ℕ) (c : ConfigItem)
      → find_item atoi con k ≡ some c
      → t k ≡ last_set c.dst_type k (s k) os

  module _ (con : List ConfigItem) (lettered : Lettered con) where
    process_option-written :
        (o : Found) (s : Store) (c : ConfigItem) (v : Value)
        → find_item atoi con o.short_name ≡ some c
        → written c.dst_type o.optarg ≡ some v
        → process_option atoi con o.short_name o.optarg s ≡ done (write s o.short_name v)
    unfolding process_option set_found set_config_item_value
    process_option-written o s c v found e = rw found (
        set_as-written c.dst_type c.dst o.optarg s v e
        ∙ ap (λ d. done (write s d v)) (find_item-Lettered con o.short_name c lettered found).1)

    write-last_set :
        (o : Found) (s : Store) (c : ConfigItem) (v : Value) (k : ℕ) (d : ConfigItem)
        → find_item atoi con o.short_name ≡ some c
        → written c.dst_type o.optarg ≡ some v
        → find_item atoi con k ≡ some d
        → write s o.short_name v k
          ≡ (if o.short_name == k then value_or (s k) (written d.dst_type o.optarg) else s k)
    unfolding write
    write-last_set o s c v k d found e at = elim (Bool-cases (o.short_name == k)) [
      | inl same ↦
          let here : o.short_name ≡ k = (==_iff o.short_name k).0 same in
          let item : d ≡ c = item_eq d c (sym at ∙ sym (ap (find_item atoi con) here) ∙ found) in
          let value : written d.dst_type o.optarg ≡ some v =
            ap (λ (x : ConfigItem). written x.dst_type o.optarg) item ∙ e in
          let back : (k == o.short_name) ≡ true = ground (arith, here) in
          rw (same, back, value) refl
      | inr other ↦
          let back : (k == o.short_name) ≡ false = ground (arith, other) in rw (other, back)
    ]
      where
        item_eq : (a b : ConfigItem) → some a ≡ some b → a ≡ b
        item_eq a b p = cc

    pub process_options-LastSet :
        (os : List Found) (s : Store)
        → All (Known con) os
        → (t : Store) × (process_options atoi con os s ≡ done t) × LastSet con s os t
    unfolding process_options
    process_options-LastSet [] s h = (s, refl, λ k c e. refl)
    process_options-LastSet (o ∷ os) s ((c, v, found, e), h) =
        let (t, ends, last) = process_options-LastSet os (write s o.short_name v) h in
        (
          t,
          rw (process_option-written o s c v found e) ends,
          λ k d at.
              last k d at
              ∙ ap (λ w. last_set d.dst_type k w os) (write-last_set o s c v k d found e at),
        )
