-- ===== src/Config/Items.antt =====
-- src/config.c, src/config.h: items of the configuration, and the writes through their pointers.
-- `dst` is the name of the variable pointed to, and a store holds what the variables do. `atoi` of
-- the C library is a parameter.
use hawkeye.Base.{
  ℕ, Bool, true, false, not, Option, none, some, List, [], ◌∷◌, ◌++◌, Bytes, ◌==◌, if◌then◌else◌,
}
use hawkeye.Base.Text.{str_eq}

-- CONFIG_BOOL, CONFIG_INT and CONFIG_STR.
pub data DstType : Type 0 where
  config_bool : DstType
  config_int : DstType
  config_str : DstType

-- struct option of getopt.h, less its flag, which is NULL.
pub record LongOption : Type 0 where
  pub name : Bytes
  pub has_arg : Bool
  pub val : ℕ

-- struct config_item; struct config is the list of its items.
pub record ConfigItem : Type 0 where
  pub short_name : ℕ
  pub long_name : Bytes
  pub dst_type : DstType
  pub dst : ℕ
  pub default_value : Bytes
  pub long_option : LongOption

pub data Value : Type 0 where
  short_value : Bool → Value
  int_value : ℕ → Value
  str_value : Bytes → Value

abbrev pub Store : Type 0
Store = ℕ → Value

unfoldable pub write : Store → ℕ → Value → Store
write s d v k = if k == d then v else s k

-- A call returns, exits the program by `user_panic`, or reads through NULL.
pub data Result {ℓ} (A : Type ℓ) : Type ℓ where
  done : A → Result A
  panics : Result A
  fault : Result A

infixl 5 ◌then_do◌
abbrev pub ◌then_do◌ {ℓ κ} : {A : Type ℓ} {B : Type κ} → Result A → (A → Result B) → Result B
done a then_do f = f a
panics then_do f = panics
fault then_do f = fault

abbrev pub is_bool : DstType → Bool
is_bool config_bool = true
is_bool _ = false

module _ (atoi : Bytes → ℕ) where
  -- `set_config_item_value` by the type and the pointer; `none` is NULL.
  unfoldable pub set_as : DstType → ℕ → Option Bytes → Store → Result Store
  set_as config_bool d none s = done (write s d (short_value true))
  set_as config_bool d (some v) s = done (write s d (short_value (not (atoi v == 0))))
  set_as config_str d none s = fault
  set_as config_str d (some v) s = done (write s d (str_value v))
  set_as config_int d none s = fault
  set_as config_int d (some v) s = done (write s d (int_value (atoi v)))

  unfoldable pub set_config_item_value : ConfigItem → Option Bytes → Store → Result Store
  set_config_item_value c value s = set_as c.dst_type c.dst value s

  -- The loop of `process_option`: the first item with the key.
  unfoldable pub find_item : List ConfigItem → ℕ → Option ConfigItem
  find_item [] key = none
  find_item (c ∷ con) key =
      let rest = find_item con key in if c.short_name == key then some c else rest

  unfoldable pub set_found : Option ConfigItem → Option Bytes → Store → Result Store
  set_found none value s = panics
  set_found (some c) value s = set_config_item_value c value s

  unfoldable pub process_option : List ConfigItem → ℕ → Option Bytes → Store → Result Store
  process_option con key value s = set_found (find_item con key) value s

abbrev pub new_item : ℕ → Bytes → DstType → ℕ → Bytes → ConfigItem
new_item short_name long_name dst_type dst default_value = record {
  short_name = short_name;
  long_name = long_name;
  dst_type = dst_type;
  dst = dst;
  default_value = default_value;
  long_option = record { name = long_name; has_arg = not (is_bool dst_type); val = short_name };
}

-- The items and the variables.
pub record Configured : Type 0 where
  pub items : List ConfigItem
  pub store : Store

-- `add_config_item`. The first value of a string variable is overwritten at once.
unfoldable pub add_config_item : (Bytes → ℕ) → ConfigItem → Configured → Result Configured
add_config_item atoi c con =
    set_config_item_value atoi c (some c.default_value) con.store then_do λ s.
    done (record { items = con.items ++ (c ∷ []); store = s })

-- `get_key_by_name`
unfoldable pub get_key_by_name : List ConfigItem → Bytes → ℕ
get_key_by_name [] name = 0
get_key_by_name (c ∷ con) name =
    let rest = get_key_by_name con name in if str_eq c.long_name name then c.short_name else rest
