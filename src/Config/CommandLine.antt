-- ===== src/Config/CommandLine.antt =====
-- src/config.c: `read_command_line`. getopt_long of the C library is a parameter: the options that
-- it finds, each with its argument. It answers '?' to an option that it does not know.
use hawkeye.Base.{ℕ, Option, List, [], ◌∷◌, Bytes, if◌then◌else◌}
use hawkeye.Config.Items.{
  ConfigItem, LongOption, Store, Result, done, is_bool, ◌then_do◌, process_option,
}

-- The string of short options.
unfoldable pub optstring : List ConfigItem → Bytes
optstring [] = []
optstring (c ∷ con) =
    let rest = optstring con in
    if is_bool c.dst_type then c.short_name ∷ rest else c.short_name ∷ b':' ∷ rest

-- The long options, without the entry of zeros that ends the array.
unfoldable pub long_options : List ConfigItem → List LongOption
long_options [] = []
long_options (c ∷ con) = c.long_option ∷ long_options con

pub record Found : Type 0 where
  pub short_name : ℕ
  pub optarg : Option Bytes

-- The loop over the options found.
unfoldable pub process_options : (Bytes → ℕ) → List ConfigItem → List Found → Store → Result Store
process_options atoi con [] s = done s
process_options atoi con (o ∷ os) s =
    process_option atoi con o.short_name o.optarg s then_do process_options atoi con os

unfoldable pub read_command_line :
    (Bytes → ℕ)
    → (Bytes → List LongOption → List Bytes → List Found)
    → List ConfigItem
    → List Bytes
    → Store
    → Result Store
read_command_line atoi getopt_long con argv s =
    process_options atoi con (getopt_long (optstring con) (long_options con) argv) s
