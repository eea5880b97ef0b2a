-- ===== src/Config/File.antt =====
-- src/config.c: `read_line` and `read_config_file`. The buffer is what fgets of the C library leaves in
-- it, the line with its NUL and what is behind. A pointer into the line is the C string that it
-- leads to when the function returns.
use hawkeye.Base.{
  ℕ, ◌+◌, Bool, ◌||◌, Option, none, some, List, [], ◌∷◌, ◌++◌, Bytes, drop, length, ◌==◌,
  if◌then◌else◌,
}
use hawkeye.Base.Text.{cstr}
use hawkeye.Utils.Trim.{is_blank, trim}
use hawkeye.Config.Items.{
  ConfigItem, Store, Result, done, panics, ◌then_do◌, get_key_by_name, process_option,
}

-- The C string in front of the first '#', which the first loop makes its end.
unfoldable pub cut_comment : Bytes → Bytes
cut_comment [] = []
cut_comment (c ∷ cs) = let rest = cut_comment cs in if c == b'#' then [] else c ∷ rest

-- *name and *value.
pub record Names : Type 0 where
  pub name : Option Bytes
  pub value : Option Bytes

unfoldable pub is_separator : ℕ → Bool
is_separator c = is_blank c || c == b'='

-- The second loop behind the name. `behind` is the buffer from the NUL of the line on.
unfoldable pub find_value : Bytes → Bytes → Bytes → Names
find_value name behind [] = record { name = some name; value = none }
find_value name behind (c ∷ cs) =
    let rest = find_value name behind cs in
    if is_separator c
    then rest
    else record { name = some name; value = some (cstr (trim ((c ∷ cs) ++ behind))) }

-- The loop inside the name, of which `front` has been read.
unfoldable pub find_name_end : Bytes → Bytes → Bytes → Names
find_name_end front behind [] = record { name = some front; value = none }
find_name_end front behind (c ∷ cs) =
    let longer = find_name_end (front ++ (c ∷ [])) behind cs in
    if is_separator c then find_value front behind cs else longer

-- The loop in front of the name.
unfoldable pub find_name : Bytes → Bytes → Names
find_name behind [] = record { name = none; value = none }
find_name behind (c ∷ cs) =
    let rest = find_name behind cs in if is_blank c then rest else find_name_end (c ∷ []) behind cs

-- `read_line`. Behind the cut stand the NUL and the rest of the buffer.
unfoldable pub read_line : Bytes → Names
read_line buf = let line = cut_comment (cstr buf) in find_name (0 ∷ drop (length line + 1) buf) line

module _ (atoi : Bytes → ℕ) (con : List ConfigItem) where
  -- What happens with a name and a value; a null or an empty one is passed over.
  unfoldable pub set_named : Option Bytes → Option Bytes → Store → Result Store
  set_named none value s = done s
  set_named (some name) none s = done s
  set_named (some name) (some value) s =
      if length name == 0 || length value == 0
      then done s
      else if get_key_by_name con name == 0
      then panics
      else process_option atoi con (get_key_by_name con name) (some value) s

  -- The loop over the lines that fgets finds.
  unfoldable pub read_lines : List Bytes → Store → Result Store
  read_lines [] s = done s
  read_lines (buf ∷ bufs) s =
      set_named (read_line buf).name (read_line buf).value s then_do read_lines bufs

  -- `read_config_file`; the lines are `none` if fopen fails.
  unfoldable pub read_config_file : Option (List Bytes) → Store → Result Store
  read_config_file none s = panics
  read_config_file (some bufs) s = read_lines bufs s
