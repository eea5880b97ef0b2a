-- ===== src/Settings.antt =====
-- src/settings.c, src/settings.h: the variables that the command line sets, and what becomes of them.
-- A variable of struct settings is named by the letter of its option. realpath of the C library is a
-- parameter, as are atoi and getopt_long. Memory behind a pointer that is freed is left out.
use hawkeye.Base.{
  ℕ, Bool, true, false, Option, none, some, List, [], ◌∷◌, Bytes, length, ◌==◌, int_leb,
  if◌then◌else◌,
}
use hawkeye.Base.Text.{codes, str_eq}
use hawkeye.Config.Items.{
  config_bool, config_int, config_str, LongOption, ConfigItem, short_value, int_value, str_value,
  Value, Store, Result, done, panics, ◌then_do◌, new_item, Configured, add_config_item,
}
use hawkeye.Config.CommandLine.{Found, read_command_line}
use hawkeye.Video.Capture.{Format, yuyv, z16}
pub mod Variables
pub mod Launching
mod Tests

-- struct settings
pub record Settings : Type 0 where
  pub run_in_background : Bool
  pub fps : ℕ
  pub width : ℕ
  pub height : ℕ
  pub mm_scale : ℕ
  pub jpeg_quality : ℕ
  pub file_root : Bytes
  pub base_file_name : Bytes
  pub v4l2_format : Format
  pub video_device_count : ℕ
  pub video_device_file : Bytes
  pub profile_fps : ℕ
  pub enable_stripe_detect : Bool
  pub write_detect_image : Bool

abbrev pub setting_items : List ConfigItem
setting_items =
    new_item b'd' (codes "daemon") config_bool b'd' (codes "0")
    ∷ new_item b'F' (codes "fps") config_int b'F' (codes "6")
    ∷ new_item b'P' (codes "profile-fps") config_int b'P' (codes "0")
    ∷ new_item b'Q' (codes "write-detect-image") config_bool b'Q' (codes "0")
    ∷ new_item b'S' (codes "enable-stripe-detect") config_bool b'S' (codes "0")
    ∷ new_item b'W' (codes "width") config_int b'W' (codes "640")
    ∷ new_item b'H' (codes "height") config_int b'H' (codes "480")
    ∷ new_item b'm' (codes "mm-scale") config_int b'm' (codes "0")
    ∷ new_item b'j' (codes "quality") config_int b'j' (codes "80")
    ∷ new_item b'r' (codes "file-root") config_str b'r' (codes ".")
    ∷ new_item b'b' (codes "base-file-name") config_str b'b' (codes "image")
    ∷ new_item b'f' (codes "format") config_str b'f' (codes "z16")
    ∷ new_item b'D' (codes "device") config_str b'D' (codes "/dev/video0")
    ∷ new_item b'h' (codes "help") config_bool b'h' (codes "0")
    ∷ new_item b'v' (codes "version") config_bool b'v' (codes "0")
    ∷ []

-- The reads of variables by their types.
abbrev pub flag : Value → Bool
flag (short_value b) = b
flag _ = false

abbrev pub int : Value → ℕ
int (int_value n) = n
int _ = 0

abbrev pub str : Value → Bytes
str (str_value s) = s
str _ = []

-- max(1, min(most, v)) for ints, and `most` is not negative.
unfoldable pub clamp : ℕ → ℕ → ℕ
clamp most v = let low = if int_leb most v then most else v in if int_leb low 1 then 1 else low

unfoldable pub format_of : Bytes → Format
format_of name =
    let first = if str_eq name (codes "yuv") then yuyv else yuyv in
    if str_eq name (codes "z16") then z16 else first

-- What realpath finds, or the panic.
abbrev pub resolved : Option Bytes → Result Bytes
resolved none = panics
resolved (some path) = done path

-- `normalize_path`
unfoldable pub normalize_path : (Bytes → Option Bytes) → Bytes → Result Bytes
normalize_path realpath [] = done []
normalize_path realpath (c ∷ path) = resolved (realpath (c ∷ path))

-- The program goes on, or shows its usage and exits.
pub data Launch : Type 0 where
  run : Settings → Launch
  usage : Launch

module _ (atoi : Bytes → ℕ) (getopt_long : Bytes → List LongOption → List Bytes → List Found)
    (realpath : Bytes → Option Bytes) where
  unfoldable pub add_items : List ConfigItem → Configured → Result Configured
  add_items [] con = done con
  add_items (c ∷ cs) con = add_config_item atoi c con then_do add_items cs

  -- The settings from the variables and the path that normalize_path leaves.
  unfoldable pub settings_of : Store → Bytes → Settings
  settings_of s root = record {
    run_in_background = flag (s b'd');
    fps = clamp 50 (int (s b'F'));
    width = int (s b'W');
    height = int (s b'H');
    mm_scale = int (s b'm');
    jpeg_quality = clamp 100 (int (s b'j'));
    file_root = root;
    base_file_name = str (s b'b');
    v4l2_format = format_of (str (s b'f'));
    video_device_count = 1;
    video_device_file = str (s b'D');
    profile_fps = int (s b'P');
    enable_stripe_detect = flag (s b'S');
    write_detect_image = flag (s b'Q');
  }

  -- What follows the readings of the command line.
  unfoldable pub finish : Store → Result Launch
  finish s = normalize_path realpath (str (s b'r')) then_do λ root.
      done (if flag (s b'h') then usage else run (settings_of s root))

  -- `init_settings`, with the variables as they are at the start.
  unfoldable pub init_settings : List Bytes → Store → Result Launch
  init_settings argv s = add_items setting_items (record { items = []; store = s }) then_do λ con.
      read_command_line atoi getopt_long con.items argv con.store then_do λ s.
      read_command_line atoi getopt_long con.items argv s then_do finish
