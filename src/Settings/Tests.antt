-- ===== src/Settings/Tests.antt =====
-- The settings of the command line -F 90 -j 0 -f yuv.
use hawkeye.Base.{
  ℕ, ◌+◌, ◌-◌, ◌*◌, ◌%◌, ◌^◌, ◌<◌, ◌≡◌, refl, false, Option, some, List, [], ◌∷◌, Bytes, arith,
}
use hawkeye.Base.Text.{codes, str_eq}
use hawkeye.Config.Items.{
  LongOption, short_value, Store, done, set_as, set_config_item_value, find_item, set_found,
  process_option, add_config_item, write,
}
use hawkeye.Config.CommandLine.{Found, process_options, read_command_line, optstring, long_options}
use hawkeye.Video.Capture.{yuyv}
use hawkeye.Settings.{
  setting_items, clamp, format_of, normalize_path, run, add_items, settings_of, finish,
  init_settings,
}
use hawkeye.Settings.Variables.{LastSet}
use hawkeye.Settings.Launching.{defaults, Ends, init_settings-Ends}

abbrev value_from : ℕ → Bytes → ℕ
value_from n [] = n
value_from n (c ∷ cs) = value_from (10 * n + (c - 48)) cs

abbrev atoi : Bytes → ℕ
atoi text = value_from 0 text % 2 ^ 32

atoi-lt : (text : Bytes) → atoi text < 2 ^ 32
atoi-lt text = omega arith

abbrev found : Bytes → List LongOption → List Bytes → List Found
found _ _ _ =
    record { short_name = b'F'; optarg = some (codes "90") }
    ∷ record { short_name = b'j'; optarg = some (codes "0") }
    ∷ record { short_name = b'f'; optarg = some (codes "yuv") }
    ∷ []

abbrev here : Bytes → Option Bytes
here path = some (codes "/tmp")

abbrev start : Store
start k = short_value false

launched :
    init_settings atoi found here [] start
    ≡ done (
        run (record {
          run_in_background = false;
          fps = 50;
          width = 640;
          height = 480;
          mm_scale = 0;
          jpeg_quality = 1;
          file_root = codes "/tmp";
          base_file_name = codes "image";
          v4l2_format = yuyv;
          video_device_count = 1;
          video_device_file = codes "/dev/video0";
          profile_fps = 0;
          enable_stripe_detect = false;
          write_detect_image = false;
        }))
unfolding init_settings add_items add_config_item set_config_item_value set_as write
    read_command_line process_options process_option set_found find_item finish normalize_path
    settings_of clamp format_of str_eq
launched = refl

init_settings-Ends_example :
    (t : Store) × LastSet atoi setting_items
      (defaults atoi setting_items start)
      (found (optstring setting_items) (long_options setting_items) [])
      t
    × Ends atoi atoi-lt found here t (init_settings atoi found here [] start)
unfolding find_item
init_settings-Ends_example =
    init_settings-Ends atoi atoi-lt found here [] start
      ((_, _, refl, refl), ((_, _, refl, refl), ((_, _, refl, refl), tt)))
