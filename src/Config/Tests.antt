-- ===== src/Config/Tests.antt =====
-- The command line of the program at a concrete input.
use hawkeye.Base.{ℕ, ◌≡◌, refl, true, false, none, some, List, [], ◌∷◌, Bytes, map, arith}
use hawkeye.Base.Text.{codes, cstr}
use hawkeye.Config.Items.{
  config_bool, config_int, LongOption, ConfigItem, short_value, int_value, Store, write, done,
  set_as, set_config_item_value, find_item, set_found, process_option, new_item,
}
use hawkeye.Config.CommandLine.{Found, process_options, read_command_line, optstring}
use hawkeye.Config.Again.{read_command_line_again}
use hawkeye.Utils.Trim.{is_blank, trim, clear_trailing, skip_leading, move_down}
use hawkeye.Config.File.{
  cut_comment, is_separator, find_value, find_name_end, find_name, read_line, read_config_file,
}
use hawkeye.Config.FileLines.{
  Setting, buffer_of, IsSetting, is_value, option_of, read_config_file-options,
}

abbrev items : List ConfigItem
items =
    new_item b'd' (codes "daemon") config_bool 0 (codes "0")
    ∷ new_item b'F' (codes "fps") config_int 1 (codes "10")
    ∷ []

abbrev first_digit : Bytes → ℕ
first_digit [] = 0
first_digit (c ∷ cs) = c

-- -F 5 -d -F 7
abbrev found : Bytes → List LongOption → List Bytes → List Found
found _ _ _ =
    record { short_name = b'F'; optarg = some (codes "5") }
    ∷ record { short_name = b'd'; optarg = none }
    ∷ record { short_name = b'F'; optarg = some (codes "7") }
    ∷ []

abbrev start : Store
start k = short_value false

abbrev end : Store
end = write (write (write start 1 (int_value b'5')) 0 (short_value true)) 1 (int_value b'7')

short_options : optstring items ≡ codes "dF:"
unfolding optstring
short_options = refl

read_command_line_again_example :
    (again : Store) × (read_command_line first_digit found items [] end ≡ done again)
    × ((k : ℕ) → again k ≡ end k)
unfolding read_command_line process_options process_option set_found find_item set_config_item_value
    set_as
read_command_line_again_example = read_command_line_again first_digit found items [] start end refl

-- A line that sets an option, between blanks and in front of a comment.
abbrev fps_line : Setting
fps_line = record {
  lead = codes "  ";
  initial = b'f';
  name = codes "ps";
  equals = b' ';
  separator = codes "= ";
  value = codes "15";
  trail = codes " ";
  comment = codes "# frames";
  behind = 10 ∷ 7 ∷ [];
}

fps_line-IsSetting : IsSetting fps_line
unfolding is_separator is_blank
fps_line-IsSetting = record {
  before = ground arith;
  named = ground arith;
  separated = ground arith;
  valued = is_value (codes "15") b'1' b'5' (codes "1") (codes "5") refl refl refl refl;
  plain = ground arith;
  after = ground arith;
  commented = refl;
  whole = ground arith;
}

names_of_line :
    read_line (buffer_of fps_line) ≡ record { name = some (codes "fps"); value = some (codes "15") }
unfolding read_line cut_comment find_name find_name_end find_value is_separator is_blank cstr trim
    clear_trailing skip_leading move_down
names_of_line = refl

read_config_file-options_example :
    read_config_file first_digit items (some (map buffer_of (fps_line ∷ []))) start
    ≡ process_options first_digit items
        (map (option_of first_digit items (omega arith)) (fps_line ∷ []))
        start
read_config_file-options_example =
    read_config_file-options first_digit items (omega arith) (fps_line ∷ []) start
      (fps_line-IsSetting, tt)
