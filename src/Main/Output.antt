-- ===== src/Main/Output.antt =====
-- src/main.c: `write_frame`. What of the data fwrite and fflush bring to the disk, and whether fopen
-- succeeds, are arguments; what fwrite, fclose and rename return is ignored.
use hawkeye.Base.{
  ℕ, Bool, true, false, ◌&&◌, Option, none, some, [], ◌∷◌, ◌++◌, Bytes, ◌>>=◌, length, take, ltb,
  if◌then◌else◌,
}
use hawkeye.Base.Text.{codes}
use hawkeye.Files.{Files, file_steps, replace_steps}
use hawkeye.Settings.{Settings}
use hawkeye.Video.Calls.{Returned, returns, exits, of_option, ◌and_then◌}
use hawkeye.Video.Capture.{Format, yuyv, z16}

-- The static buffers, which hold the empty string at first.
pub record Paths : Type 0 where
  pub out_file_path : Bytes
  pub temp_out_file_path : Bytes

abbrev pub no_paths : Paths
no_paths = record { out_file_path = []; temp_out_file_path = [] }

pub record Disk : Type 0 where
  pub opens : Bool
  pub stored : Bytes → Bytes

-- sprintf to one of the buffers of 128 bytes.
unfoldable pub sprintf_path : Bytes → Option Bytes
sprintf_path text = if ltb (length text) 128 then some text else none

-- "%s/%s" and the ending.
unfoldable pub path_of : Settings → Bytes → Bytes
path_of s ending = s.file_root ++ (b'/' ∷ (s.base_file_name ++ ending))

unfoldable pub is_unset : Bytes → Bool
is_unset [] = true
is_unset (c ∷ cs) = false

unfoldable pub init_paths : Settings → Paths → Option Paths
init_paths s p =
    if is_unset p.out_file_path && is_unset p.temp_out_file_path
    then (sprintf_path (path_of s (codes ".jpg~")) >>= λ temp.
        sprintf_path (path_of s (codes ".jpg")) >>= λ out.
        some (record { out_file_path = out; temp_out_file_path = temp }))
    else some p

unfoldable pub is_output_format : Format → Bool
is_output_format yuyv = true
is_output_format z16 = true
is_output_format _ = false

-- The file behind the paths; `data_len` bytes are read from the data.
unfoldable pub replace_file : Disk → Bytes → ℕ → Paths → Files → Returned Files
replace_file disk frame data_len p files =
    if disk.opens
    then of_option (
        if ltb (length frame) data_len
        then none
        else some (
            file_steps
              (replace_steps p.temp_out_file_path p.out_file_path
                (disk.stored (take data_len frame)))
              files))
    else exits

unfoldable pub write_frame :
    Disk → Settings → Format → Bytes → ℕ → Paths → Files → Returned (Paths × Files)
write_frame disk s format frame data_len paths files = of_option (init_paths s paths) and_then λ p.
    (if is_output_format format then replace_file disk frame data_len p files else returns files)
    and_then λ after. returns (p, after)
