-- ===== src/Main/Replacing.antt =====
-- src/main.c: proofs about the file that `write_frame` replaces.
use hawkeye.Base.{
  ℕ, ◌+◌, ◌≤◌, ◌<◌, ◌≡◌, refl, ap, ◌∙◌, ◌⊎◌, inl, inr, true, false, none, some, [], ◌∷◌, ◌++◌,
  arith, Bytes, length, length-append, take, ltb, lt→ltb, le→ltb, ltb→lt, ltb→le, Bool-cases,
}
use hawkeye.Base.Text.{codes, str_eq}
use hawkeye.Files.{Files, file_steps, replace_steps, replace_steps_atomic, replace_steps-path}
use hawkeye.Settings.{Settings}
use hawkeye.Video.Calls.{returns, faults}
use hawkeye.Video.Capture.{Format, yuyv, z16}
use hawkeye.Main.Output.{
  Paths, no_paths, Disk, sprintf_path, path_of, is_unset, init_paths, is_output_format,
  replace_file, write_frame,
}

-- Whoever looks at the paths between any two steps finds the old picture or the whole new one, and in the end
-- the new one. No other file changes, but for the temporary one.
abbrev pub Replaces : Bytes → Bytes → Bytes → Files → Files → Type 0
Replaces temp path bytes before after =
    (after ≡ file_steps (replace_steps temp path bytes) before)
    × ((k : ℕ)
        → let now = file_steps (take k (replace_steps temp path bytes)) before in
          ((now path ≡ before path) ⊎ (now path ≡ some bytes))
          × ((other : Bytes)
              → str_eq other temp ≡ false
              → str_eq other path ≡ false
              → now other ≡ before other))
    × (after path ≡ some bytes)

str_eq-prefix : (a b c : Bytes) → str_eq (a ++ b) (a ++ c) ≡ str_eq b c
unfolding str_eq
str_eq-prefix [] b c = refl
str_eq-prefix (x ∷ a) b c = ground (arith, str_eq-prefix a b c)

paths_apart : (s : Settings) → str_eq (path_of s (codes ".jpg")) (path_of s (codes ".jpg~")) ≡ false
unfolding path_of
paths_apart s =
    str_eq-prefix s.file_root _ _
    ∙ str_eq-prefix (b'/' ∷ s.base_file_name) (codes ".jpg") (codes ".jpg~")
    ∙ (unfold str_eq in refl)

length-path_of :
    (s : Settings) (ending : Bytes)
    → length (path_of s ending) ≡ length s.file_root + length s.base_file_name + length ending + 1
unfolding path_of
length-path_of s ending = omega (
  arith,
  length-append {0} s.file_root (b'/' ∷ (s.base_file_name ++ ending)),
  length-append {0} s.base_file_name ending,
)

-- The paths fit if the two names have 121 bytes together.
abbrev pub Fits : Settings → Type 0
Fits s = length s.file_root + length s.base_file_name ≤ 121

init_paths-fit :
    (s : Settings)
    → Fits s
    → init_paths s no_paths
      ≡ some (record {
        out_file_path = path_of s (codes ".jpg");
        temp_out_file_path = path_of s (codes ".jpg~");
      })
unfolding init_paths is_unset sprintf_path
init_paths-fit s h = rw (
  lt→ltb (length (path_of s (codes ".jpg~"))) 128
      (omega (arith, h, length-path_of s (codes ".jpg~"))),
  lt→ltb (length (path_of s (codes ".jpg"))) 128
      (omega (arith, h, length-path_of s (codes ".jpg"))),
)

init_paths-overrun :
    (s : Settings)
    → 121 < length s.file_root + length s.base_file_name
    → init_paths s no_paths ≡ none
unfolding init_paths is_unset sprintf_path
init_paths-overrun s h = rw (
    le→ltb (length (path_of s (codes ".jpg~"))) 128
      (omega (arith, h, length-path_of s (codes ".jpg~"))))

module _ (disk : Disk) (opens : disk.opens ≡ true) (s : Settings) (frame : Bytes) (data_len : ℕ)
    (inside : data_len ≤ length frame) (before : Files) where
  replaced : Paths → Files
  replaced p =
      file_steps
        (replace_steps p.temp_out_file_path p.out_file_path (disk.stored (take data_len frame)))
        before

  replace_file-eq : (p : Paths) → replace_file disk frame data_len p before ≡ returns (replaced p)
  unfolding replace_file replaced
  replace_file-eq p = rw (opens, le→ltb (length frame) data_len inside)

  -- The first picture of a format that is written, if the temporary file can be opened: where the root and
  -- the base name of the files have at most 121 bytes together, `write_frame` replaces the file ROOT/BASE.jpg by what
  -- reaches the disk of the data; whoever looks at that file between its steps finds the old contents or
  -- the whole new ones, and no file but that and the temporary one changes. With longer names
  -- the function writes past its buffer of 128 bytes.
  pub write_frame-Replaces :
      (format : Format)
      → (format ≡ yuyv) ⊎ (format ≡ z16)
      → (Fits s
          × (p : Paths) × (after : Files) × (write_frame disk s format frame data_len no_paths
                before
              ≡ returns (p, after))
          × Replaces
              (path_of s (codes ".jpg~"))
              (path_of s (codes ".jpg"))
              (disk.stored (take data_len frame))
              before
              after)
        ⊎ ((121 < length s.file_root + length s.base_file_name)
            × (write_frame disk s format frame data_len no_paths before ≡ faults))
  unfolding write_frame replaced
  write_frame-Replaces format known =
      elim (Bool-cases (ltb 121 (length s.file_root + length s.base_file_name))) [
        | inl long ↦
            let over : 121 < length s.file_root + length s.base_file_name = ltb→lt 121 _ long in
            inr (over, rw (init_paths-overrun s over) refl)
        | inr short ↦
            let fit : Fits s = ltb→le 121 _ short in
            let p : Paths = record {
              out_file_path = path_of s (codes ".jpg");
              temp_out_file_path = path_of s (codes ".jpg~");
            } in
            let temp = path_of s (codes ".jpg~") in
            let out = path_of s (codes ".jpg") in
            let bytes = disk.stored (take data_len frame) in
            inl (
              fit,
              p,
              replaced p,
              rw (init_paths-fit s fit, written format known, replace_file-eq p) refl,
              (
                refl,
                replace_steps_atomic temp out bytes before (paths_apart s),
                replace_steps-path temp out bytes before (paths_apart s),
              ),
            )
      ]
    where
      written :
          (format : Format) → (format ≡ yuyv) ⊎ (format ≡ z16) → is_output_format format ≡ true
      written format (inl e) = ap is_output_format e ∙ (unfold is_output_format in refl)
      written format (inr e) = ap is_output_format e ∙ (unfold is_output_format in refl)
