-- ===== src/Video/Enumerate.antt =====
-- src/v4l2uvc.c: the enumeration of formats and frame sizes in `create_video_device`. Its loops end only when
-- the driver refuses an index, so they run on fuel: the number of indices that are tried at most, per loop. What
-- VIDIOC_G_FMT leaves is not read.
use hawkeye.Base.{
  ℕ, zero, suc, ◌+◌, Bool, true, false, ◌&&◌, Option, none, some, List, [], ◌∷◌, ◌++◌, length, ◌==◌,
  if◌then◌else◌,
}
use hawkeye.Video.Capture.{Format, mjpeg, yuyv, z16, unknown}
use hawkeye.Video.Calls.{
  Driver, Reply, enum_format, enum_frame_size, M, ◌>>=◌, pure, run_on, attempt, call,
}

-- struct resolution
pub record Resolution : Type 0 where
  pub width : ℕ
  pub height : ℕ
  pub pixelformat : Format

-- The formats and resolutions of struct video_device. An index that was never set is `none`.
pub record Listed : Type 0 where
  pub formats : List Format
  pub current_format_index : Option ℕ
  pub resolutions : List Resolution
  pub current_resolution_index : Option ℕ

abbrev pub nothing_listed : Listed
nothing_listed = record {
  formats = [];
  current_format_index = none;
  resolutions = [];
  current_resolution_index = none;
}

-- Formats other than the three are one format here.
unfoldable pub same_format : Format → Format → Bool
same_format mjpeg mjpeg = true
same_format yuyv yuyv = true
same_format z16 z16 = true
same_format unknown unknown = true
same_format _ _ = false

unfoldable pub add_format : Format → Format → Listed → Listed
add_format format found l = record l {
  formats = l.formats ++ (found ∷ []);
  current_format_index =
      if same_format found format then some (length l.formats) else l.current_format_index;
}

unfoldable pub add_resolution : Format → ℕ → ℕ → Format → Reply → Listed → Listed
add_resolution format width height found size l = record l {
  resolutions =
      l.resolutions
      ++ (record { width = size.width; height = size.height; pixelformat = found } ∷ []);
  current_resolution_index =
      if same_format format found && (size.width == width && size.height == height)
      then some (length l.resolutions)
      else l.current_resolution_index;
}

module _ (driver : Driver) (format : Format) (width height : ℕ) where
  -- The loop over the frame sizes of a format, from index `j`; an answer that is `none` is a refusal.
  unfoldable pub next_size : (Listed → M Listed) → Format → Listed → Option Reply → M Listed
  next_size more found l none = pure l
  next_size more found l (some size) = more (add_resolution format width height found size l)

  unfoldable pub list_sizes : ℕ → ℕ → Format → Listed → M Listed
  list_sizes zero j found l = run_on
  list_sizes (suc fuel) j found l =
      attempt (call driver (enum_frame_size found j))
      >>= next_size (list_sizes fuel (j + 1) found) found l

  -- The loop over the formats, from index `i`.
  unfoldable pub next_format : ℕ → (Listed → M Listed) → Listed → Option Reply → M Listed
  next_format fuel more l none = pure l
  next_format fuel more l (some desc) =
      list_sizes fuel 0 desc.pixelformat (add_format format desc.pixelformat l) >>= more

  unfoldable pub list_formats : ℕ → ℕ → ℕ → Listed → M Listed
  list_formats fuel zero i l = run_on
  list_formats fuel (suc n) i l =
      attempt (call driver (enum_format i)) >>= next_format fuel (list_formats fuel n (i + 1)) l

  unfoldable pub enumerate : ℕ → M Listed
  enumerate fuel = list_formats fuel fuel 0 nothing_listed
