-- ===== src/Bitmap/Format.antt =====
-- src/bitmap.c and bitmap.h: the packed headers of a bitmap file, and the colour tables, as bytes.
use hawkeye.Base.{ℕ, zero, suc, ◌+◌, ◌/◌, ◌%◌, List, [], ◌∷◌, ◌++◌, Bytes}

-- `bmFileHeader`
pub record FileHeader : Type 0 where
  pub type : ℕ
  pub size : ℕ
  pub reserved1 : ℕ
  pub reserved2 : ℕ
  pub off_bytes : ℕ

-- `bmInfoHeader`
pub record InfoHeader : Type 0 where
  pub size : ℕ
  pub width : ℕ
  pub height : ℕ
  pub planes : ℕ
  pub bit_count : ℕ
  pub compression : ℕ
  pub size_image : ℕ
  pub x_pels_per_meter : ℕ
  pub y_pels_per_meter : ℕ
  pub clr_used : ℕ
  pub clr_important : ℕ

abbrev pub file_header_template : FileHeader
file_header_template = record {
  type = 19778;
  size = 0;
  reserved1 = 0;
  reserved2 = 0;
  off_bytes = 54;
}

abbrev pub info_header_template : InfoHeader
info_header_template = record {
  size = 40;
  width = 0;
  height = 0;
  planes = 1;
  bit_count = 24;
  compression = 0;
  size_image = 0;
  x_pels_per_meter = 0;
  y_pels_per_meter = 0;
  clr_used = 0;
  clr_important = 0;
}

-- A uint16_t and a uint32_t in memory, least byte first.
abbrev pub le16 : ℕ → Bytes
le16 n = (n % 256) ∷ (n / 256 % 256) ∷ []

abbrev pub le32 : ℕ → Bytes
le32 n = (n % 256) ∷ (n / 256 % 256) ∷ (n / 65536 % 256) ∷ (n / 16777216 % 256) ∷ []

-- The bytes of the packed structures.
unfoldable pub encode_file_header : FileHeader → Bytes
encode_file_header h =
    le16 h.type ++ (le32 h.size ++ (le16 h.reserved1 ++ (le16 h.reserved2 ++ le32 h.off_bytes)))

unfoldable pub encode_info_header : InfoHeader → Bytes
encode_info_header h =
    le32 h.size
    ++ (le32 h.width
        ++ (le32 h.height
            ++ (le16 h.planes
                ++ (le16 h.bit_count
                    ++ (le32 h.compression
                        ++ (le32 h.size_image
                            ++ (le32 h.x_pels_per_meter
                                ++ (le32 h.y_pels_per_meter
                                    ++ (le32 h.clr_used ++ le32 h.clr_important)))))))))

-- `rgbColorTableEntry`
pub record ColorEntry : Type 0 where
  pub blue : ℕ
  pub green : ℕ
  pub red : ℕ
  pub reserved : ℕ

unfoldable pub encode_table : List ColorEntry → Bytes
encode_table [] = []
encode_table (e ∷ es) = e.blue ∷ e.green ∷ e.red ∷ e.reserved ∷ encode_table es

abbrev pub gray : ℕ → ColorEntry
gray i = record { blue = i; green = i; red = i; reserved = 0 }

-- The entries `i` and on, `n` of them, that the loop of `bmInit` writes; the table is zeroed before.
unfoldable pub gray_from : ℕ → ℕ → List ColorEntry
gray_from zero i = []
gray_from (suc n) i = gray i ∷ gray_from n (i + 1)

-- `colorTable` after `bmInit`
unfoldable pub gray_table : List ColorEntry
unfolding gray_from
gray_table = gray_from 256 0
