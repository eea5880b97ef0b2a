-- ===== src/Video/Frames.antt =====
-- src/v4l2uvc.c, src/huffman.h: `is_huffman` and `copy_frame`. A source is the list of all bytes that
-- can be read from its pointer on, and `none` is an access out of bounds.
use hawkeye.Base.{
  ℕ, zero, suc, ◌+◌, ◌-◌, ◌*◌, ◌^◌, Bool, true, false, Option, none, some, [], ◌∷◌, Bytes, length,
  memcpy, ◌>>=◌, leb, ◌==◌, if◌then◌else◌, u64,
}

abbrev pub dht_data : Bytes
dht_data =
    255 ∷ 196 ∷ 1 ∷ 162 ∷ 0 ∷ 0 ∷ 1 ∷ 5 ∷ 1 ∷ 1 ∷ 1 ∷ 1 ∷ 1 ∷ 1 ∷ 0 ∷ 0 ∷ 0 ∷ 0 ∷ 0 ∷ 0 ∷ 0 ∷ 0 ∷ 1
    ∷ 2 ∷ 3 ∷ 4 ∷ 5 ∷ 6 ∷ 7 ∷ 8 ∷ 9 ∷ 10 ∷ 11 ∷ 1 ∷ 0 ∷ 3 ∷ 1 ∷ 1 ∷ 1 ∷ 1 ∷ 1 ∷ 1 ∷ 1 ∷ 1 ∷ 1 ∷ 0
    ∷ 0 ∷ 0 ∷ 0 ∷ 0 ∷ 0 ∷ 1 ∷ 2 ∷ 3 ∷ 4 ∷ 5 ∷ 6 ∷ 7 ∷ 8 ∷ 9 ∷ 10 ∷ 11 ∷ 16 ∷ 0 ∷ 2 ∷ 1 ∷ 3 ∷ 3 ∷ 2
    ∷ 4 ∷ 3 ∷ 5 ∷ 5 ∷ 4 ∷ 4 ∷ 0 ∷ 0 ∷ 1 ∷ 125 ∷ 1 ∷ 2 ∷ 3 ∷ 0 ∷ 4 ∷ 17 ∷ 5 ∷ 18 ∷ 33 ∷ 49 ∷ 65 ∷ 6
    ∷ 19 ∷ 81 ∷ 97 ∷ 7 ∷ 34 ∷ 113 ∷ 20 ∷ 50 ∷ 129 ∷ 145 ∷ 161 ∷ 8 ∷ 35 ∷ 66 ∷ 177 ∷ 193 ∷ 21 ∷ 82
    ∷ 209 ∷ 240 ∷ 36 ∷ 51 ∷ 98 ∷ 114 ∷ 130 ∷ 9 ∷ 10 ∷ 22 ∷ 23 ∷ 24 ∷ 25 ∷ 26 ∷ 37 ∷ 38 ∷ 39 ∷ 40
    ∷ 41 ∷ 42 ∷ 52 ∷ 53 ∷ 54 ∷ 55 ∷ 56 ∷ 57 ∷ 58 ∷ 67 ∷ 68 ∷ 69 ∷ 70 ∷ 71 ∷ 72 ∷ 73 ∷ 74 ∷ 83 ∷ 84
    ∷ 85 ∷ 86 ∷ 87 ∷ 88 ∷ 89 ∷ 90 ∷ 99 ∷ 100 ∷ 101 ∷ 102 ∷ 103 ∷ 104 ∷ 105 ∷ 106 ∷ 115 ∷ 116 ∷ 117
    ∷ 118 ∷ 119 ∷ 120 ∷ 121 ∷ 122 ∷ 131 ∷ 132 ∷ 133 ∷ 134 ∷ 135 ∷ 136 ∷ 137 ∷ 138 ∷ 146 ∷ 147 ∷ 148
    ∷ 149 ∷ 150 ∷ 151 ∷ 152 ∷ 153 ∷ 154 ∷ 162 ∷ 163 ∷ 164 ∷ 165 ∷ 166 ∷ 167 ∷ 168 ∷ 169 ∷ 170 ∷ 178
    ∷ 179 ∷ 180 ∷ 181 ∷ 182 ∷ 183 ∷ 184 ∷ 185 ∷ 186 ∷ 194 ∷ 195 ∷ 196 ∷ 197 ∷ 198 ∷ 199 ∷ 200 ∷ 201
    ∷ 202 ∷ 210 ∷ 211 ∷ 212 ∷ 213 ∷ 214 ∷ 215 ∷ 216 ∷ 217 ∷ 218 ∷ 225 ∷ 226 ∷ 227 ∷ 228 ∷ 229 ∷ 230
    ∷ 231 ∷ 232 ∷ 233 ∷ 234 ∷ 241 ∷ 242 ∷ 243 ∷ 244 ∷ 245 ∷ 246 ∷ 247 ∷ 248 ∷ 249 ∷ 250 ∷ 17 ∷ 0 ∷ 2
    ∷ 1 ∷ 2 ∷ 4 ∷ 4 ∷ 3 ∷ 4 ∷ 7 ∷ 5 ∷ 4 ∷ 4 ∷ 0 ∷ 1 ∷ 2 ∷ 119 ∷ 0 ∷ 1 ∷ 2 ∷ 3 ∷ 17 ∷ 4 ∷ 5 ∷ 33 ∷ 49
    ∷ 6 ∷ 18 ∷ 65 ∷ 81 ∷ 7 ∷ 97 ∷ 113 ∷ 19 ∷ 34 ∷ 50 ∷ 129 ∷ 8 ∷ 20 ∷ 66 ∷ 145 ∷ 161 ∷ 177 ∷ 193 ∷ 9
    ∷ 35 ∷ 51 ∷ 82 ∷ 240 ∷ 21 ∷ 98 ∷ 114 ∷ 209 ∷ 10 ∷ 22 ∷ 36 ∷ 52 ∷ 225 ∷ 37 ∷ 241 ∷ 23 ∷ 24 ∷ 25
    ∷ 26 ∷ 38 ∷ 39 ∷ 40 ∷ 41 ∷ 42 ∷ 53 ∷ 54 ∷ 55 ∷ 56 ∷ 57 ∷ 58 ∷ 67 ∷ 68 ∷ 69 ∷ 70 ∷ 71 ∷ 72 ∷ 73
    ∷ 74 ∷ 83 ∷ 84 ∷ 85 ∷ 86 ∷ 87 ∷ 88 ∷ 89 ∷ 90 ∷ 99 ∷ 100 ∷ 101 ∷ 102 ∷ 103 ∷ 104 ∷ 105 ∷ 106
    ∷ 115 ∷ 116 ∷ 117 ∷ 118 ∷ 119 ∷ 120 ∷ 121 ∷ 122 ∷ 130 ∷ 131 ∷ 132 ∷ 133 ∷ 134 ∷ 135 ∷ 136 ∷ 137
    ∷ 138 ∷ 146 ∷ 147 ∷ 148 ∷ 149 ∷ 150 ∷ 151 ∷ 152 ∷ 153 ∷ 154 ∷ 162 ∷ 163 ∷ 164 ∷ 165 ∷ 166 ∷ 167
    ∷ 168 ∷ 169 ∷ 170 ∷ 178 ∷ 179 ∷ 180 ∷ 181 ∷ 182 ∷ 183 ∷ 184 ∷ 185 ∷ 186 ∷ 194 ∷ 195 ∷ 196 ∷ 197
    ∷ 198 ∷ 199 ∷ 200 ∷ 201 ∷ 202 ∷ 210 ∷ 211 ∷ 212 ∷ 213 ∷ 214 ∷ 215 ∷ 216 ∷ 217 ∷ 218 ∷ 226 ∷ 227
    ∷ 228 ∷ 229 ∷ 230 ∷ 231 ∷ 232 ∷ 233 ∷ 234 ∷ 242 ∷ 243 ∷ 244 ∷ 245 ∷ 246 ∷ 247 ∷ 248 ∷ 249 ∷ 250
    ∷ []

-- (ptr[0] << 8) | ptr[1]
abbrev pub marker : ℕ → ℕ → ℕ
marker a b = a * 256 + b

-- The loop of `is_huffman`, which ends at the latest when ptbuf - buf is 2049: `n` is how many bytes
-- it may still pass.
unfoldable pub is_huffman_from : ℕ → Bytes → Option Bool
is_huffman_from n [] = none
is_huffman_from n (a ∷ []) = none
is_huffman_from zero (a ∷ b ∷ rest) = some false
is_huffman_from (suc n) (a ∷ b ∷ rest) =
    let later = is_huffman_from n (b ∷ rest) in
    if marker a b == 65498 then some false else if marker a b == 65476 then some true else later

unfoldable pub is_huffman : Bytes → Option Bool
is_huffman buf = is_huffman_from 2049 buf

-- The search for the start of frame; the result is ptcur - src.
unfoldable pub find_start_of_frame : ℕ → ℕ → Bytes → Option ℕ
find_start_of_frame zero pos src = some pos
find_start_of_frame (suc n) pos [] = none
find_start_of_frame (suc n) pos (a ∷ []) = none
find_start_of_frame (suc n) pos (a ∷ b ∷ rest) =
    let later = find_start_of_frame n (pos + 1) (b ∷ rest) in
    if marker a b == 65472 then some pos else later

-- The buffer and the returned size.
pub record Copied : Type 0 where
  pub dst : Bytes
  pub size : ℕ

-- size_t a - b.
abbrev pub sub_u64 : ℕ → ℕ → ℕ
sub_u64 a b = u64 (a + 2 ^ 64 - b)

-- The copy with the tables in front of the start of frame at `sizein`.
unfoldable pub copy_with_tables : Bytes → Bytes → ℕ → ℕ → Option Copied
copy_with_tables dst src src_size sizein =
    let tables = length dht_data in
    let rest = sub_u64 src_size sizein in
    memcpy dst 0 src 0 sizein >>= λ dst. memcpy dst sizein dht_data 0 tables >>= λ dst.
    memcpy dst (sizein + tables) src sizein rest >>= λ dst.
    some (record { dst = dst; size = u64 (sizein + tables + rest) })

-- The two branches of `copy_frame`.
unfoldable pub copy_found : Bytes → ℕ → Bytes → ℕ → ℕ → Option Copied
copy_found dst dst_size src src_size sizein =
    if leb dst_size sizein
    then some (record { dst = dst; size = 0 })
    else copy_with_tables dst src src_size sizein

unfoldable pub copy_frame_as : Bytes → ℕ → Bytes → ℕ → Bool → Option Copied
copy_frame_as dst dst_size src src_size true =
    memcpy dst 0 src 0 src_size >>= λ dst. some (record { dst = dst; size = src_size })
copy_frame_as dst dst_size src src_size false =
    find_start_of_frame dst_size 0 src >>= copy_found dst dst_size src src_size

unfoldable pub copy_frame : Bytes → ℕ → Bytes → ℕ → Option Copied
copy_frame dst dst_size src src_size = is_huffman src >>= copy_frame_as dst dst_size src src_size
