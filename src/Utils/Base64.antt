-- ===== src/Utils/Base64.antt =====
-- src/utils.c: `base64_encode`. The data is the C string that the argument points to.
use hawkeye.Base.{
  ℕ, zero, suc, ◌+◌, ◌-◌, ◌*◌, ◌/◌, ◌%◌, ◌^◌, List, [], ◌∷◌, ◌++◌, Bytes, length, get_or, set, u32,
}
use hawkeye.Base.Text.{codes, cstr}

abbrev pub encoding_table : Bytes
encoding_table = codes "ABCDEFGHIJKLMNOPQRSTUVWXYZabcdefghijklmnopqrstuvwxyz0123456789+/"

abbrev pub mod_table : List ℕ
mod_table = 0 ∷ 2 ∷ 1 ∷ []

-- encoding_table[k]
unfoldable pub letter : ℕ → ℕ
letter k = get_or encoding_table k 0

-- The four bytes that one round of the loop appends.
unfoldable pub group : ℕ → ℕ → ℕ → Bytes
group octet_a octet_b octet_c =
    let triple = u32 (octet_a * 2 ^ 16 + octet_b * 2 ^ 8 + octet_c) in
    letter (triple / 2 ^ 18 % 64)
    ∷ letter (triple / 2 ^ 12 % 64)
    ∷ letter (triple / 2 ^ 6 % 64)
    ∷ letter (triple % 64)
    ∷ []

-- The loop: each round takes three octets, and 0 for those that the data does not have.
unfoldable pub encode_groups : Bytes → Bytes
encode_groups [] = []
encode_groups (a ∷ []) = group a 0 0
encode_groups (a ∷ b ∷ []) = group a b 0
encode_groups (a ∷ b ∷ c ∷ rest) = group a b c ++ encode_groups rest

-- The loop that overwrites the end by `=`, with `n` rounds left.
unfoldable pub pad_from : ℕ → ℕ → ℕ → Bytes → Bytes
pad_from zero i output_length out = out
pad_from (suc n) i output_length out =
    pad_from n (i + 1) output_length (set out (output_length - 1 - i) b'=')

unfoldable pub output_length : ℕ → ℕ
output_length input_length = 4 * ((input_length + 2) / 3)

-- `base64_encode`, with the NUL that ends its result.
unfoldable pub base64_encode : Bytes → Bytes
base64_encode buf =
    let text = cstr buf in
    let input_length = length text in
    pad_from (get_or mod_table (input_length % 3) 0) 0 (output_length input_length)
      (encode_groups text)
    ++ (0 ∷ [])
