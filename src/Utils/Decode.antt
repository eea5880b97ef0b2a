-- ===== src/Utils/Decode.antt =====
-- A decoder of base64, independent of the encoder, which undoes it.
use hawkeye.Base.{
  ℕ, zero, suc, ◌+◌, ◌-◌, ◌*◌, ◌/◌, ◌%◌, ◌^◌, ◌≤◌, ◌<◌, ◌≡◌, refl, sym, ap, ◌∙◌, Bool, true, false,
  ◌&&◌, not, [], ◌∷◌, ◌++◌, arith, Bytes, length, length-append, length-set, take, take-append,
  get_or, set, leb, ◌==◌, if◌then◌else◌, All, u32,
}
use hawkeye.Base.Text.{cstr}
use hawkeye.Utils.Base64.{
  mod_table, letter, group, encode_groups, pad_from, output_length, base64_encode,
}

-- The number that a letter stands for, by the ranges of RFC 4648.
sextet : ℕ → ℕ
sextet c =
    if leb b'A' c && leb c b'Z'
    then c - 65
    else if leb b'a' c && leb c b'z'
    then c - 97 + 26
    else if leb b'0' c && leb c b'9'
    then c - 48 + 52
    else if c == b'+'
    then 62
    else 63

-- The bytes of one group of four letters.
decode_group : ℕ → ℕ → ℕ → ℕ → Bytes
unfolding sextet
decode_group p q r s =
    let bits = sextet p * 262144 + sextet q * 4096 in
    if r == b'='
    then (bits / 65536) ∷ []
    else if s == b'='
    then (let two = bits + sextet r * 64 in (two / 65536) ∷ (two / 256 % 256) ∷ [])
    else (let three = bits + sextet r * 64 + sextet s in
        (three / 65536) ∷ (three / 256 % 256) ∷ (three % 256) ∷ [])

pub decode : Bytes → Bytes
unfolding decode_group
decode (p ∷ q ∷ r ∷ s ∷ rest) = decode_group p q r s ++ decode rest
decode _ = []

all_below : ℕ → (ℕ → Bool) → Bool
all_below zero p = true
all_below (suc n) p = p n && all_below n p

all_below-at : (n : ℕ) (p : ℕ → Bool) (x : ℕ) → all_below n p ≡ true → x < n → p x ≡ true
unfolding all_below
all_below-at zero p x h lt = absurd (omega arith)
all_below-at (suc n) p x h lt = ground (arith, all_below-at n p x)

-- No letter of the table is `=`, and each stands for its index.
abbrev is_good : ℕ → Bool
is_good k = sextet (letter k) == k && not (letter k == b'=')

letters_good : all_below 64 is_good ≡ true
unfolding all_below sextet letter
letters_good = refl

sextet-letter : (k : ℕ) → k < 64 → (sextet (letter k) ≡ k) × ((letter k == b'=') ≡ false)
sextet-letter k h = let good = all_below-at 64 is_good k letters_good h in ground (arith, good)

-- The number that three octets, or four letters, make.
abbrev bits_of : ℕ → ℕ → ℕ → ℕ → ℕ
bits_of i j k l = i * 262144 + j * 4096 + k * 64 + l

module _ (i j k l : ℕ) (hi : i < 64) (hj : j < 64) (hk : k < 64) (hl : l < 64) where
  three_octets :
      decode_group (letter i) (letter j) (letter k) (letter l)
      ≡ (bits_of i j k l / 65536) ∷ (bits_of i j k l / 256 % 256) ∷ (bits_of i j k l % 256) ∷ []
  unfolding decode_group
  three_octets = rw (
    (sextet-letter k hk).1,
    (sextet-letter l hl).1,
    (sextet-letter i hi).0,
    (sextet-letter j hj).0,
    (sextet-letter k hk).0,
    (sextet-letter l hl).0,
  )

  two_octets :
      decode_group (letter i) (letter j) (letter k) b'='
      ≡ (bits_of i j k 0 / 65536) ∷ (bits_of i j k 0 / 256 % 256) ∷ []
  unfolding decode_group
  two_octets =
      rw
        (
          (sextet-letter k hk).1,
          (sextet-letter i hi).0,
          (sextet-letter j hj).0,
          (sextet-letter k hk).0,
        )
        (ground arith)

  one_octet : decode_group (letter i) (letter j) b'=' b'=' ≡ (bits_of i j 0 0 / 65536) ∷ []
  unfolding decode_group
  one_octet = rw ((sextet-letter i hi).0, (sextet-letter j hj).0) (ground arith)

abbrev pub IsByte : ℕ → Type 0
IsByte c = c < 256

module _ (a b c : ℕ) (ha : a < 256) (hb : b < 256) (hc : c < 256) where
  abbrev triple : ℕ
  triple = u32 (a * 2 ^ 16 + b * 2 ^ 8 + c)

  quarters_lt :
      (triple / 2 ^ 18 % 64 < 64)
      × (triple / 2 ^ 12 % 64 < 64)
      × (triple / 2 ^ 6 % 64 < 64)
      × (triple % 64 < 64)
  quarters_lt = omega arith

  quarters :
      bits_of (triple / 2 ^ 18 % 64) (triple / 2 ^ 12 % 64) (triple / 2 ^ 6 % 64) (triple % 64)
      ≡ a * 65536 + b * 256 + c
  quarters = omega arith

  decode-group : (rest : Bytes) → decode (group a b c ++ rest) ≡ a ∷ b ∷ c ∷ decode rest
  unfolding decode group
  decode-group rest =
      let (h1, h2, h3, h4) = quarters_lt in
      let e1 : (a * 65536 + b * 256 + c) / 65536 ≡ a = omega arith in
      let e2 : (a * 65536 + b * 256 + c) / 256 % 256 ≡ b = omega arith in
      let e3 : (a * 65536 + b * 256 + c) % 256 ≡ c = omega arith in
      rw (three_octets _ _ _ _ h1 h2 h3 h4, quarters, e1, e2, e3)

module _ (a b : ℕ) (ha : a < 256) (hb : b < 256) where
  -- The last group of two octets, its last letter overwritten.
  decode-group_two : decode (set (group a b 0) 3 b'=') ≡ a ∷ b ∷ []
  unfolding decode group
  decode-group_two =
      let (h1, h2, h3, h4) = quarters_lt a b 0 ha hb (omega arith) in
      let t = triple a b 0 ha hb (omega arith) in
      let e1 : bits_of (t / 2 ^ 18 % 64) (t / 2 ^ 12 % 64) (t / 2 ^ 6 % 64) 0 / 65536 ≡ a =
        omega arith in
      let e2 : bits_of (t / 2 ^ 18 % 64) (t / 2 ^ 12 % 64) (t / 2 ^ 6 % 64) 0 / 256 % 256 ≡ b =
        omega arith in
      rw (two_octets _ _ _ _ h1 h2 h3 h4, e1, e2)

  -- The last group of one octet, its last two letters overwritten.
  decode-group_one : decode (set (set (group a 0 0) 3 b'=') 2 b'=') ≡ a ∷ []
  unfolding decode group
  decode-group_one =
      let (h1, h2, h3, h4) = quarters_lt a 0 0 ha (omega arith) (omega arith) in
      let t = triple a 0 0 ha (omega arith) (omega arith) in
      let e1 : bits_of (t / 2 ^ 18 % 64) (t / 2 ^ 12 % 64) 0 0 / 65536 ≡ a = omega arith in
      rw (one_octet _ _ _ _ h1 h2 h3 h4, e1)

-- Padding looks at the last group only.
pad_from-cons :
    (n i l : ℕ) (w x y z : ℕ) (r : Bytes)
    → n + i ≤ l
    → pad_from n i (4 + l) (w ∷ x ∷ y ∷ z ∷ r) ≡ w ∷ x ∷ y ∷ z ∷ pad_from n i l r
unfolding pad_from
pad_from-cons zero i l w x y z r h = refl
pad_from-cons (suc n) i l w x y z r h =
    let e : 4 + l - 1 - i ≡ suc (suc (suc (suc (l - 1 - i)))) = omega arith in
    rw e (pad_from-cons n (i + 1) l w x y z (set r (l - 1 - i) b'=') (omega arith))

abbrev padded : Bytes → Bytes
padded text =
    pad_from (get_or mod_table (length text % 3) 0) 0 (output_length (length text))
      (encode_groups text)

mod_table_le : (k : ℕ) → get_or mod_table k 0 ≤ 2
mod_table_le zero = omega arith
mod_table_le (suc zero) = omega arith
mod_table_le (suc (suc zero)) = omega arith
mod_table_le (suc (suc (suc k))) = omega arith

pads_le : (m : ℕ) → get_or mod_table (suc m % 3) 0 + 0 ≤ output_length (suc m)
unfolding output_length
pads_le m = omega (arith, mod_table_le (suc m % 3))

padded-cons :
    (a b c d : ℕ) (rest : Bytes) → padded (a ∷ b ∷ c ∷ d ∷ rest) ≡ group a b c ++ padded (d ∷ rest)
unfolding encode_groups group
padded-cons a b c d rest =
    let m = length rest in
    let e : suc (suc (suc (suc m))) % 3 ≡ suc m % 3 = omega arith in
    let l : output_length (suc (suc (suc (suc m)))) ≡ 4 + output_length (suc m) =
      unfold output_length in omega arith in
    rw (e, l) (pad_from-cons _ 0 _ _ _ _ _ (encode_groups (d ∷ rest)) (pads_le m))

decode-padded : (text : Bytes) → All IsByte text → decode (padded text) ≡ text
decode-padded [] h = unfold pad_from output_length decode encode_groups in refl
decode-padded (a ∷ []) h =
    unfold pad_from output_length encode_groups in decode-group_one a 0 h.0 (omega arith)
decode-padded (a ∷ b ∷ []) h =
    unfold pad_from output_length encode_groups in decode-group_two a b h.0 h.1.0
decode-padded (a ∷ b ∷ c ∷ []) h =
    unfold pad_from output_length encode_groups decode in decode-group a b c h.0 h.1.0 h.1.1.0 []
decode-padded (a ∷ b ∷ c ∷ d ∷ rest) h = rw padded-cons (
    decode-group a b c h.0 h.1.0 h.1.1.0 (padded (d ∷ rest))
    ∙ ap (λ t. a ∷ b ∷ c ∷ t) (decode-padded (d ∷ rest) h.1.1.1))

length-encode_groups : (text : Bytes) → length (encode_groups text) ≡ output_length (length text)
unfolding encode_groups group output_length
length-encode_groups [] = refl
length-encode_groups (a ∷ []) = refl
length-encode_groups (a ∷ b ∷ []) = refl
length-encode_groups (a ∷ b ∷ c ∷ rest) = omega (arith, length-encode_groups rest)

length-pad_from : (n i l : ℕ) (out : Bytes) → length (pad_from n i l out) ≡ length out
unfolding pad_from
length-pad_from zero i l out = refl
length-pad_from (suc n) i l out =
    length-pad_from n (i + 1) l (set out (l - 1 - i) b'=') ∙ length-set out (l - 1 - i) b'='

-- For a C string of bytes, the result of `base64_encode` fills exactly the memory that it
-- allocates, and a decoder finds the string in it again, whatever its length modulo 3.
pub decode-base64_encode :
    (buf : Bytes)
    → All IsByte (cstr buf)
    → let n = output_length (length (cstr buf)) in
      (length (base64_encode buf) ≡ n + 1) × (decode (take n (base64_encode buf)) ≡ cstr buf)
unfolding base64_encode
decode-base64_encode buf h =
    let text = cstr buf in
    let size : length (padded text) ≡ output_length (length text) =
      length-pad_from _ 0 _ (encode_groups text) ∙ length-encode_groups text in
    (
      omega (arith, length-append {0} (padded text) (0 ∷ []), size),
      rw (take-append (padded text) (0 ∷ []) (output_length (length text)) (sym size))
          (decode-padded text h),
    )
