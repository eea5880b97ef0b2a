-- ===== src/Utils/Tests.antt =====
-- Strings of src/utils.c at concrete inputs.
use hawkeye.Base.{◌+◌, ◌≡◌, refl, [], ◌∷◌, ◌++◌, arith, Bytes, length, take, All}
use hawkeye.Base.Text.{codes, cstr}
use hawkeye.Utils.Base64.{base64_encode, output_length, encode_groups, group, letter, pad_from}
use hawkeye.Utils.Decode.{IsByte, decode, decode-base64_encode}
use hawkeye.Utils.Trim.{trim, is_blank}
use hawkeye.Utils.Trimmed.{trim-cstr}

abbrev word : Bytes
word = codes "user" ++ (0 ∷ [])

encoded_word : base64_encode word ≡ codes "dXNlcg==" ++ (0 ∷ [])
unfolding base64_encode encode_groups group letter pad_from output_length cstr
encoded_word = refl

decode-base64_encode_example :
    let n = output_length (length (cstr word)) in
    (length (base64_encode word) ≡ n + 1) × (decode (take n (base64_encode word)) ≡ cstr word)
decode-base64_encode_example = decode-base64_encode word word_bytes
  where
    word_bytes : All IsByte (cstr word)
    word_bytes = unfold cstr in (omega arith, (omega arith, (omega arith, (omega arith, tt))))

abbrev line : Bytes
line = codes "  a b " ++ (0 ∷ 9 ∷ [])

trim-cstr_example : cstr (trim line) ≡ codes "a b"
unfolding is_blank
trim-cstr_example =
    trim-cstr (32 ∷ 32 ∷ []) (codes "a b") (32 ∷ []) (9 ∷ []) (codes "a ") (codes " b") 97 98 refl
      refl refl refl
      ((λ e. omega (arith, e)), ((λ e. omega (arith, e)), ((λ e. omega (arith, e)), tt)))
      (((λ e. omega (arith, e)), refl), (((λ e. omega (arith, e)), refl), tt))
      (((λ e. omega (arith, e)), refl), tt)
