-- ===== src/Base64/Tests.antt =====
-- otl_string.cpp: base64 at concrete bytes.
use otl.Common.{◌≡◌, refl, [], ◌∷◌, arith, some, replicate, length}
use otl.Base64.{
  base64_enc, base64_dec, encode_from, encode_char, decode_char, decode_group, decode_loop,
  data_byte,
}
use otl.Base64.RoundTrip.{base64_dec-base64_enc}

-- "Man" is "TWFu".
enc_man : base64_enc (77 ∷ 97 ∷ 110 ∷ []) ≡ 84 ∷ 87 ∷ 70 ∷ 117 ∷ []
unfolding base64_enc encode_from encode_char
enc_man = refl

-- "Ma" is "TWE=".
enc_ma : base64_enc (77 ∷ 97 ∷ []) ≡ 84 ∷ 87 ∷ 69 ∷ 61 ∷ []
unfolding base64_enc encode_from encode_char
enc_ma = refl

dec_ma : base64_dec (84 ∷ 87 ∷ 69 ∷ 61 ∷ []) ≡ some (77 ∷ 97 ∷ [])
unfolding base64_dec data_byte decode_loop decode_group decode_char
dec_ma = refl

-- A line holds 76 characters.
line_break : length (base64_enc (replicate 58 0)) ≡ 82
unfolding base64_enc encode_from
line_break = refl

base64_dec-base64_enc_example :
    base64_dec (base64_enc (77 ∷ 97 ∷ 110 ∷ 255 ∷ [])) ≡ some (77 ∷ 97 ∷ 110 ∷ 255 ∷ [])
unfolding base64_enc encode_from
base64_dec-base64_enc_example =
    base64_dec-base64_enc (77 ∷ 97 ∷ 110 ∷ 255 ∷ [])
      (omega arith, (omega arith, (omega arith, (omega arith, tt)))) (omega arith)
