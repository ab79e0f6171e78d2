-- ===== src/Base64.antt =====
-- otl_string.cpp: `base64Enc` and `base64Dec`. Texts are lists of character codes. In a sum that
-- stands for an `|` the two parts have no bit in common.
pub mod Groups
pub mod RoundTrip
mod Tests
use otl.Common.{
  ℕ, zero, suc, ◌+◌, ◌-◌, ◌*◌, ◌/◌, ◌%◌, ◌^◌, Bool, true, false, ◌||◌, List, [], ◌∷◌, ◌++◌, Option,
  none, some, ◌==◌, if◌then◌else◌, length, get_elem?, get_or, replicate, ltb,
}

-- `count` codes from `first` on.
abbrev pub range : ℕ → ℕ → List ℕ
range first zero = []
range first (suc count) = first ∷ range (suc first) count

-- A to Z, a to z, 0 to 9, + and /.
abbrev pub encode_table : List ℕ
encode_table = range 65 26 ++ range 97 26 ++ range 48 10 ++ (43 ∷ 47 ∷ [])

abbrev pub decode_table : List ℕ
decode_table =
    replicate 43 0
    ++ (62 ∷ [])
    ++ replicate 3 0
    ++ (63 ∷ [])
    ++ range 52 10
    ++ replicate 7 0
    ++ range 0 26
    ++ replicate 6 0
    ++ range 26 26

pub encode_char : ℕ → ℕ
encode_char n = get_or encode_table n 0

-- The loop over groups of three bytes with `LineLength`, and the one or two bytes that are left.
pub encode_from : List ℕ → ℕ → List ℕ
encode_from [] line_length = []
encode_from (a ∷ []) line_length = encode_char (a / 4) ∷ encode_char (a % 4 * 16) ∷ 61 ∷ 61 ∷ []
encode_from (a ∷ b ∷ []) line_length =
    encode_char (a / 4) ∷ encode_char (a % 4 * 16 + b / 16) ∷ encode_char (b % 16 * 4) ∷ 61 ∷ []
encode_from (a ∷ b ∷ c ∷ rest) line_length =
    encode_char (a / 4)
    ∷ encode_char ((a * 16 + b / 16) % 64)
    ∷ encode_char ((b * 4 + c / 64) % 64)
    ∷ encode_char (c % 64)
    ∷ (let same_line = encode_from rest (line_length + 4) in
        let new_line = encode_from rest 0 in
        if line_length + 4 == 76 then 13 ∷ 10 ∷ new_line else same_line)

pub base64_enc : List ℕ → List ℕ
base64_enc bytes = encode_from bytes 0

abbrev pub bind : {A B : Type 0} → Option A → (A → Option B) → Option B
bind none f = none
bind (some a) f = f a

-- An index past the table, or below it for a negative `char`, is a read outside: `none`.
pub decode_char : ℕ → Option ℕ
decode_char c = get_elem? decode_table c

-- One group: the bytes decoded and the text left at `p`. A `=` is not passed. `none` is a read
-- outside the text or the table.
abbrev pub fourth : List ℕ → ℕ → List ℕ → Option (List ℕ × List ℕ)
fourth out n_value [] = none
fourth out n_value (c ∷ p) =
    if c == 61
    then some (out, c ∷ p)
    else bind (decode_char c) (λ v. some (out ++ ((n_value + v) % 256 ∷ []), p))

abbrev pub third : List ℕ → ℕ → List ℕ → Option (List ℕ × List ℕ)
third out n_value [] = none
third out n_value (c ∷ p) =
    if c == 61
    then some (out, c ∷ p)
    else bind (decode_char c)
        (λ v. fourth (out ++ ((n_value + v * 2 ^ 6) / 2 ^ 8 % 256 ∷ [])) (n_value + v * 2 ^ 6) p)

pub decode_group : List ℕ → Option (List ℕ × List ℕ)
decode_group [] = none
decode_group (c ∷ []) = none
decode_group (c ∷ d ∷ p) = bind (decode_char c) (λ v.
    bind (decode_char d)
      (λ w. third ((v * 2 ^ 18 + w * 2 ^ 12) / 2 ^ 16 % 256 ∷ []) (v * 2 ^ 18 + w * 2 ^ 12) p))

-- The loop, with the text at `p` and `left`, which is `DataByte - i` or 0. `none` is also what a loop
-- without fuel gives.
pub decode_loop : ℕ → List ℕ → ℕ → Option (List ℕ)
decode_loop zero p left = none
decode_loop (suc fuel) p zero = some []
decode_loop (suc fuel) [] (suc left) = none
decode_loop (suc fuel) (c ∷ p) (suc left) =
    let skipped = decode_loop fuel p left in
    let taken =
      bind (decode_group (c ∷ p))
        (λ r. bind (decode_loop fuel r.1 (suc left - 4)) (λ more. some (r.0 ++ more))) in
    if c == 13 || c == 10 then skipped else taken

-- `int DataByte = size`, or 0 where that is negative, for the loop is not entered then.
pub data_byte : ℕ → ℕ
data_byte size = if ltb (size % 2 ^ 32) (2 ^ 31) then size % 2 ^ 32 else 0

-- Each round takes at least one off `left`, and `i` stays below 2^31 + 4.
pub base64_dec : List ℕ → Option (List ℕ)
base64_dec text = decode_loop (length text + 1) text (data_byte (length text))
