-- ===== src/Base64/RoundTrip.antt =====
-- otl_string.cpp: `base64Dec` undoes `base64Enc`.
use otl.Common.{
  ℕ, zero, suc, ◌+◌, ◌*◌, ◌/◌, ◌%◌, ◌^◌, ◌<◌, ◌≡◌, refl, ap, ap₂, ◌∙◌, arith, Bool, true, false,
  List, [], ◌∷◌, some, ◌==◌, if◌then◌else◌, length, IsBytes,
}
use otl.Base64.{encode_char, encode_from, base64_enc, decode_loop, data_byte, base64_dec}
use otl.Base64.Groups.{
  good, decode_four, decode_three, decode_two, loop_group, loop_break, loop_end,
}

-- With a byte more of fuel than there are characters a text is decoded to these bytes.
Decodes : List ℕ → List ℕ → Type 0
Decodes text bytes =
    (fuel : ℕ) → length text < fuel → decode_loop fuel text (length text) ≡ some bytes

Decodes-line :
    (b : Bool) (new_line same_line bytes : List ℕ)
    → Decodes new_line bytes
    → Decodes same_line bytes
    → Decodes (if b then 13 ∷ 10 ∷ new_line else same_line) bytes
unfolding Decodes
Decodes-line false n s bytes hn hs fuel h = hs fuel h
Decodes-line true n s bytes hn hs zero h = absurd (omega arith)
Decodes-line true n s bytes hn hs (suc zero) h = absurd (omega arith)
Decodes-line true n s bytes hn hs (suc (suc fuel)) h =
    loop_break (suc fuel) 13 (suc (length n)) (10 ∷ n) bytes refl
      (loop_break fuel 10 (length n) n bytes refl (hn fuel (omega arith)))

Decodes-four :
    (a b c : ℕ) (text bytes : List ℕ)
    → a < 256
    → b < 256
    → c < 256
    → Decodes text bytes
    → Decodes
        (encode_char (a / 4)
          ∷ encode_char ((a * 16 + b / 16) % 64)
          ∷ encode_char ((b * 4 + c / 64) % 64)
          ∷ encode_char (c % 64)
          ∷ text)
        (a ∷ b ∷ c ∷ bytes)
unfolding Decodes
Decodes-four a b c text bytes ha hb hc ih zero h = absurd (omega arith)
Decodes-four a b c text bytes ha hb hc ih (suc fuel) h =
    let g0 = good (a / 4) (omega arith) in
    let g1 = good ((a * 16 + b / 16) % 64) (omega arith) in
    let g2 = good ((b * 4 + c / 64) % 64) (omega arith) in
    let g3 = good (c % 64) (omega arith) in
    loop_group fuel _ _ (length text) _ (a ∷ b ∷ c ∷ []) text bytes g0.not_break
      (decode_four _ _ _ _ _ _ _ _ text g0.code g1.code g2.code g3.code g2.not_pad g3.not_pad
        ∙ ap (λ l. some (l, text)) three)
      (omega arith) (ih fuel (omega arith))
  where
    n : ℕ
    n = a / 4 * 2 ^ 18 + (a * 16 + b / 16) % 64 * 2 ^ 12

    one : n / 2 ^ 16 % 256 ≡ a
    one = omega arith

    two : (n + (b * 4 + c / 64) % 64 * 2 ^ 6) / 2 ^ 8 % 256 ≡ b
    two = omega arith

    last : (n + (b * 4 + c / 64) % 64 * 2 ^ 6 + c % 64) % 256 ≡ c
    last = omega arith

    three :
        n / 2 ^ 16 % 256
          ∷ (n + (b * 4 + c / 64) % 64 * 2 ^ 6) / 2 ^ 8 % 256
          ∷ (n + (b * 4 + c / 64) % 64 * 2 ^ 6 + c % 64) % 256
          ∷ []
        ≡ a ∷ b ∷ c ∷ []
    three = ap₂ ◌∷◌ one (ap₂ ◌∷◌ two (ap (λ x. x ∷ []) last))

Decodes-three :
    (a b : ℕ)
    → a < 256
    → b < 256
    → Decodes
        (encode_char (a / 4)
          ∷ encode_char (a % 4 * 16 + b / 16)
          ∷ encode_char (b % 16 * 4)
          ∷ 61
          ∷ [])
        (a ∷ b ∷ [])
unfolding Decodes
Decodes-three a b ha hb zero h = absurd (omega arith)
Decodes-three a b ha hb (suc fuel) h =
    let g0 = good (a / 4) (omega arith) in
    let g1 = good (a % 4 * 16 + b / 16) (omega arith) in
    let g2 = good (b % 16 * 4) (omega arith) in
    loop_group fuel _ _ 0 _ (a ∷ b ∷ []) (61 ∷ []) [] g0.not_break
      (decode_three _ _ _ _ _ _ [] g0.code g1.code g2.code g2.not_pad
        ∙ ap (λ l. some (l, 61 ∷ [])) both)
      (omega arith) (loop_end fuel (61 ∷ []) (omega arith))
  where
    one : (a / 4 * 2 ^ 18 + (a % 4 * 16 + b / 16) * 2 ^ 12) / 2 ^ 16 % 256 ≡ a
    one = omega arith

    two : (a / 4 * 2 ^ 18 + (a % 4 * 16 + b / 16) * 2 ^ 12 + b % 16 * 4 * 2 ^ 6) / 2 ^ 8 % 256 ≡ b
    two = omega arith

    both :
        (a / 4 * 2 ^ 18 + (a % 4 * 16 + b / 16) * 2 ^ 12) / 2 ^ 16 % 256
          ∷ (a / 4 * 2 ^ 18 + (a % 4 * 16 + b / 16) * 2 ^ 12 + b % 16 * 4 * 2 ^ 6) / 2 ^ 8 % 256
          ∷ []
        ≡ a ∷ b ∷ []
    both = ap₂ ◌∷◌ one (ap (λ x. x ∷ []) two)

Decodes-two :
    (a : ℕ)
    → a < 256
    → Decodes (encode_char (a / 4) ∷ encode_char (a % 4 * 16) ∷ 61 ∷ 61 ∷ []) (a ∷ [])
unfolding Decodes
Decodes-two a ha zero h = absurd (omega arith)
Decodes-two a ha (suc fuel) h =
    let g0 = good (a / 4) (omega arith) in
    let g1 = good (a % 4 * 16) (omega arith) in
    loop_group fuel _ _ 0 _ (a ∷ []) (61 ∷ 61 ∷ []) [] g0.not_break
      (decode_two _ _ _ _ (61 ∷ []) g0.code g1.code ∙ ap (λ x. some (x ∷ [], 61 ∷ 61 ∷ [])) one)
      (omega arith) (loop_end fuel (61 ∷ 61 ∷ []) (omega arith))
  where
    one : (a / 4 * 2 ^ 18 + a % 4 * 16 * 2 ^ 12) / 2 ^ 16 % 256 ≡ a
    one = omega arith

Decodes-empty : Decodes [] []
unfolding Decodes
Decodes-empty fuel h = loop_end fuel [] h

Decodes-encode_from :
    (bytes : List ℕ) (line_length : ℕ)
    → IsBytes bytes
    → Decodes (encode_from bytes line_length) bytes
unfolding encode_from
Decodes-encode_from [] line_length h = Decodes-empty
Decodes-encode_from (a ∷ []) line_length h = Decodes-two a h.0
Decodes-encode_from (a ∷ b ∷ []) line_length h = Decodes-three a b h.0 h.1.0
Decodes-encode_from (a ∷ b ∷ c ∷ rest) line_length (ha, (hb, (hc, h))) =
    Decodes-four a b c _ rest ha hb hc (
      Decodes-line (line_length + 4 == 76) (encode_from rest 0) (encode_from rest (line_length + 4))
        rest (Decodes-encode_from rest 0 h) (Decodes-encode_from rest (line_length + 4) h))

whole_text : (n : ℕ) → n < 2 ^ 31 → data_byte n ≡ n
unfolding data_byte
whole_text n h = ground arith

-- If the text that `base64Enc` gives for some bytes has fewer than 2^31 characters, `base64Dec` gives
-- these bytes back from it, over all line breaks; no read of it lies outside the text or the table.
pub base64_dec-base64_enc :
    (bytes : List ℕ)
    → IsBytes bytes
    → length (base64_enc bytes) < 2 ^ 31
    → base64_dec (base64_enc bytes) ≡ some bytes
unfolding base64_dec base64_enc Decodes
base64_dec-base64_enc bytes h small =
    ap (decode_loop (length (encode_from bytes 0) + 1) (encode_from bytes 0))
      (whole_text (length (encode_from bytes 0)) small)
    ∙ Decodes-encode_from bytes 0 h (length (encode_from bytes 0) + 1) (omega arith)
