-- ===== src/Sei/Payload.antt =====
-- stream_sei.cpp: the body of a SEI message, as the writers make it and as `getSeiBuffer` takes it
-- apart.
use otl.Common.{
  ℕ, ◌+◌, ◌-◌, ◌/◌, ◌%◌, ◌^◌, ◌≤◌, ◌<◌, ◌≡◌, ap, ap₂, ◌∙◌, Option, some, List, [], ◌∷◌, ◌++◌, arith,
  le→leb, lt→ltb, ne→==, length, length-append, take-length_append,
}
use otl.Sei.{
  uuid, uuid_size, write_size, sei_body, found, read_type, read_size, copy_content, take_payload,
  get_sei_buffer,
}
use otl.Sei.Field.{size_field, length-size_field, write_size_lem, read_size_lem}

-- The payload size of `content`.
abbrev pub payload : List ℕ → ℕ
payload content = length content + uuid_size

-- The body with what follows the content.
unfoldable pub message : List ℕ → List ℕ → List ℕ
message content tail =
    5 ∷ (size_field (payload content / 255) (payload content % 255) ++ (uuid ++ (content ++ tail)))

-- The writers' loop ends, and the body is the message with the stop bit.
pub sei_body_lem :
    (content : List ℕ)
    → payload content < 2 ^ 32
    → sei_body content ≡ some (message content (0x80 ∷ []))
unfolding sei_body message
sei_body_lem content h = rw (field, sei_body)
  where
    last : payload content % 255 < 255
    last = omega arith

    field :
        write_size (payload content % 2 ^ 32 / 255 + 1) (payload content % 2 ^ 32)
        ≡ some (size_field (payload content / 255) (payload content % 255))
    field =
        ap₂ write_size (omega arith) (omega arith)
        ∙ write_size_lem (payload content / 255) (payload content % 255) last

pub length-message :
    (content tail : List ℕ)
    → length (message content tail) ≡ payload content / 255 + 2 + payload content + length tail
unfolding message
length-message content tail = omega (
  arith,
  length-append (size_field (payload content / 255) (payload content % 255))
      (uuid ++ (content ++ tail)),
  length-size_field (payload content / 255) (payload content % 255),
  length-append content tail,
)

take_payload_lem :
    (size used n : ℕ) (buff : Option ℕ) (sei : List ℕ)
    → uuid_size ≤ n
    → used + n ≤ size
    → take_payload size used buff 5 n (uuid ++ sei) ≡ copy_content (n - uuid_size) buff sei
unfolding take_payload
take_payload_lem size used n buff sei h k = rw (le→leb uuid_size n h, le→leb (used + n) size k)

-- `getSeiBuffer` finds the content of a message, whatever follows it.
pub get_sei_buffer-message :
    (content tail : List ℕ) (size : ℕ) (buff : Option ℕ)
    → payload content < 2 ^ 32
    → payload content / 255 + 2 + payload content ≤ size
    → get_sei_buffer (message content tail) size buff
      ≡ copy_content (length content) buff (content ++ tail)
unfolding get_sei_buffer message read_type
get_sei_buffer-message content tail size buff h fits =
    rw (field, get_sei_buffer)
      (take_payload_lem size _ (payload content) buff (content ++ tail) (omega arith) inside
        ∙ ap (λ n. copy_content n buff (content ++ tail)) (omega arith))
  where
    rest : List ℕ
    rest = uuid ++ (content ++ tail)

    sizes : List ℕ
    sizes = size_field (payload content / 255) (payload content % 255)

    field : read_size 0 (sizes ++ rest) ≡ some (payload content, rest)
    field =
        read_size_lem (payload content / 255) (payload content % 255) 0 rest (omega arith)
          (omega arith)
        ∙ ap (λ n. some (n, rest)) (omega arith)

    inside : length (message content tail) - length rest + payload content ≤ size
    inside = omega (
      arith,
      length-append sizes rest,
      length-size_field (payload content / 255) (payload content % 255),
    )

-- With a buffer that is larger than the content, the content is copied.
pub copy_content_lem :
    (content tail : List ℕ) (buf_size : ℕ)
    → length content < buf_size
    → copy_content (length content) (some buf_size) (content ++ tail)
      ≡ found (length content) content
unfolding copy_content
copy_content_lem content tail buf_size h = rw (
  ne→== buf_size 0 (omega arith),
  lt→ltb (length content) buf_size h,
  take-length_append content tail,
)
