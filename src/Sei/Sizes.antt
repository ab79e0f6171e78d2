-- ===== src/Sei/Sizes.antt =====
-- stream_sei.cpp: how many bytes a packet takes.
use otl.Common.{
  ℕ, suc, ◌+◌, ◌%◌, ◌^◌, ◌<◌, ◌≡◌, ◌∙◌, some, Bool, true, false, List, [], ◌∷◌, arith, length,
}
use otl.Sei.{
  with_prefix, h264_sei_packet_write, h265_sei_packet_write, h264_sei_calc_nalu_size,
  h264_sei_calc_packet_size, h264_sei_calc_packet_size_as,
}
use otl.Sei.Payload.{payload, message, sei_body_lem, length-message}

pub length-with_prefix :
    (is_annexb : Bool) (nalu : List ℕ) → length (with_prefix is_annexb nalu) ≡ 4 + length nalu
length-with_prefix true nalu = omega arith
length-with_prefix false nalu = omega arith

-- What the writers store, before its NAL header.
abbrev pub body : List ℕ → List ℕ
body content = message content (0x80 ∷ [])

pub h264_write_lem :
    (is_annexb : Bool) (content : List ℕ)
    → payload content < 2 ^ 32
    → h264_sei_packet_write is_annexb content ≡ some (with_prefix is_annexb (6 ∷ body content))
unfolding h264_sei_packet_write
h264_write_lem is_annexb content h = rw (sei_body_lem content h, h264_sei_packet_write)

pub h265_write_lem :
    (is_annexb : Bool) (content : List ℕ)
    → payload content < 2 ^ 32
    → h265_sei_packet_write is_annexb content ≡ some (with_prefix is_annexb (78 ∷ 1 ∷ body content))
unfolding h265_sei_packet_write
h265_write_lem is_annexb content h = rw (sei_body_lem content h, h265_sei_packet_write)

pub calc_nalu_lem :
    (content : List ℕ)
    → payload content < 2 ^ 31
    → h264_sei_calc_nalu_size (length content) ≡ 1 + length (body content)
unfolding h264_sei_calc_nalu_size
calc_nalu_lem content h = omega (arith, length-message content (0x80 ∷ []))

-- For content of less than 2^31 - 16 bytes `h264SeiPacketWrite` ends, in either format, and stores
-- exactly as many bytes as both overloads of `h264SeiCalcPacketSize` announce (the second for a
-- length prefix of four bytes).
pub length-h264_write :
    (is_annexb : Bool) (content : List ℕ)
    → payload content < 2 ^ 31
    → (packet : List ℕ) × (h264_sei_packet_write is_annexb content ≡ some packet)
      × (length packet ≡ h264_sei_calc_packet_size (length content))
      × (length packet ≡ h264_sei_calc_packet_size_as (length content) is_annexb 4)
unfolding h264_sei_calc_packet_size h264_sei_calc_packet_size_as
length-h264_write is_annexb content h = (
  with_prefix is_annexb (6 ∷ body content),
  h264_write_lem is_annexb content (omega arith),
  length-with_prefix is_annexb _ ∙ total,
  length-with_prefix is_annexb _ ∙ either is_annexb,
)
  where
    total :
        4 + suc (length (body content)) ≡ (h264_sei_calc_nalu_size (length content) + 4) % 2 ^ 32
    total = omega (arith, calc_nalu_lem content h, length-message content (0x80 ∷ []))

    either :
        (b : Bool)
        → 4 + suc (length (body content)) ≡ h264_sei_calc_packet_size_as (length content) b 4
    either true = total
    either false = total

-- `h265SeiPacketWrite` stores one byte more than `h264SeiCalcPacketSize` announces, since its NAL
-- header has two bytes.
pub length-h265_write :
    (is_annexb : Bool) (content : List ℕ)
    → payload content < 2 ^ 31
    → (packet : List ℕ) × (h265_sei_packet_write is_annexb content ≡ some packet)
      × (length packet ≡ h264_sei_calc_packet_size (length content) + 1)
unfolding h264_sei_calc_packet_size
length-h265_write is_annexb content h = (
  with_prefix is_annexb (78 ∷ 1 ∷ body content),
  h265_write_lem is_annexb content (omega arith),
  length-with_prefix is_annexb _
      ∙ omega (arith, calc_nalu_lem content h, length-message content (0x80 ∷ [])),
)
