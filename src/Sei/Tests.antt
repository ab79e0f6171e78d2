-- ===== src/Sei/Tests.antt =====
-- Tests of the SEI packets, and their theorems at concrete inputs.
use otl.Common.{ℕ, ◌≡◌, inl, refl, some, true, false, List, [], ◌∷◌, arith, replicate}
use otl.Sei.{
  found, miss, h264_sei_packet_write, h264_sei_packet_read, h264_sei_calc_nalu_size, get_sei_buffer,
  read_type, read_size, take_payload, copy_content, starts_annexb, h264_annexb,
}
use otl.Sei.Annexb.{h264_read-write_annexb}
use otl.Sei.Avcc.{h264_read-write_avcc}
use otl.Sei.Misread.{h264_read-write_avcc_lost}

abbrev greeting : List ℕ
greeting = b'h' ∷ b'i' ∷ []

-- NAL units of 262 bytes: the prefix reads 0, 0, 1, 6.
abbrev long_text : List ℕ
long_text = replicate 241 b'x'

h264_read-write_annexb_example :
    (packet : List ℕ) × (h264_sei_packet_write true greeting ≡ some packet)
    × (h264_sei_packet_read packet (some 64) ≡ some (found 2 greeting))
h264_read-write_annexb_example =
    h264_read-write_annexb b'h' (b'i' ∷ []) 64 (omega arith) (omega arith)

h264_read-write_avcc_example :
    (packet : List ℕ) × (h264_sei_packet_write false greeting ≡ some packet)
    × (h264_sei_packet_read packet (some 64) ≡ some (found 2 greeting))
unfolding h264_sei_calc_nalu_size
h264_read-write_avcc_example =
    h264_read-write_avcc b'h' (b'i' ∷ []) 64 (omega arith) (omega arith) (inl (omega arith))

h264_read-write_avcc_lost_example :
    (packet : List ℕ) × (h264_sei_packet_write false long_text ≡ some packet)
    × (h264_sei_packet_read packet (some 1000) ≡ some miss)
unfolding h264_sei_calc_nalu_size
h264_read-write_avcc_lost_example =
    h264_read-write_avcc_lost long_text (some 1000) (omega arith) (omega arith) (omega arith) refl

-- A packet with one ordinary NAL unit before the SEI.
second_unit :
    h264_sei_packet_read
      (0 ∷ 0 ∷ 1 ∷ 0x67 ∷ 0 ∷ 0 ∷ 1 ∷ 6 ∷ 5 ∷ 17 ∷ 0x54 ∷ 0x80 ∷ 0x83 ∷ 0x97 ∷ 0xf0 ∷ 0x23 ∷ 0x47
        ∷ 0x4b ∷ 0xb7 ∷ 0xf7 ∷ 0x4f ∷ 0x32 ∷ 0xb5 ∷ 0x4e ∷ 0x06 ∷ 0xac ∷ b'!' ∷ 0x80 ∷ [])
      (some 64)
    ≡ some (found 1 (b'!' ∷ []))
unfolding h264_sei_packet_read starts_annexb h264_annexb get_sei_buffer read_type read_size
    take_payload copy_content
second_unit = refl
