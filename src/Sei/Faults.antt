-- ===== src/Sei/Faults.antt =====
-- stream_sei.cpp: the readers end, and where they read behind the packet.
use otl.Common.{
  ℕ, zero, suc, ◌+◌, ◌-◌, ◌%◌, ◌^◌, ◌≤◌, ◌<◌, ◌≡◌, ◌≢◌, refl, ap, ◌∙◌, none, some, List, ◌∷◌, ◌++◌,
  arith, length, take, drop, length-drop, replicate, le→ltb, le→leb, lt→leb, Option,
}
use otl.Buffer.Words.{le_value, le_bytes}
use otl.Sei.{
  Sei, fault, reverse_bytes, read_type, get_sei_buffer, h264_annexb, avcc, avcc_fuel, h264_nalu,
  h265_nalu, h264_sei_packet_read, h265_sei_packet_read, if_positive,
}
use otl.Sei.Annexb.{starts_with_code}
use otl.Sei.Avcc.{avcc_round, not_annexb, prefix_value}

avcc_ends :
    (step : ℕ → List ℕ → Sei → Sei) (fuel : ℕ) (packet : List ℕ) (offset : ℕ)
    → 0 < fuel
    → length packet + 1 < fuel + offset
    → avcc step fuel packet offset ≢ none
unfolding avcc
avcc_ends step zero packet offset p h = absurd (omega arith)
avcc_ends step (suc fuel) packet offset p h = ground (
  arith,
  length-drop offset packet,
  avcc_ends step fuel packet (offset + 4 + reverse_bytes (le_value (take 4 (drop offset packet)))),
)

-- Both readers end on every packet: the fuel of the loop over a length-prefixed packet suffices.
pub reads_end :
    (packet : List ℕ) (buff : Option ℕ)
    → (h264_sei_packet_read packet buff ≢ none) × (h265_sei_packet_read packet buff ≢ none)
unfolding h264_sei_packet_read h265_sei_packet_read
reads_end packet buff =
    let e4 = avcc_ends (h264_nalu buff) (avcc_fuel packet) packet 0 (omega arith) (omega arith) in
    let e5 = avcc_ends (h265_nalu buff) (avcc_fuel packet) packet 0 (omega arith) (omega arith) in
    (ground arith, ground arith)

read_type-replicate : (n acc : ℕ) → read_type acc (replicate n 255) ≡ none
unfolding read_type
read_type-replicate zero acc = refl
read_type-replicate (suc n) acc = read_type-replicate n (acc + 255)

get_sei_buffer-replicate :
    (n size : ℕ) (buff : Option ℕ) → get_sei_buffer (replicate n 255) size buff ≡ fault
unfolding get_sei_buffer
get_sei_buffer-replicate n size buff = rw (read_type-replicate n 0, get_sei_buffer) refl

-- A SEI NAL unit in an Annex B packet whose bytes are all 255 makes `h264SeiPacketRead` read behind
-- the packet, whatever its length and the caller's buffer.
pub h264_read_overrun :
    (n : ℕ) (buff : Option ℕ)
    → h264_sei_packet_read (0 ∷ 0 ∷ 0 ∷ 1 ∷ 6 ∷ replicate n 255) buff ≡ some fault
unfolding h264_sei_packet_read h264_annexb
h264_read_overrun n buff =
    rw (starts_with_code 6 (replicate n 255), h264_sei_packet_read)
      (ap some (
        ap (λ s. if_positive s (h264_annexb buff (replicate n 255)))
          (get_sei_buffer-replicate n (length (replicate n 255)) buff)))

avcc_behind :
    (step : ℕ → List ℕ → Sei → Sei) (fuel : ℕ) (packet : List ℕ) (offset : ℕ)
    → (offset + 4) % 2 ^ 32 ≤ length packet
    → length packet < offset + 4
    → avcc step (suc fuel) packet offset ≡ some fault
unfolding avcc
avcc_behind step fuel packet offset h k =
    rw
      (
        le→leb ((offset + 4) % 2 ^ 32) (length packet) h,
        lt→leb 4 (length (drop offset packet)) (omega (arith, length-drop offset packet)),
        avcc,
      )
      refl

skips :
    (buff : Option ℕ) (len header : ℕ) (payload : List ℕ) (rest : Sei)
    → header % 32 ≢ 6
    → h264_nalu buff len (header ∷ payload) rest ≡ rest
unfolding h264_nalu
skips buff len header payload rest h = ground arith

-- A length prefix from 2^32 - 4 to 2^32 - 1 passes the bounds test, whose sum wraps: if the NAL unit is
-- no SEI and four more bytes fit by the wrapped sum, `h264SeiPacketRead` reads about 2^32 bytes
-- behind the packet.
pub h264_length_wraps :
    (k header : ℕ) (payload : List ℕ) (buff : Option ℕ)
    → k < 4
    → header % 32 ≢ 6
    → k ≤ length payload + 1
    → length payload < 2 ^ 31
    → h264_sei_packet_read (le_bytes 4 (reverse_bytes (2 ^ 32 - 4 + k)) ++ (header ∷ payload)) buff
      ≡ some fault
unfolding h264_sei_packet_read
h264_length_wraps k header payload buff small h fits m =
    rw (not_annexb len header payload (omega arith) (omega arith), h264_sei_packet_read)
      (ap (λ fuel. avcc (h264_nalu buff) fuel packet 0) fuel_eq
        ∙ avcc_round (h264_nalu buff) (suc (length packet)) packet 0 len fault
            (le→leb 4 (length packet) (omega arith)) (le→leb 4 (length packet) (omega arith))
            (prefix_value len (omega arith))
            (le→ltb (length packet) ((0 + 4 + len) % 2 ^ 32) (omega arith))
            (avcc_behind (h264_nalu buff) (length packet) packet (0 + 4 + len) (omega arith)
              (omega arith))
        ∙ ap some (skips buff len header payload fault h))
  where
    len : ℕ
    len = 2 ^ 32 - 4 + k

    packet : List ℕ
    packet = le_bytes 4 (reverse_bytes len) ++ (header ∷ payload)

    fuel_eq : avcc_fuel packet ≡ suc (suc (length packet))
    fuel_eq = omega arith
