-- ===== src/Sei/Avcc.antt =====
-- stream_sei.cpp: a length-prefixed packet that was written is read back, where it is not taken for
-- Annex B.
use otl.Common.{
  ℕ, suc, ◌+◌, ◌*◌, ◌/◌, ◌%◌, ◌^◌, ◌≤◌, ◌<◌, ◌≡◌, ◌⊎◌, refl, ap, ap₂, ◌∙◌, some, true, false, List,
  [], ◌∷◌, ◌++◌, arith, length, take, drop, ltb, leb, le→ltb, le→leb, lt→leb,
}
use otl.Buffer.Words.{le_bytes, le_value, htonl, htonl-htonl, htonl-lt, le_value-bytes_4}
use otl.Sei.{
  Sei, miss, found, reverse_bytes, starts_annexb, get_sei_buffer, avcc, avcc_fuel, h264_nalu,
  h265_nalu, h264_sei_packet_write, h265_sei_packet_write, h264_sei_packet_read,
  h265_sei_packet_read, with_prefix, if_positive, if_found, h264_sei_calc_nalu_size,
}
use otl.Sei.Payload.{payload, length-message}
use otl.Sei.Sizes.{body, h264_write_lem, h265_write_lem, calc_nalu_lem}
use otl.Sei.Annexb.{get_sei_buffer-body}

reverse-htonl : (v : ℕ) → reverse_bytes v ≡ htonl v
unfolding reverse_bytes htonl
reverse-htonl v = refl

-- The prefix gives the length back.
pub prefix_value :
    (v : ℕ) → v < 2 ^ 32 → reverse_bytes (le_value (le_bytes 4 (reverse_bytes v))) ≡ v
prefix_value v h =
    rw (reverse-htonl v, le_value-bytes_4 (htonl v) (htonl-lt v), reverse-htonl (htonl v))
      (htonl-htonl v h)

-- The bytes of the prefix, highest first.
pub prefix_bytes :
    (v : ℕ)
    → v < 2 ^ 32
    → le_bytes 4 (reverse_bytes v) ≡ v / 16777216 ∷ v / 65536 % 256 ∷ v / 256 % 256 ∷ v % 256 ∷ []
unfolding reverse_bytes
prefix_bytes v h =
    ap₂ ◌∷◌ (omega arith)
      (ap₂ ◌∷◌ (omega arith) (ap₂ ◌∷◌ (omega arith) (ap₂ ◌∷◌ (omega arith) refl)))

-- A length prefix looks like a start code just for the lengths 1 and 256 to 511.
abbrev pub Unlike : ℕ → Type 0
Unlike len = (1 < len) × ((len < 256) ⊎ (512 ≤ len))

not_code :
    (len a b c d x : ℕ) (r : List ℕ)
    → Unlike len
    → d < 256
    → len ≡ a * 16777216 + b * 65536 + c * 256 + d
    → starts_annexb (a ∷ b ∷ c ∷ d ∷ x ∷ r) ≡ false
unfolding starts_annexb
not_code len a b c d x r u small e = ground arith

pub not_annexb :
    (len x : ℕ) (r : List ℕ)
    → len < 2 ^ 32
    → Unlike len
    → starts_annexb (le_bytes 4 (reverse_bytes len) ++ (x ∷ r)) ≡ false
not_annexb len x r h u =
    ap (λ p. starts_annexb (p ++ (x ∷ r))) (prefix_bytes len h)
    ∙ not_code len (len / 16777216) (len / 65536 % 256) (len / 256 % 256) (len % 256) x r u
        (omega arith) (omega arith)

-- At the end of the packet the loop stops.
avcc_end :
    (step : ℕ → List ℕ → Sei → Sei) (fuel : ℕ) (packet : List ℕ) (offset : ℕ)
    → offset ≡ length packet
    → length packet + 4 < 2 ^ 32
    → avcc step (suc fuel) packet offset ≡ some miss
unfolding avcc
avcc_end step fuel packet offset e h =
    rw (lt→leb ((offset + 4) % 2 ^ 32) (length packet) (omega arith), avcc) refl

-- A round that goes on.
pub avcc_round :
    (step : ℕ → List ℕ → Sei → Sei) (fuel : ℕ) (packet : List ℕ) (offset len : ℕ) (rest : Sei)
    → leb ((offset + 4) % 2 ^ 32) (length packet) ≡ true
    → leb 4 (length (drop offset packet)) ≡ true
    → reverse_bytes (le_value (take 4 (drop offset packet))) ≡ len
    → ltb (length packet) ((offset + 4 + len) % 2 ^ 32) ≡ false
    → avcc step fuel packet (offset + 4 + len) ≡ some rest
    → avcc step (suc fuel) packet offset ≡ some (step len (drop (offset + 4) packet) rest)
unfolding avcc
avcc_round step fuel packet offset len rest h1 h2 h3 h4 h5 =
    rw (h1, h2, h3, h4, h5, avcc) (ap (λ l. some (step l (drop (offset + 4) packet) rest)) h3)

-- One NAL unit that fills the packet.
avcc_single :
    (step : ℕ → List ℕ → Sei → Sei) (nalu : List ℕ)
    → length nalu + 8 < 2 ^ 32
    → avcc step (avcc_fuel (with_prefix false nalu)) (with_prefix false nalu) 0
      ≡ some (step (length nalu) nalu miss)
avcc_single step nalu h =
    ap (λ fuel. avcc step fuel packet 0) fuel_eq
    ∙ avcc_round step (suc (length packet)) packet 0 (length nalu) miss
        (le→leb 4 (length packet) (omega arith)) (le→leb 4 (length packet) (omega arith))
        (ap (λ v. reverse_bytes (le_value (le_bytes 4 (reverse_bytes v)))) (omega arith)
          ∙ prefix_value (length nalu) (omega arith))
        (le→ltb (length packet) ((0 + 4 + length nalu) % 2 ^ 32) (omega arith))
        (avcc_end step (length packet) packet (0 + 4 + length nalu) (omega arith) (omega arith))
  where
    packet : List ℕ
    packet = with_prefix false nalu

    fuel_eq : avcc_fuel packet ≡ suc (suc (length packet))
    fuel_eq = omega arith

h264_content :
    (c : ℕ) (cs : List ℕ) (buf_size : ℕ)
    → payload (c ∷ cs) < 2 ^ 32
    → length (c ∷ cs) < buf_size
    → h264_nalu (some buf_size) (length (6 ∷ body (c ∷ cs))) (6 ∷ body (c ∷ cs)) miss
      ≡ found (length (c ∷ cs)) (c ∷ cs)
unfolding h264_nalu
h264_content c cs buf_size h k = rw (le→leb 1 (suc (length (body (c ∷ cs)))) (omega arith)) (
    ap (λ n. if_positive (get_sei_buffer (body (c ∷ cs)) n (some buf_size)) miss) (omega arith)
    ∙ ap (λ s. if_positive s miss) (get_sei_buffer-body (c ∷ cs) buf_size h k))

-- `h264SeiPacketRead` finds in the length-prefixed packet that `h264SeiPacketWrite` made of content
-- that is not empty exactly that content, if the caller's buffer is larger than it and the size of
-- the NAL unit, as `h264SeiCalcNaluSize` gives it, is not from 256 to 511. The loop ends.
pub h264_read-write_avcc :
    (c : ℕ) (cs : List ℕ) (buf_size : ℕ)
    → payload (c ∷ cs) < 2 ^ 31
    → length (c ∷ cs) < buf_size
    → (h264_sei_calc_nalu_size (length (c ∷ cs)) < 256)
      ⊎ (512 ≤ h264_sei_calc_nalu_size (length (c ∷ cs)))
    → (packet : List ℕ) × (h264_sei_packet_write false (c ∷ cs) ≡ some packet)
      × (h264_sei_packet_read packet (some buf_size) ≡ some (found (length (c ∷ cs)) (c ∷ cs)))
unfolding h264_sei_packet_read
h264_read-write_avcc c cs buf_size h k u = (
  with_prefix false nalu,
  h264_write_lem false (c ∷ cs) (omega arith),
  rw (plain, h264_sei_packet_read)
      (avcc_single (h264_nalu (some buf_size)) nalu (omega (arith, total))
        ∙ ap some (h264_content c cs buf_size (omega arith) k)),
)
  where
    nalu : List ℕ
    nalu = 6 ∷ body (c ∷ cs)

    total : length (body (c ∷ cs)) ≡ payload (c ∷ cs) / 255 + 2 + payload (c ∷ cs) + 1
    total = length-message (c ∷ cs) (0x80 ∷ [])

    plain : starts_annexb (with_prefix false nalu) ≡ false
    plain =
        ap (λ n. starts_annexb (le_bytes 4 (reverse_bytes n) ++ nalu)) (omega (arith, total))
        ∙ not_annexb (length nalu) 6 (body (c ∷ cs)) (omega (arith, total))
            (omega (arith, total, calc_nalu_lem (c ∷ cs) h))

h265_content :
    (content : List ℕ) (buf_size : ℕ)
    → payload content < 2 ^ 32
    → length content < buf_size
    → h265_nalu (some buf_size) (length (78 ∷ 1 ∷ body content)) (78 ∷ 1 ∷ body content) miss
      ≡ found (length content) content
unfolding h265_nalu
h265_content content buf_size h k =
    rw (le→leb 2 (suc (suc (length (body content)))) (omega arith)) (
      ap (λ n. if_found (get_sei_buffer (body content) n (some buf_size)) miss) (omega arith)
      ∙ ap (λ s. if_found s miss) (get_sei_buffer-body content buf_size h k))

-- `h265SeiPacketRead` finds in the length-prefixed packet that `h265SeiPacketWrite` made exactly the
-- content, the empty one included, if the caller's buffer is larger than it and the size of the NAL
-- unit, one more than `h264SeiCalcNaluSize` gives, is not from 256 to 511. The loop ends.
pub h265_read-write_avcc :
    (content : List ℕ) (buf_size : ℕ)
    → payload content < 2 ^ 31
    → length content < buf_size
    → (h264_sei_calc_nalu_size (length content) + 1 < 256)
      ⊎ (512 ≤ h264_sei_calc_nalu_size (length content) + 1)
    → (packet : List ℕ) × (h265_sei_packet_write false content ≡ some packet)
      × (h265_sei_packet_read packet (some buf_size) ≡ some (found (length content) content))
unfolding h265_sei_packet_read
h265_read-write_avcc content buf_size h k u = (
  with_prefix false nalu,
  h265_write_lem false content (omega arith),
  rw (plain, h265_sei_packet_read)
      (avcc_single (h265_nalu (some buf_size)) nalu (omega (arith, total))
        ∙ ap some (h265_content content buf_size (omega arith) k)),
)
  where
    nalu : List ℕ
    nalu = 78 ∷ 1 ∷ body content

    total : length (body content) ≡ payload content / 255 + 2 + payload content + 1
    total = length-message content (0x80 ∷ [])

    plain : starts_annexb (with_prefix false nalu) ≡ false
    plain =
        ap (λ n. starts_annexb (le_bytes 4 (reverse_bytes n) ++ nalu)) (omega (arith, total))
        ∙ not_annexb (length nalu) 78 (1 ∷ body content) (omega (arith, total))
            (omega (arith, total, calc_nalu_lem content h))
