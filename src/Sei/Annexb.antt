-- ===== src/Sei/Annexb.antt =====
-- stream_sei.cpp: an Annex B packet that was written is read back.
use otl.Common.{ℕ, ◌^◌, ◌<◌, ◌≡◌, ap, ◌∙◌, some, true, List, [], ◌∷◌, arith, length, lt→ltb}
use otl.Sei.{
  found, starts_annexb, get_sei_buffer, h264_annexb, h265_annexb, h264_sei_packet_write,
  h265_sei_packet_write, h264_sei_packet_read, h265_sei_packet_read, with_prefix, if_positive,
  if_found,
}
use otl.Sei.Payload.{payload, length-message, get_sei_buffer-message, copy_content_lem}
use otl.Sei.Sizes.{body, h264_write_lem, h265_write_lem}

-- A whole message is found where it stands alone.
pub get_sei_buffer-body :
    (content : List ℕ) (buf_size : ℕ)
    → payload content < 2 ^ 32
    → length content < buf_size
    → get_sei_buffer (body content) (length (body content)) (some buf_size)
      ≡ found (length content) content
get_sei_buffer-body content buf_size h k =
    get_sei_buffer-message content (0x80 ∷ []) (length (body content)) (some buf_size) h
      (omega (arith, length-message content (0x80 ∷ [])))
    ∙ copy_content_lem content (0x80 ∷ []) buf_size k

pub starts_with_code : (x : ℕ) (r : List ℕ) → starts_annexb (0 ∷ 0 ∷ 0 ∷ 1 ∷ x ∷ r) ≡ true
unfolding starts_annexb
starts_with_code x r = rw (lt→ltb 4 (length (0 ∷ 0 ∷ 0 ∷ 1 ∷ x ∷ r)) (omega arith)) (ground arith)

h264_code :
    (c : ℕ) (cs r : List ℕ) (buf_size : ℕ)
    → get_sei_buffer r (length r) (some buf_size) ≡ found (length (c ∷ cs)) (c ∷ cs)
    → h264_annexb (some buf_size) (0 ∷ 0 ∷ 0 ∷ 1 ∷ 6 ∷ r) ≡ found (length (c ∷ cs)) (c ∷ cs)
unfolding h264_annexb
h264_code c cs r buf_size e = ap (λ s. if_positive s (h264_annexb (some buf_size) r)) e

-- `h264SeiPacketRead` finds in the Annex B packet that `h264SeiPacketWrite` made of content that is
-- not empty, of less than 2^32 - 16 bytes, exactly that content, if the caller's buffer is larger
-- than it.
pub h264_read-write_annexb :
    (c : ℕ) (cs : List ℕ) (buf_size : ℕ)
    → payload (c ∷ cs) < 2 ^ 32
    → length (c ∷ cs) < buf_size
    → (packet : List ℕ) × (h264_sei_packet_write true (c ∷ cs) ≡ some packet)
      × (h264_sei_packet_read packet (some buf_size) ≡ some (found (length (c ∷ cs)) (c ∷ cs)))
unfolding h264_sei_packet_read
h264_read-write_annexb c cs buf_size h k = (
  with_prefix true (6 ∷ body (c ∷ cs)),
  h264_write_lem true (c ∷ cs) h,
  rw (starts_with_code 6 (body (c ∷ cs)), h264_sei_packet_read)
      (ap some
        (h264_code c cs (body (c ∷ cs)) buf_size (get_sei_buffer-body (c ∷ cs) buf_size h k))),
)

h265_code :
    (content r : List ℕ) (buf_size : ℕ)
    → 0 < length r
    → get_sei_buffer r (length r) (some buf_size) ≡ found (length content) content
    → h265_annexb (some buf_size) (0 ∷ 0 ∷ 0 ∷ 1 ∷ 78 ∷ 1 ∷ r) ≡ found (length content) content
unfolding h265_annexb
h265_code content r buf_size h e =
    rw (lt→ltb 0 (length r) h) (ap (λ s. if_found s (h265_annexb (some buf_size) r)) e)

-- `h265SeiPacketRead` finds in the Annex B packet that `h265SeiPacketWrite` made of content of less
-- than 2^32 - 16 bytes, the empty one included, exactly that content, if the caller's buffer is
-- larger than it.
pub h265_read-write_annexb :
    (content : List ℕ) (buf_size : ℕ)
    → payload content < 2 ^ 32
    → length content < buf_size
    → (packet : List ℕ) × (h265_sei_packet_write true content ≡ some packet)
      × (h265_sei_packet_read packet (some buf_size) ≡ some (found (length content) content))
unfolding h265_sei_packet_read
h265_read-write_annexb content buf_size h k = (
  with_prefix true (78 ∷ 1 ∷ body content),
  h265_write_lem true content h,
  rw (starts_with_code 78 (1 ∷ body content), h265_sei_packet_read)
      (ap some (
        h265_code content (body content) buf_size
          (omega (arith, length-message content (0x80 ∷ [])))
          (get_sei_buffer-body content buf_size h k))),
)
