-- ===== src/Sei/Misread.antt =====
-- stream_sei.cpp: a length-prefixed packet that is taken for Annex B.
use otl.Common.{
  ℕ, zero, suc, ◌-◌, ◌/◌, ◌%◌, ◌^◌, ◌≤◌, ◌<◌, ◌≡◌, ◌≢◌, refl, ap, ap₂, ◌∙◌, some, true, false, Bool,
  ◌&&◌, not, List, [], ◌∷◌, ◌++◌, arith, length, drop, lt→ltb, ◌==◌, Option,
}
use otl.Buffer.Words.{le_bytes}
use otl.Sei.{
  miss, reverse_bytes, uuid, h264_annexb, get_sei_buffer, read_type, read_size, take_payload,
  starts_annexb, h264_sei_calc_nalu_size, h264_sei_packet_write, h264_sei_packet_read, with_prefix,
}
use otl.Sei.Field.{size_field}
use otl.Sei.Payload.{payload, message}
use otl.Sei.Sizes.{body, h264_write_lem, calc_nalu_lem}
use otl.Sei.Avcc.{prefix_bytes}

-- No two zeros stand side by side.
abbrev pub is_calm : List ℕ → Bool
is_calm [] = true
is_calm (a ∷ []) = true
is_calm (a ∷ b ∷ r) = not (a == 0 && b == 0) && is_calm (b ∷ r)

-- Where no two zeros stand side by side there is no start code.
h264_annexb-calm : (buff : Option ℕ) (xs : List ℕ) → is_calm xs ≡ true → h264_annexb buff xs ≡ miss
unfolding h264_annexb
h264_annexb-calm buff [] h = refl
h264_annexb-calm buff (a ∷ []) h = refl
h264_annexb-calm buff (a ∷ b ∷ []) h = refl
h264_annexb-calm buff (a ∷ b ∷ c ∷ []) h = refl
h264_annexb-calm buff (a ∷ b ∷ c ∷ d ∷ []) h = refl
h264_annexb-calm buff (a ∷ b ∷ c ∷ d ∷ e ∷ r) h =
    ground (arith, h264_annexb-calm buff (b ∷ c ∷ d ∷ e ∷ r))

calm_cons : (x : ℕ) (xs : List ℕ) → x ≢ 0 → is_calm xs ≡ true → is_calm (x ∷ xs) ≡ true
calm_cons x [] n h = refl
calm_cons x (y ∷ ys) n h = ground arith

calm_snoc : (xs : List ℕ) (y : ℕ) → y ≢ 0 → is_calm xs ≡ true → is_calm (xs ++ (y ∷ [])) ≡ true
calm_snoc [] y n h = refl
calm_snoc (a ∷ []) y n h = ground arith
calm_snoc (a ∷ b ∷ r) y n h = ground (arith, calm_snoc (b ∷ r) y n)

calm_field :
    (k last : ℕ) (x : ℕ) (r : List ℕ)
    → x ≢ 0
    → is_calm (x ∷ r) ≡ true
    → is_calm (size_field k last ++ (x ∷ r)) ≡ true
calm_field zero last x r n h = ground arith
calm_field (suc k) last x r n h =
    calm_cons 255 (size_field k last ++ (x ∷ r)) (omega arith) (calm_field k last x r n h)

calm_body : (content : List ℕ) → is_calm content ≡ true → is_calm (6 ∷ body content) ≡ true
unfolding message
calm_body content h = calm_cons 6 (body content) (omega arith) (
    calm_cons 5 (field ++ (uuid ++ rest)) (omega arith) (
      calm_field (payload content / 255) (payload content % 255) 0x54 (drop 1 uuid ++ rest)
        (omega arith) (calm_cons 0xac rest (omega arith) (calm_snoc content 0x80 (omega arith) h))))
  where
    field : List ℕ
    field = size_field (payload content / 255) (payload content % 255)

    rest : List ℕ
    rest = content ++ (0x80 ∷ [])

-- The first bytes of a prefix for 256 to 511 are a start code; the byte behind it is no SEI type.
not_sei :
    (d : ℕ) (buff : Option ℕ) (xs : List ℕ)
    → is_calm (6 ∷ 5 ∷ xs) ≡ true
    → h264_annexb buff (0 ∷ 0 ∷ 1 ∷ d ∷ 6 ∷ 5 ∷ xs) ≡ miss
unfolding h264_annexb get_sei_buffer read_type read_size take_payload
not_sei d buff xs h = ground (arith, h264_annexb-calm buff (6 ∷ 5 ∷ xs) h)

short_code : (d x : ℕ) (r : List ℕ) → starts_annexb (0 ∷ 0 ∷ 1 ∷ d ∷ x ∷ r) ≡ true
unfolding starts_annexb
short_code d x r = rw (lt→ltb 3 (length (0 ∷ 0 ∷ 1 ∷ d ∷ x ∷ r)) (omega arith)) refl

prefix_like_code :
    (len : ℕ)
    → 256 ≤ len
    → len < 512
    → le_bytes 4 (reverse_bytes (len % 2 ^ 32)) ≡ 0 ∷ 0 ∷ 1 ∷ (len - 256) ∷ []
prefix_like_code len lo hi =
    prefix_bytes (len % 2 ^ 32) (omega arith)
    ∙ ap₂ ◌∷◌ (omega arith)
        (ap₂ ◌∷◌ (omega arith) (ap₂ ◌∷◌ (omega arith) (ap₂ ◌∷◌ (omega arith) refl)))

lost :
    (d : ℕ) (buff : Option ℕ) (content : List ℕ)
    → is_calm content ≡ true
    → h264_sei_packet_read (0 ∷ 0 ∷ 1 ∷ d ∷ 6 ∷ body content) buff ≡ some miss
unfolding h264_sei_packet_read message
lost d buff content h =
    rw (short_code d 6 (body content), h264_sei_packet_read)
      (ap some (not_sei d buff (drop 1 (body content)) (calm_body content h)))

-- If the size of the NAL unit is from 256 to 511, and the content has no two zeros side by side,
-- `h264SeiPacketRead` takes the length prefix that `h264SeiPacketWrite` made for a start code, and
-- finds nothing.
pub h264_read-write_avcc_lost :
    (content : List ℕ) (buff : Option ℕ)
    → payload content < 2 ^ 31
    → 256 ≤ h264_sei_calc_nalu_size (length content)
    → h264_sei_calc_nalu_size (length content) < 512
    → is_calm content ≡ true
    → (packet : List ℕ) × (h264_sei_packet_write false content ≡ some packet)
      × (h264_sei_packet_read packet buff ≡ some miss)
h264_read-write_avcc_lost content buff h lo hi calm = (
  with_prefix false (6 ∷ body content),
  h264_write_lem false content (omega arith),
  ap (λ p. h264_sei_packet_read (p ++ (6 ∷ body content)) buff)
        (prefix_like_code (length (6 ∷ body content)) (omega (arith, calc_nalu_lem content h))
          (omega (arith, calc_nalu_lem content h)))
      ∙ lost (length (6 ∷ body content) - 256) buff content calm,
)
