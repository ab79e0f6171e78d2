-- ===== src/HwDecoder/Units.antt =====
-- stream_decode_hw.cpp: `isKeyFrame` on a packet of length-prefixed NAL units.
use otl.Common.{
  ℕ, zero, suc, ◌+◌, ◌*◌, ◌/◌, ◌%◌, ◌^◌, ◌≤◌, ◌<◌, ◌≡◌, ◌⊎◌, inl, inr, refl, ap, ap₂, ◌∙◌, arith,
  Bool, true, false, ◌&&◌, ◌||◌, List, [], ◌∷◌, ◌++◌, Option, some, ltb, leb, ◌==◌, if◌then◌else◌,
  length, length-append, le→leb, ne→==, le→ltb, take, drop, take-length_append, drop-length_append,
  All,
}
use otl.Strings.{begins}
use otl.HwDecoder.{
  Codec, h264, h265, other, has_start_code, skip, with_unit, big_endian, parse_annexb, parse_avcc,
  on_h264, on_h265, any, found_key, parse, is_key_frame,
}

-- Units behind their lengths, highest byte first.
abbrev pub prefixed : List (List ℕ) → List ℕ
prefixed [] = []
prefixed (u ∷ us) =
    length u / 16777216
    ∷ length u / 65536 % 256
    ∷ length u / 256 % 256
    ∷ length u % 256
    ∷ (u ++ prefixed us)

abbrev pub IsUnit : List ℕ → Type 0
IsUnit u = (0 < length u) × (length u < 2 ^ 32)

-- The units that are longer than their header.
abbrev pub longer : ℕ → List (List ℕ) → List (List ℕ)
longer hdr [] = []
longer hdr (u ∷ us) = if ltb hdr (length u) then u ∷ longer hdr us else longer hdr us

prefix_value :
    (n : ℕ) → n < 2 ^ 32 → big_endian (n / 16777216) (n / 65536 % 256) (n / 256 % 256) (n % 256) ≡ n
prefix_value n h = omega (arith, h)

parse_avcc_lem :
    (fuel hdr : ℕ) (us : List (List ℕ))
    → length (prefixed us) < fuel
    → All IsUnit us
    → parse_avcc fuel hdr (prefixed us) ≡ some (longer hdr us)
unfolding parse_avcc
parse_avcc_lem zero hdr us f h = absurd (omega (arith, f))
parse_avcc_lem (suc fuel) hdr [] f h = refl
parse_avcc_lem (suc fuel) hdr (u ∷ us) f h =
    ap body (prefix_value (length u) h.0.1)
    ∙ rw
        (
          le→leb 4 (suc (suc (suc (suc (length rest))))) (omega arith),
          ne→== (length u) 0 (λ e. positive e),
          le→ltb (length rest) (length u) (omega (arith, length-append u (prefixed us))),
          take-length_append u (prefixed us),
          drop-length_append u (prefixed us),
          parse_avcc_lem fuel hdr us (omega (arith, f, length-append u (prefixed us))) h.1,
        )
        (chosen (ltb hdr (length u)))
  where
    rest : List ℕ
    rest = u ++ prefixed us

    positive : length u ≡ 0 → ⊥
    positive e = omega (arith, e, h.0.0)

    body : ℕ → Option (List (List ℕ))
    body n =
        if leb 4 (suc (suc (suc (suc (length rest)))))
        then if n == 0 || ltb (length rest) n
          then some []
          else if ltb hdr n
          then with_unit (take n rest) (parse_avcc fuel hdr (drop n rest))
          else parse_avcc fuel hdr (drop n rest)
        else some []

    chosen :
        (b : Bool)
        → if◌then◌else◌ b (with_unit u (some (longer hdr us))) (some (longer hdr us))
          ≡ some (if b then u ∷ longer hdr us else longer hdr us)
    chosen true = refl
    chosen false = refl

-- A length that does not look like a start code.
abbrev pub Unlike : ℕ → Type 0
Unlike n = (1 < n) × ((n < 256) ⊎ (512 ≤ n))

plain_prefix :
    (n a b c d : ℕ) (r : List ℕ)
    → Unlike n
    → d < 256
    → n ≡ a * 16777216 + b * 65536 + c * 256 + d
    → has_start_code (a ∷ b ∷ c ∷ d ∷ r) ≡ false
unfolding has_start_code begins
plain_prefix n a b c d r u small e = ground arith

parse_lem :
    (hdr : ℕ) (u : List ℕ) (us : List (List ℕ))
    → Unlike (length u)
    → All IsUnit (u ∷ us)
    → parse hdr (prefixed (u ∷ us)) ≡ some (longer hdr (u ∷ us))
unfolding parse
parse_lem hdr u us k h =
    ap (λ b. if b then annexb else avcc)
      (plain_prefix (length u) (length u / 16777216) (length u / 65536 % 256) (length u / 256 % 256)
        (length u % 256) (u ++ prefixed us) k (omega arith) (omega (arith, h.0.1)))
    ∙ parse_avcc_lem (length (prefixed (u ∷ us)) + 1) hdr (u ∷ us) (omega arith) h
  where
    annexb : Option (List (List ℕ))
    annexb = parse_annexb (length (prefixed (u ∷ us)) + 1) (skip (prefixed (u ∷ us)))

    avcc : Option (List (List ℕ))
    avcc = parse_avcc (length (prefixed (u ∷ us)) + 1) hdr (prefixed (u ∷ us))

-- The bytes of the header of a NAL unit, and the units that are key pictures: IDR in H.264, IDR or
-- CRA in H.265.
abbrev pub header_bytes : Codec → ℕ
header_bytes h264 = 1
header_bytes h265 = 2
header_bytes other = 0

abbrev pub is_idr : List ℕ → Bool
is_idr [] = false
is_idr (header ∷ nalu) = header % 32 == 5

abbrev pub is_access_point : List ℕ → Bool
is_access_point [] = false
is_access_point (header ∷ []) = false
is_access_point (header ∷ second ∷ nalu) = leb 19 (header / 2 % 64) && leb (header / 2 % 64) 21

abbrev pub is_key : Codec → List ℕ → Bool
is_key h264 = is_idr
is_key h265 = is_access_point
is_key other = λ u. false

on_h264_lem : (u : List ℕ) → on_h264 u ≡ is_idr u
unfolding on_h264
on_h264_lem [] = refl
on_h264_lem (header ∷ nalu) = ground arith

on_h265_lem : (u : List ℕ) → on_h265 u ≡ is_access_point u
unfolding on_h265
on_h265_lem [] = refl
on_h265_lem (header ∷ []) = refl
on_h265_lem (header ∷ second ∷ nalu) = ground arith

any_same :
    (f g : List ℕ → Bool) (us : List (List ℕ)) → ((u : List ℕ) → f u ≡ g u) → any f us ≡ any g us
any_same f g [] h = refl
any_same f g (u ∷ us) h = ap₂ ◌||◌ (h u) (any_same f g us h)

-- A packet of H.264 or H.265 that is a sequence of NAL units behind their lengths, the first of them
-- not 1 nor from 256 to 511 bytes long, is a key frame for `isKeyFrame` exactly if one of its units
-- that are longer than their header is a key picture, at whatever place: with SEI, parameter sets
-- and a delimiter in front of it as well.
pub is_key_frame-prefixed :
    (codec : Codec) (flagged : Bool) (u : List ℕ) (us : List (List ℕ))
    → (codec ≡ h264) ⊎ (codec ≡ h265)
    → Unlike (length u)
    → All IsUnit (u ∷ us)
    → is_key_frame (some codec) flagged (prefixed (u ∷ us))
      ≡ some (any (is_key codec) (longer (header_bytes codec) (u ∷ us)))
unfolding is_key_frame
is_key_frame-prefixed h264 flagged u us c k h =
    ap (found_key on_h264) (parse_lem 1 u us k h)
    ∙ ap some (any_same on_h264 is_idr (longer 1 (u ∷ us)) on_h264_lem)
is_key_frame-prefixed h265 flagged u us c k h =
    ap (found_key on_h265) (parse_lem 2 u us k h)
    ∙ ap some (any_same on_h265 is_access_point (longer 2 (u ∷ us)) on_h265_lem)
is_key_frame-prefixed other flagged u us (inl e) k h = absurd (cc e)
is_key_frame-prefixed other flagged u us (inr e) k h = absurd (cc e)
