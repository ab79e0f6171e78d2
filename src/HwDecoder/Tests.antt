-- ===== src/HwDecoder/Tests.antt =====
-- stream_decode_hw.cpp: concrete runs.
use otl.Common.{ℕ, ◌≡◌, inl, inr, refl, arith, true, false, [], ◌∷◌, some}
use otl.Strings.{begins}
use otl.HwDecoder.{
  h264, h265, has_start_code, skip, parse_annexb, parse, on_h264, is_key_frame, format_among,
  get_hw_format, Sent, taken, Received, frame, pictures, decode_frame,
}
use otl.HwDecoder.Units.{prefixed, is_key_frame-prefixed}
use otl.HwDecoder.Frames.{decode_frame_lem}

-- A packet of Annex B with SEI in front of an IDR picture.
behind_sei :
    is_key_frame (some h264) false (0 ∷ 0 ∷ 0 ∷ 1 ∷ 6 ∷ 9 ∷ 0 ∷ 0 ∷ 1 ∷ 101 ∷ 7 ∷ 7 ∷ 7 ∷ 7 ∷ [])
    ≡ some true
unfolding is_key_frame parse has_start_code skip parse_annexb begins on_h264
behind_sei = refl

-- The last unit is cut three bytes short, so that an IDR picture of three bytes is not seen.
last_unit_cut : is_key_frame (some h264) false (0 ∷ 0 ∷ 0 ∷ 1 ∷ 101 ∷ 7 ∷ 7 ∷ []) ≡ some false
unfolding is_key_frame parse has_start_code skip parse_annexb begins on_h264
last_unit_cut = refl

fallback : get_hw_format (3 ∷ 4 ∷ []) 5 ≡ some 3
unfolding get_hw_format format_among
fallback = refl

wanted : get_hw_format (3 ∷ 4 ∷ []) 4 ≡ some 4
unfolding get_hw_format format_among
wanted = refl

is_key_frame-prefixed_example :
    is_key_frame (some h265) false (prefixed ((78 ∷ 1 ∷ 5 ∷ []) ∷ (38 ∷ 1 ∷ 9 ∷ []) ∷ []))
    ≡ some true
is_key_frame-prefixed_example =
    is_key_frame-prefixed h265 false (78 ∷ 1 ∷ 5 ∷ []) ((38 ∷ 1 ∷ 9 ∷ []) ∷ []) (inr refl)
      (omega arith, inl (omega arith))
      ((omega arith, omega arith), ((omega arith, omega arith), tt))

decode_frame_lem_example :
    decode_frame {P = ℕ} Sent.again
      (frame 1 ∷ Received.again ∷ [])
      taken
      true
      (frame 2 ∷ frame 3 ∷ Received.again ∷ [])
    ≡ some (pictures 3, some 3)
decode_frame_lem_example =
    decode_frame_lem Sent.again (frame 1 ∷ Received.again ∷ [])
      (frame 2 ∷ frame 3 ∷ Received.again ∷ []) tt tt tt
