-- ===== src/HwDecoder.antt =====
-- stream_decode_hw.cpp: the hardware `StreamDecoder`, `get_hw_format`, `decodeFrame` and `isKeyFrame`.
-- A pointer into a packet is the bytes from there to the packet's end. What FFmpeg answers is an
-- argument. `none` means that the fuel ran out, or the answers.
pub mod Units
pub mod Ends
pub mod Frames
mod Tests
use otl.Common.{
  ℕ, zero, suc, ◌+◌, ◌-◌, ◌*◌, ◌/◌, ◌%◌, ◌^◌, Bool, true, false, not, ◌&&◌, ◌||◌, List, [], ◌∷◌,
  Option, none, some, ltb, leb, ◌==◌, if◌then◌else◌, length, take, drop, get_or,
}
use otl.Strings.{begins}

pub data Codec : Type 0 where
  h264 h265 other : Codec

pub has_start_code : List ℕ → Bool
has_start_code p = begins (0 ∷ 0 ∷ 1 ∷ []) p || begins (0 ∷ 0 ∷ 0 ∷ 1 ∷ []) p

-- `while (p + 3 < end && !has_start_code(p, end - p)) p++;`
pub skip : List ℕ → List ℕ
skip [] = []
skip (c ∷ p) =
    let rest = skip p in
    if ltb 3 (length (c ∷ p)) && not (has_start_code (c ∷ p)) then rest else c ∷ p

-- `on_nalu` gets a unit.
abbrev pub with_unit : List ℕ → Option (List (List ℕ)) → Option (List (List ℕ))
with_unit nalu none = none
with_unit nalu (some more) = some (nalu ∷ more)

-- The second loop of `parse_annexb`.
pub parse_annexb : ℕ → List ℕ → Option (List (List ℕ))
parse_annexb zero p = none
parse_annexb (suc fuel) p =
    let sc = if get_or p 2 0 == 1 then 3 else 4 in
    let nalu_start = drop sc p in
    let q = skip nalu_start in
    let n = length nalu_start - length q in
    let more = parse_annexb fuel q in
    if ltb 3 (length p) && has_start_code p
    then if leb (length p) sc
      then some []
      else if ltb 0 n
      then with_unit (take n nalu_start) more
      else more
    else some []

abbrev pub big_endian : ℕ → ℕ → ℕ → ℕ → ℕ
big_endian a b c d = (a * 16777216 + b * 65536 + c * 256 + d) % 2 ^ 32

-- `parse_avcc`
pub parse_avcc : ℕ → ℕ → List ℕ → Option (List (List ℕ))
parse_avcc zero nalu_hdr_bytes p = none
parse_avcc (suc fuel) nalu_hdr_bytes p =
    let be_len = big_endian (get_or p 0 0) (get_or p 1 0) (get_or p 2 0) (get_or p 3 0) in
    let behind = drop 4 p in
    let more = parse_avcc fuel nalu_hdr_bytes (drop be_len behind) in
    if leb 4 (length p)
    then if be_len == 0 || ltb (length behind) be_len
      then some []
      else if ltb nalu_hdr_bytes be_len
      then with_unit (take be_len behind) more
      else more
    else some []

-- `on_h264` and `on_h265`: does a unit make the packet a key frame.
pub on_h264 : List ℕ → Bool
on_h264 [] = false
on_h264 (header ∷ nalu) =
    let nal_type = header % 32 in
    if nal_type == 6 || (nal_type == 7 || nal_type == 8) then false else nal_type == 5

pub on_h265 : List ℕ → Bool
on_h265 [] = false
on_h265 (header ∷ []) = false
on_h265 (header ∷ second ∷ nalu) =
    let nal_unit_type = header / 2 % 64 in
    if nal_unit_type == 39 || nal_unit_type == 40
    then false
    else nal_unit_type == 19 || (nal_unit_type == 20 || nal_unit_type == 21)

abbrev pub any : (List ℕ → Bool) → List (List ℕ) → Bool
any test [] = false
any test (u ∷ us) = test u || any test us

abbrev pub found_key : (List ℕ → Bool) → Option (List (List ℕ)) → Option Bool
found_key test none = none
found_key test (some us) = some (any test us)

pub parse : ℕ → List ℕ → Option (List (List ℕ))
parse nalu_hdr_bytes bytes =
    if has_start_code bytes
    then parse_annexb (length bytes + 1) (skip bytes)
    else parse_avcc (length bytes + 1) nalu_hdr_bytes bytes

abbrev pub key_frame_of : Codec → Bool → List ℕ → Option Bool
key_frame_of h264 flagged bytes = found_key on_h264 (parse 1 bytes)
key_frame_of h265 flagged bytes = found_key on_h265 (parse 2 bytes)
key_frame_of other flagged bytes = some flagged

-- The codec of the context, if there is one; `flagged` is `AV_PKT_FLAG_KEY`.
pub is_key_frame : Option Codec → Bool → List ℕ → Option Bool
is_key_frame none flagged bytes = some false
is_key_frame (some codec) flagged [] = some false
is_key_frame (some codec) flagged (c ∷ p) = key_frame_of codec flagged (c ∷ p)

-- The formats that the decoder offers, up to the -1; `none` is the -1 of an empty list.
pub format_among : List ℕ → ℕ → Option ℕ → Option ℕ
format_among [] wanted first = first
format_among (f ∷ fs) wanted first =
    let rest = format_among fs wanted first in if f == wanted then some f else rest

pub get_hw_format : List ℕ → ℕ → Option ℕ
get_hw_format [] wanted = none
get_hw_format (f ∷ fs) wanted = format_among (f ∷ fs) wanted (some f)

-- `avcodec_send_packet` and `avcodec_receive_frame`; an error has its number.
pub data Sent : Type 0 where
  taken again : Sent
  failed : ℕ → Sent

pub data Received (P : Type 0) : Type 0 where
  frame : P → Received P
  again eof : Received P
  failed : ℕ → Received P

-- What `decodeFrame` returns, the number of pictures or an error.
pub data Decoded : Type 0 where
  pictures : ℕ → Decoded
  error : ℕ → Decoded
  no_memory : Decoded

module _ {P : Type 0} where
  -- The loop that makes room: any negative answer ends it, with the number of pictures. It receives
  -- into `pFrame`, which `avcodec_receive_frame` empties first, so that it is left empty.
  pub make_room : List (Received P) → ℕ → Option ℕ
  make_room [] got = none
  make_room (frame f ∷ answers) got = make_room answers (got + 1)
  make_room (Received.again ∷ answers) got = some got
  make_room (Received.eof ∷ answers) got = some got
  make_room (Received.failed n ∷ answers) got = some got

  -- The loop that receives frames.
  pub receive_frames : List (Received P) → ℕ → Option P → Option (Decoded × Option P)
  receive_frames [] got picture = none
  receive_frames (frame f ∷ answers) got picture = receive_frames answers (got + 1) (some f)
  receive_frames (Received.again ∷ answers) got picture = some (pictures got, picture)
  receive_frames (Received.eof ∷ answers) got picture = some (pictures got, picture)
  receive_frames (Received.failed n ∷ answers) got picture = some (error n, picture)

  abbrev pub receive_if : Bool → List (Received P) → ℕ → Option (Decoded × Option P)
  receive_if false answers got = some (no_memory, none)
  receive_if true answers got = receive_frames answers got none

  abbrev pub retry : Sent → Bool → List (Received P) → Option ℕ → Option (Decoded × Option P)
  retry s allocated answers none = none
  retry taken allocated answers (some got) = receive_if allocated answers got
  retry Sent.again allocated answers (some got) = some (error 11, none)
  retry (Sent.failed n) allocated answers (some got) = some (error n, none)

  -- The answers to the first attempt, to the loop that makes room, to the second attempt, to the
  -- allocation and to the loop at the end; EAGAIN is 11. The result has the picture in `pFrame`.
  pub decode_frame :
      Sent → List (Received P) → Sent → Bool → List (Received P) → Option (Decoded × Option P)
  decode_frame taken room second allocated answers = receive_if allocated answers 0
  decode_frame Sent.again room second allocated answers =
      retry second allocated answers (make_room room 0)
  decode_frame (Sent.failed n) room second allocated answers = some (error n, none)
