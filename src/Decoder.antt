-- ===== src/Decoder.antt =====
-- stream_decode.cpp and stream_decode.h: `StreamDecoder`, the callbacks that the demuxer calls. What
-- FFmpeg answers is an argument. A packet is its bytes and the bytes that FFmpeg keeps behind them;
-- `none` is a read behind both, or through a null pointer. The counter of frames is not bounded.
pub mod KeyFrame
pub mod Opening
mod Accepted
pub mod Order
mod Tests
use otl.Common.{
  ℕ, zero, suc, ◌+◌, ◌-◌, ◌%◌, ◌/◌, Bool, true, false, ◌&&◌, ◌||◌, not, List, [], ◌∷◌, ◌++◌, Option,
  none, some, ◌==◌, leb, ltb, if◌then◌else◌, length, drop, get_elem?,
}
use otl.Sei.{Sei, fault, miss, found, start_code, h264_sei_packet_read, h265_sei_packet_read}

pub data Codec : Type 0 where
  h264 h265 other : Codec

pub record Packet : Type 0 where
  pub stream_index : ℕ
  pub bytes : List ℕ
  pub padding : List ℕ
  pub pts : ℕ
  pub pos : ℕ

-- The calls of the observer and of the functions that were set.
pub data Call : Type 0 where
  observer_frame func_frame : Option Packet → Call
  observer_sei func_sei : ℕ → List ℕ → ℕ → ℕ → Call
  observer_eof func_eof func_closed : Call

pub record Hooks : Type 0 where
  pub observer : Bool
  pub on_frame : Bool
  pub on_sei : Bool
  pub on_eof : Bool
  pub on_closed : Bool

-- `dec_ctx` and `external_dec_ctx` are the codec of the context, `none` for a null pointer.
pub record Decoder : Type 0 where
  pub hooks : Hooks
  pub list_packets : List Packet
  pub dec_ctx : Option Codec
  pub external_dec_ctx : Option Codec
  pub video_stream_index : ℕ
  pub frame_decoded_num : ℕ
  pub is_waiting_iframe : Bool
  pub calls : List Call

-- What `avcodec_send_packet` and `avcodec_receive_frame` return.
pub data Sent : Type 0 where
  taken send_eof send_failed : Sent

pub data Received : Type 0 where
  frame again receive_eof receive_failed : Received

pub record Stream : Type 0 where
  pub is_video : Bool
  pub codec : Codec

pub record Setup : Type 0 where
  pub decoder_found : Bool
  pub allocated : Bool
  pub copied : Bool
  pub opened : Bool

pub create : Hooks → Option Codec → Decoder
create hooks external = record {
  hooks = hooks;
  list_packets = [];
  dec_ctx = none;
  external_dec_ctx = external;
  video_stream_index = 0;
  frame_decoded_num = 0;
  is_waiting_iframe = true;
  calls = [];
}

abbrev pub context : Option Codec → Option Codec → Option Codec
context (some c) dec = some c
context none dec = dec

-- The number of pictures, and `none` for -1. The loop runs once: every answer leaves it.
pub decode_frame : Sent → Received → Option ℕ
decode_frame send_failed r = none
decode_frame taken frame = some 1
decode_frame taken again = some 0
decode_frame taken receive_eof = some 0
decode_frame taken receive_failed = some 0
decode_frame send_eof frame = some 1
decode_frame send_eof again = some 0
decode_frame send_eof receive_eof = some 0
decode_frame send_eof receive_failed = some 0

-- The memory begins with these bytes; the bytes are compared until one differs.
pub at_code : List ℕ → List ℕ → Option Bool
at_code [] p = some true
at_code (k ∷ code) [] = none
at_code (k ∷ code) (b ∷ p) = if k == b then at_code code p else some false

abbrev pub nal_type : Option ℕ → Option ℕ
nal_type none = none
nal_type (some b) = some (b % 32)

abbrev pub scan_test : Option Bool → Option ℕ → Option ℕ → Option ℕ
scan_test none here more = none
scan_test (some true) here more = here
scan_test (some false) here more = more

-- The loop of `isKeyFrame`, with `left` bytes between `p` and `end`.
pub scan : ℕ → List ℕ → ℕ → Option ℕ
scan zero p nal = some nal
scan (suc left) [] nal = none
scan (suc left) (b ∷ p) nal =
    scan_test (at_code start_code (b ∷ p)) (nal_type (get_elem? p 3)) (scan left p nal)

abbrev pub memory : Packet → List ℕ
memory p = p.bytes ++ p.padding

-- With fewer than four bytes `p` starts behind `end` and does not meet it.
abbrev pub left_of : Packet → ℕ
left_of p = if leb 4 (length p.bytes) then length p.bytes - 4 else length (memory p)

abbrev pub is_key_type : Option ℕ → Option Bool
is_key_type none = none
is_key_type (some nal) = some (nal == 7 || nal == 5)

abbrev pub search_type : Packet → Option ℕ → Option ℕ
search_type p none = none
search_type p (some nal) = if nal == 7 then some nal else scan (left_of p) (drop 4 (memory p)) nal

pub is_key_frame : Option Codec → Packet → Option Bool
is_key_frame none p = none
is_key_frame (some h265) p = some true
is_key_frame (some other) p = some true
is_key_frame (some h264) p = is_key_type (search_type p (nal_type (get_elem? (memory p) 4)))

abbrev pub and_then {ℓ κ} : {A : Type ℓ} → {B : Type κ} → Option A → (A → Option B) → Option B
and_then none f = none
and_then (some a) f = f a

-- The size and the bytes in the caller's buffer; the readers return -1 for `miss`, which is no size.
abbrev pub read_content : Option Sei → Option (ℕ × List ℕ)
read_content none = none
read_content (some fault) = none
read_content (some miss) = some (0, [])
read_content (some (found n copied)) = some (n, copied)

abbrev pub call_if : Bool → Call → List Call
call_if b c = if b then c ∷ [] else []

abbrev pub sei_calls : Bool → Bool → Packet → ℕ × List ℕ → List Call
sei_calls observer func p (size, content) =
    if ltb 0 size
    then call_if observer (observer_sei size content p.pts p.pos)
      ++ call_if func (func_sei size content p.pts p.pos)
    else []

-- The H.264 branch: the observer is not told.
abbrev pub h264_after_code : Hooks → Packet → Bool → Option (List Call)
h264_after_code hooks p false = some []
h264_after_code hooks p true =
    and_then (read_content (h264_sei_packet_read p.bytes (some (length p.bytes))))
      (λ sei. some (sei_calls false hooks.on_sei p sei))

-- The H.265 branch: the first read's result is not used, and the second reads as H.264.
abbrev pub h265_second : Hooks → Packet → ℕ → Option (List Call)
h265_second hooks p header =
    let second =
      and_then (read_content (h264_sei_packet_read p.bytes (some (length p.bytes))))
        (λ sei. some (sei_calls hooks.observer hooks.on_sei p sei)) in
    if header / 2 % 64 == 39 && (hooks.observer || hooks.on_sei) then second else some []

abbrev pub h265_after_code : Hooks → Packet → Bool → Option (List Call)
h265_after_code hooks p false = some []
h265_after_code hooks p true =
    and_then (read_content (h265_sei_packet_read p.bytes (some (length p.bytes))))
      (λ sei. and_then (get_elem? (memory p) 4) (h265_second hooks p))

pub read_sei : Codec → Hooks → Packet → Option (List Call)
read_sei h264 hooks p = and_then (at_code start_code (memory p)) (h264_after_code hooks p)
read_sei h265 hooks p = and_then (at_code start_code (memory p)) (h265_after_code hooks p)
read_sei other hooks p = some []

abbrev pub call : Decoder → List Call → Decoder
call d cs = record d { calls = d.calls ++ cs }

pub put_packet : Decoder → Packet → Decoder
put_packet d p = record d { list_packets = d.list_packets ++ (p ∷ []) }

abbrev pub front_of : List Packet → Option Packet
front_of [] = none
front_of (p ∷ ps) = some p

abbrev pub behind_front : List Packet → List Packet
behind_front [] = []
behind_front (p ∷ ps) = ps

-- The packet, `none` for a null pointer, and the decoder behind `getPacket`.
pub get_packet : Decoder → Option Packet × Decoder
get_packet d = (front_of d.list_packets, record d { list_packets = behind_front d.list_packets })

pub clear_packets : Decoder → Decoder
clear_packets d = record d { list_packets = [] }

-- `onReadFrame` behind `decodeFrame`, and what it returns: `none` for -1.
abbrev pub report : Decoder × Option Packet → Decoder
report (d, front) =
    call d (
      call_if d.hooks.observer (observer_frame front)
      ++ call_if d.hooks.on_frame (func_frame front))

abbrev pub swap : Option Packet × Decoder → Decoder × Option Packet
swap (p, d) = (d, p)

abbrev pub after_decode : Decoder → Packet → Option ℕ → Decoder × Option ℕ
after_decode d p none = (d, none)
after_decode d p (some zero) = (put_packet d p, some 0)
after_decode d p (some (suc n)) = (
  report
      (swap (get_packet (put_packet (record d { frame_decoded_num = suc d.frame_decoded_num }) p))),
  some (suc n),
)

-- The test for a key frame, made while the decoder waits for one: whether it still waits.
abbrev pub waits_after : Decoder → Packet → Option Bool
waits_after d p =
    if d.is_waiting_iframe
    then and_then (is_key_frame (context d.external_dec_ctx d.dec_ctx) p) (λ key. some (not key))
    else some false

abbrev pub decode_sei :
    Decoder → Packet → Sent → Received → Option Codec → Option (Decoder × Option ℕ)
decode_sei d p s r none = none
decode_sei d p s r (some codec) =
    and_then (read_sei codec d.hooks p) (λ cs. some (after_decode (call d cs) p (decode_frame s r)))

abbrev pub decode_unless : Decoder → Packet → Sent → Received → Bool → Option (Decoder × Option ℕ)
decode_unless d p s r true = some (d, some 0)
decode_unless d p s r false =
    decode_sei (record d { is_waiting_iframe = false }) p s r (context d.external_dec_ctx d.dec_ctx)

pub on_read_frame : Decoder → Packet → Sent → Received → Option (Decoder × Option ℕ)
on_read_frame d p s r =
    let decoded = and_then (waits_after d p) (decode_unless d p s r) in
    if d.video_stream_index == p.stream_index then decoded else some (d, some 0)

pub on_read_eof : Decoder → Decoder
on_read_eof d =
    call (clear_packets (record d { frame_decoded_num = 0 }))
      (call_if d.hooks.observer observer_eof ++ call_if d.hooks.on_eof func_eof)

pub on_avformat_closed : Decoder → Decoder
on_avformat_closed d =
    call (record (clear_packets d) { dec_ctx = none }) (call_if d.hooks.on_closed func_closed)
