-- ===== src/Decoder/Tests.antt =====
-- stream_decode.cpp: packets of a small H.264 stream.
use otl.Common.{
  ℕ, ◌≡◌, refl, arith, ◌==◌, ◌||◌, true, false, List, [], ◌∷◌, ◌++◌, Option, none, some, map,
  replicate,
}
use otl.Sei.{
  found, start_code, h265_sei_packet_write, h264_sei_packet_read, h265_sei_packet_read,
  starts_annexb, h264_annexb, h265_annexb, get_sei_buffer, read_type, read_size, take_payload,
  copy_content, sei_body, write_size,
}
use otl.Decoder.{
  h264, h265, Packet, observer_frame, func_frame, Hooks, Decoder, Sent, taken, send_failed,
  Received, frame, again, create, at_code, scan, is_key_frame, decode_frame, on_read_frame,
  put_packet, get_packet, read_sei,
}
use otl.Decoder.KeyFrame.{found_type, is_key_frame_lem}
use otl.Decoder.Accepted.{Input, run, frames_to, accepted}
use otl.Decoder.Order.{run_keeps_order}

abbrev packet_of : ℕ → List ℕ → ℕ → Packet
packet_of stream bytes pts = record {
  stream_index = stream;
  bytes = bytes;
  padding = replicate 64 0;
  pts = pts;
  pos = 0;
}

abbrev slice : Packet
slice = packet_of 0 (start_code ++ (0x41 ∷ 0x9a ∷ [])) 1

abbrev sps_idr : Packet
sps_idr = packet_of 0 (start_code ++ (0x67 ∷ 0x42 ∷ start_code ++ (0x65 ∷ 0x88 ∷ []))) 2

-- An access unit delimiter, SEI and an IDR slice.
abbrev aud_sei_idr : Packet
aud_sei_idr =
    packet_of 0
      (start_code ++ (9 ∷ 0xf0 ∷ start_code ++ (6 ∷ 5 ∷ start_code ++ (0x65 ∷ 0x88 ∷ [])))) 3

abbrev aud_idr : Packet
aud_idr = packet_of 0 (start_code ++ (9 ∷ 0xf0 ∷ start_code ++ (0x65 ∷ 0x88 ∷ []))) 4

abbrev sound : Packet
sound = packet_of 1 (1 ∷ 2 ∷ []) 5

sps_is_key : is_key_frame (some h264) sps_idr ≡ some true
unfolding is_key_frame
sps_is_key = refl

-- Only the second NAL unit is looked at, so that this IDR picture is no key frame.
sei_hides_idr : is_key_frame (some h264) aud_sei_idr ≡ some false
unfolding is_key_frame scan at_code
sei_hides_idr = refl

is_key_frame_lem_example :
    is_key_frame (some h264) aud_idr
    ≡ some (found_type aud_idr.bytes == 7 || found_type aud_idr.bytes == 5)
is_key_frame_lem_example = is_key_frame_lem aud_idr (replicate 60 0) (omega arith) refl

abbrev all_hooks : Hooks
all_hooks = record {
  observer = true;
  on_frame = true;
  on_sei = true;
  on_eof = true;
  on_closed = true;
}

abbrev playing : Decoder
playing = create all_hooks (some h264)

abbrev input : Packet → Sent → Received → Input
input p s r = record { packet = p; sent = s; received = r }

-- A slice before the key frame, a key frame that is kept by the decoder, sound, a refused packet, and
-- a slice with which the key frame's picture comes.
abbrev inputs : List Input
inputs =
    input slice taken frame
    ∷ input sps_idr taken again
    ∷ input sound taken frame
    ∷ input slice send_failed again
    ∷ input slice taken frame
    ∷ []

abbrev played : Decoder
played = record playing {
  is_waiting_iframe = false;
  frame_decoded_num = 1;
  list_packets = slice ∷ [];
  calls = observer_frame (some sps_idr) ∷ func_frame (some sps_idr) ∷ [];
}

run-inputs : run playing inputs ≡ some played
unfolding run on_read_frame create is_key_frame scan at_code read_sei put_packet get_packet
    h264_sei_packet_read starts_annexb h264_annexb decode_frame
run-inputs = refl

run_keeps_order_example :
    frames_to true played.calls ++ map some played.list_packets
    ≡ (frames_to true playing.calls ++ map some playing.list_packets)
      ++ map some (accepted playing inputs)
unfolding create
run_keeps_order_example = run_keeps_order true playing played inputs refl run-inputs

abbrev text : List ℕ
text = 104 ∷ 105 ∷ []

-- An H.265 message with user data.
abbrev message_265 : List ℕ
message_265 = written (h265_sei_packet_write true text)
  where
    written : Option (List ℕ) → List ℕ
    written none = []
    written (some bytes) = bytes

-- In a stream of H.265 it is read by the H.264 reader, which does not find it.
message_265_lost : read_sei h265 all_hooks (packet_of 0 message_265 6) ≡ some []
unfolding read_sei at_code h265_sei_packet_write sei_body write_size h264_sei_packet_read
    h265_sei_packet_read starts_annexb h264_annexb h265_annexb get_sei_buffer read_type read_size
    take_payload copy_content
message_265_lost = refl

-- The sources' own reader for H.265 finds it.
message_265_found : h265_sei_packet_read message_265 (some 100) ≡ some (found 2 text)
unfolding h265_sei_packet_write sei_body write_size h265_sei_packet_read starts_annexb h265_annexb
    get_sei_buffer read_type read_size take_payload copy_content
message_265_found = refl
