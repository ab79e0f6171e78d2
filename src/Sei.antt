-- ===== src/Sei.antt =====
-- stream_sei.cpp: SEI messages with user data, written to and found in H.264 and H.265 packets.
-- A packet is the list of its bytes and `size` its length, below 2^31. A pointer into it is the
-- list from there to the end; a read behind the end is the result `fault`.
pub mod Field
pub mod Payload
pub mod Sizes
pub mod Annexb
pub mod Avcc
pub mod Faults
pub mod Misread
mod Tests
use otl.Common.{
  ℕ, zero, suc, ◌+◌, ◌-◌, ◌*◌, ◌/◌, ◌%◌, ◌^◌, ◌≤◌, Option, none, some, Bool, true, false, ◌&&◌,
  ◌||◌, List, [], ◌∷◌, ◌++◌, ltb, leb, ◌==◌, if◌then◌else◌, bytes_eq, length, take, drop,
}
use otl.Buffer.Words.{le_bytes, le_value}

abbrev pub uuid_size : ℕ
uuid_size = 16

abbrev pub uuid : List ℕ
uuid =
    0x54 ∷ 0x80 ∷ 0x83 ∷ 0x97 ∷ 0xf0 ∷ 0x23 ∷ 0x47 ∷ 0x4b ∷ 0xb7 ∷ 0xf7 ∷ 0x4f ∷ 0x32 ∷ 0xb5 ∷ 0x4e
    ∷ 0x06 ∷ 0xac ∷ []

abbrev pub start_code : List ℕ
start_code = 0 ∷ 0 ∷ 0 ∷ 1 ∷ []

-- The masks and shifts of `reverseBytes`: its four fields do not overlap, so `|` adds them.
pub reverse_bytes : ℕ → ℕ
reverse_bytes value =
    value % 256 * 16777216
    + value / 256 % 256 * 65536
    + value / 65536 % 256 * 256
    + value / 16777216 % 256

pub h264_sei_calc_nalu_size : ℕ → ℕ
h264_sei_calc_nalu_size content =
    let payload_size = (content + uuid_size) % 2 ^ 32 in
    let field_bytes = payload_size / 0xff + 1 in (1 + 1 + field_bytes + payload_size + 1) % 2 ^ 32

pub h264_sei_calc_packet_size : ℕ → ℕ
unfolding h264_sei_calc_nalu_size
h264_sei_calc_packet_size size = (h264_sei_calc_nalu_size size + 4) % 2 ^ 32

-- The overload that is told the format.
pub h264_sei_calc_packet_size_as : ℕ → Bool → ℕ → ℕ
unfolding h264_sei_calc_nalu_size
h264_sei_calc_packet_size_as size is_annexb length_size_bytes =
    let nalu = h264_sei_calc_nalu_size size in
    if is_annexb then (nalu + 4) % 2 ^ 32 else (nalu + length_size_bytes) % 2 ^ 32

-- The loop that writes `seiPayloadSize`: 255 for each full 255, then the rest. Without fuel there is
-- no result.
unfoldable pub write_size : ℕ → ℕ → Option (List ℕ)
write_size zero n = none
write_size (suc fuel) n =
    let more = write_size fuel (n - 0xff) in
    if ltb n 0xff
    then some (n ∷ [])
    else elim more [ none ↦ none | some bytes ↦ some (0xff ∷ bytes) ]

-- The NAL unit after its header: payload type, payload size, UUID, content and the stop bit.
unfoldable pub sei_body : List ℕ → Option (List ℕ)
sei_body content =
    let payload_size = (length content + uuid_size) % 2 ^ 32 in
    elim (write_size (payload_size / 0xff + 1) payload_size) [
      | none ↦ none
      | some field ↦ some (5 ∷ (field ++ (uuid ++ (content ++ (0x80 ∷ [])))))
    ]

-- The start code, or the length of the NAL unit, before the NAL unit.
abbrev pub with_prefix : Bool → List ℕ → List ℕ
with_prefix is_annexb nalu =
    if is_annexb
    then start_code ++ nalu
    else le_bytes 4 (reverse_bytes (length nalu % 2 ^ 32)) ++ nalu

-- The bytes that `h264SeiPacketWrite` stores in `oPacketBuf`; it returns their number.
pub h264_sei_packet_write : Bool → List ℕ → Option (List ℕ)
h264_sei_packet_write is_annexb content = elim (sei_body content) [
  | none ↦ none
  | some body ↦ some (with_prefix is_annexb (6 ∷ body))
]

abbrev pub h265_sei_nal_type : ℕ
h265_sei_nal_type = 39

unfoldable pub h265_sei_packet_write : Bool → List ℕ → Option (List ℕ)
h265_sei_packet_write is_annexb content = elim (sei_body content) [
  | none ↦ none
  | some body ↦ some (
      with_prefix is_annexb
        ((h265_sei_nal_type * 2 % 256) ∷ (1 + (if h265_sei_nal_type == 2 then 1 else 0)) ∷ body))
]

-- What a reader comes to: a read behind the packet, -1, or a size with the bytes that were copied to
-- the caller's buffer.
pub data Sei : Type 0 where
  fault miss : Sei
  found : ℕ → List ℕ → Sei

-- `do { seiType += *sei; } while (*sei++ == 255);`
unfoldable pub read_type : ℕ → List ℕ → Option (ℕ × List ℕ)
read_type sei_type [] = none
read_type sei_type (c ∷ sei) =
    let more = read_type (sei_type + c) sei in if c == 255 then more else some (sei_type + c, sei)

-- The same loop for the payload size, an `unsigned`.
unfoldable pub read_size : ℕ → List ℕ → Option (ℕ × List ℕ)
read_size sei_size [] = none
read_size sei_size (c ∷ sei) =
    let next = (sei_size + c) % 2 ^ 32 in
    let more = read_size next sei in if c == 255 then more else some (next, sei)

-- The copy to the caller's buffer of `buff` bytes, `none` for NULL.
unfoldable pub copy_content : ℕ → Option ℕ → List ℕ → Sei
copy_content content_size none sei = found content_size []
copy_content content_size (some buf_size) sei =
    if buf_size == 0
    then found content_size []
    else if ltb content_size buf_size
    then found content_size (take content_size sei)
    else miss

-- The tests of `getSeiBuffer` behind its loops. `used` is `sei - data`.
unfoldable pub take_payload : ℕ → ℕ → Option ℕ → ℕ → ℕ → List ℕ → Sei
take_payload size used buff sei_type sei_size sei =
    if leb uuid_size sei_size
      && (leb (used + sei_size) size && (sei_type == 5 && bytes_eq (take uuid_size sei) uuid))
    then copy_content (sei_size - uuid_size) buff (drop uuid_size sei)
    else miss

unfoldable pub get_sei_buffer : List ℕ → ℕ → Option ℕ → Sei
get_sei_buffer data' size buff = elim (read_type 0 data') [
  | none ↦ fault
  | some (sei_type, sei) ↦ elim (read_size 0 sei) [
    | none ↦ fault
    | some (sei_size, sei') ↦
        take_payload size (length data' - length sei') buff sei_type sei_size sei'
  ]
]

-- `h264SeiPacketRead` goes on unless the size is positive, `h265SeiPacketRead` unless it is not -1.
abbrev pub if_positive : Sei → Sei → Sei
if_positive fault rest = fault
if_positive miss rest = rest
if_positive (found zero copied) rest = rest
if_positive (found (suc n) copied) rest = found (suc n) copied

abbrev pub if_found : Sei → Sei → Sei
if_found fault rest = fault
if_found miss rest = rest
if_found (found n copied) rest = found n copied

-- The packet begins with a start code.
unfoldable pub starts_annexb : List ℕ → Bool
starts_annexb packet =
    (ltb 3 (length packet) && bytes_eq (take 3 packet) (0 ∷ 0 ∷ 1 ∷ []))
    || (ltb 4 (length packet) && bytes_eq (take 4 packet) (0 ∷ 0 ∷ 0 ∷ 1 ∷ []))

-- The loop over an Annex B packet: `data` is the list. With fewer than five bytes left it only runs
-- to the end.
unfoldable pub h264_annexb : Option ℕ → List ℕ → Sei
h264_annexb buff (a ∷ b ∷ c ∷ d ∷ e ∷ r) =
    let next = h264_annexb buff (b ∷ c ∷ d ∷ e ∷ r) in
    let after_three = h264_annexb buff (e ∷ r) in
    let after_four = h264_annexb buff r in
    if a == 0 && b == 0
    then if c == 1
      then if d == 6
        then if_positive (get_sei_buffer (e ∷ r) (length (e ∷ r)) buff) after_three
        else after_three
      else if c == 0 && d == 1
      then if e == 6 then if_positive (get_sei_buffer r (length r) buff) after_four else after_four
      else next
    else next
h264_annexb buff _ = miss

unfoldable pub h265_annexb : Option ℕ → List ℕ → Sei
h265_annexb buff (a ∷ b ∷ c ∷ d ∷ e ∷ f ∷ r) =
    let next = h265_annexb buff (b ∷ c ∷ d ∷ e ∷ f ∷ r) in
    let after_two = h265_annexb buff (e ∷ f ∷ r) in
    let after_three = h265_annexb buff (f ∷ r) in
    let after_four = h265_annexb buff r in
    if a == 0 && b == 0
    then if c == 1
      then if_found (get_sei_buffer (f ∷ r) (length (f ∷ r)) buff) after_three
      else if c == 0 && d == 1
      then if ltb 0 (length r)
        then if_found (get_sei_buffer r (length r) buff) after_four
        else after_four
      else after_two
    else next
h265_annexb buff _ = miss

-- What the loop over a length-prefixed packet does with one NAL unit of `len` bytes at `ptr`.
pub h264_nalu : Option ℕ → ℕ → List ℕ → Sei → Sei
h264_nalu buff len [] rest = if leb 1 len then fault else rest
h264_nalu buff len (header ∷ payload) rest =
    if leb 1 len
    then if header % 32 == 6 then if_positive (get_sei_buffer payload (len - 1) buff) rest else rest
    else rest

pub h265_nalu : Option ℕ → ℕ → List ℕ → Sei → Sei
h265_nalu buff len [] rest = if leb 2 len then fault else rest
h265_nalu buff len (header ∷ ptr) rest =
    let nal_unit_type = header / 2 % 64 in
    if leb 2 len
    then if nal_unit_type == 39 || nal_unit_type == 40
      then elim ptr [ [] ↦ fault | h ∷ sei ↦ if_found (get_sei_buffer sei (len - 2) buff) rest ]
      else rest
    else rest

-- The loop itself; `offset` is `ptr - inPacket`. The sums of the tests are 32 bits wide. `none` means
-- that the fuel ran out.
pub avcc : (ℕ → List ℕ → Sei → Sei) → ℕ → List ℕ → ℕ → Option Sei
avcc nalu zero packet offset = none
avcc nalu (suc fuel) packet offset =
    let ptr = drop offset packet in
    let len = reverse_bytes (le_value (take 4 ptr)) in
    let more = avcc nalu fuel packet (offset + 4 + len) in
    if leb ((offset + 4) % 2 ^ 32) (length packet)
    then if leb 4 (length ptr)
      then if ltb (length packet) ((offset + 4 + len) % 2 ^ 32)
        then some miss
        else elim more [ none ↦ none | some rest ↦ some (nalu len (drop (offset + 4) packet) rest) ]
      else some fault
    else some miss

abbrev pub avcc_fuel : List ℕ → ℕ
avcc_fuel packet = length packet + 2

unfoldable pub h264_sei_packet_read : List ℕ → Option ℕ → Option Sei
h264_sei_packet_read packet buff =
    if starts_annexb packet
    then some (h264_annexb buff packet)
    else avcc (h264_nalu buff) (avcc_fuel packet) packet 0

unfoldable pub h265_sei_packet_read : List ℕ → Option ℕ → Option Sei
h265_sei_packet_read packet buff =
    if starts_annexb packet
    then some (h265_annexb buff packet)
    else avcc (h265_nalu buff) (avcc_fuel packet) packet 0
