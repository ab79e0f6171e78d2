-- ===== src/Encoder.antt =====
-- stream_encoder.cpp and stream_encoder.h: `FfmpegStreamEncoder`. What FFmpeg offers is a parameter
-- (`Library`), and what it answers to a call is an argument. A packet is any value, `none` a null
-- pointer. The numbers of an option are kept as they are before `snprintf` prints them. `getFps` is
-- left out but for its counter, which is not bounded.
pub mod Resolve
pub mod Packets
pub mod History
mod Tests
use otl.Common.{
  ℕ, zero, suc, ◌+◌, Bool, true, false, ◌&&◌, ◌||◌, List, [], ◌∷◌, ◌++◌, map, Option, none, some,
  bytes_eq, if◌then◌else◌,
}
use otl.Common.Int.{ℤ, pos, negsuc}
use otl.Log.Level.{codes, to_lower}

pub record Rational : Type 0 where
  pub num : ℤ
  pub den : ℤ

-- No `options` is the null pointer.
pub record EncodeParam : Type 0 where
  pub codec_name : List ℕ
  pub width : ℤ
  pub height : ℤ
  pub time_base : Rational
  pub frame_rate : Rational
  pub pix_fmt : ℤ
  pub bit_rate : ℤ
  pub gop_size : ℤ
  pub max_b_frames : ℤ
  pub thread_count : ℤ
  pub crf : ℤ
  pub qp : ℤ
  pub preset : List ℕ
  pub tune : List ℕ
  pub profile : List ℕ
  pub options : List (List ℕ × List ℕ)
  pub prefer_hardware : Bool
  pub hw_accel : List ℕ

pub record Context (C : Type 0) : Type 0 where
  pub codec : C
  pub width : ℤ
  pub height : ℤ
  pub time_base : Rational
  pub framerate : Rational
  pub pix_fmt : ℤ
  pub bit_rate : ℤ
  pub gop_size : ℤ
  pub max_b_frames : ℤ
  pub thread_count : ℤ

pub data CodecId : Type 0 where
  h264 hevc mjpeg mpeg4 : CodecId

pub data Value : Type 0 where
  text : List ℕ → Value
  number : ℤ → Value

-- `avcodec_find_encoder_by_name`, `avcodec_find_encoder`, `avcodec_alloc_context3` and
-- `avcodec_open2` with the options that were set, in order.
pub record Library (C : Type 0) : Type 0 where
  pub find_by_name : List ℕ → Option C
  pub find_by_id : CodecId → Option C
  pub alloc_context : C → Option (Context C)
  pub open_codec : Context C → List (List ℕ × Value) → ℤ

pub data Status : Type 0 where
  ok invalid no_memory not_found : Status
  failed : ℤ → Status

-- `key` says that the type of the picture is I and `key_frame` is set.
pub record Frame : Type 0 where
  pub picture : ℕ
  pub key : Bool

-- The encoder, with what it gave to `avcodec_send_frame`. `codec_par` says that the copy of the
-- parameters is allocated.
pub record Encoder (C : Type 0) : Type 0 where
  pub ctx : Option (Context C)
  pub codec_par : Bool
  pub force_idr : Bool
  pub frame_count : ℕ
  pub sent : List (Option Frame)

-- What `avcodec_send_frame` returns.
pub data Sent : Type 0 where
  taken again eof : Sent
  failed : ℤ → Sent

-- The allocation of a packet and `avcodec_receive_packet`.
pub data Received (P : Type 0) : Type 0 where
  packet : P → Received P
  again eof no_memory : Received P
  failed : ℤ → Received P

-- `codecName` equals a literal.
abbrev pub is_name : List ℕ → List ℕ → Bool
is_name s name = bytes_eq s name

-- The aliases, one test after the other.
pub normalize : List ℕ → List ℕ
normalize name =
    let lower = map to_lower name in
    let lower = if is_name lower (codes "h265") then codes "hevc" else lower in
    let lower = if is_name lower (codes "x264") then codes "h264" else lower in
    if is_name lower (codes "x265") then codes "hevc" else lower

abbrev pub push_if : Bool → List ℕ → List (List ℕ)
push_if test v = if test then v ∷ [] else []

abbrev pub nonempty : List ℕ → Bool
nonempty [] = false
nonempty (c ∷ s) = true

-- `push_hw_family`, not on an Apple system; `prefix` is the family with an underscore.
pub hw_family : List ℕ → List ℕ → List (List ℕ)
hw_family hw_accel prefix =
    let acc = map to_lower hw_accel in
    if nonempty hw_accel
    then push_if (is_name acc (codes "videotoolbox")) (prefix ++ codes "videotoolbox")
      ++ (push_if (is_name acc (codes "nvenc") || is_name acc (codes "cuda"))
            (prefix ++ codes "nvenc")
          ++ (push_if (is_name acc (codes "qsv")) (prefix ++ codes "qsv")
              ++ (push_if (is_name acc (codes "amf")) (prefix ++ codes "amf")
                  ++ push_if (is_name acc (codes "vaapi")) (prefix ++ codes "vaapi"))))
    else (prefix ++ codes "nvenc")
      ∷ (prefix ++ codes "qsv")
      ∷ (prefix ++ codes "amf")
      ∷ (prefix ++ codes "vaapi")
      ∷ []

-- The hardware encoders to try.
pub hardware : EncodeParam → List ℕ → List (List ℕ)
hardware params lower =
    if params.prefer_hardware
    then (if is_name lower (codes "h264") then hw_family params.hw_accel (codes "h264_") else [])
      ++ (if is_name lower (codes "hevc") then hw_family params.hw_accel (codes "hevc_") else [])
    else []

-- The name as given, and the common ones.
pub software : List ℕ → List (List ℕ)
software lower =
    push_if (nonempty lower) lower
    ++ (push_if (is_name lower (codes "h264")) (codes "libx264")
        ++ (push_if (is_name lower (codes "hevc")) (codes "libx265")
            ++ (push_if (is_name lower (codes "mjpeg")) (codes "mjpeg")
                ++ push_if (is_name lower (codes "mpeg4")) (codes "mpeg4"))))

pub candidates : EncodeParam → List (List ℕ)
candidates params =
    let lower = normalize params.codec_name in hardware params lower ++ software lower

pub id_of : List ℕ → Option CodecId
id_of lower =
    if is_name lower (codes "h264") || is_name lower (codes "libx264")
    then some h264
    else if is_name lower (codes "hevc")
        || (is_name lower (codes "h265") || is_name lower (codes "libx265"))
    then some hevc
    else if is_name lower (codes "mjpeg") || is_name lower (codes "jpeg")
    then some mjpeg
    else if is_name lower (codes "mpeg4")
    then some mpeg4
    else none

-- `num > 0` and `num >= 0`.
abbrev pub is_positive : ℤ → Bool
is_positive (pos zero) = false
is_positive (pos (suc n)) = true
is_positive (negsuc n) = false

abbrev pub is_natural : ℤ → Bool
is_natural (pos n) = true
is_natural (negsuc n) = false

abbrev pub set_text : List ℕ → List ℕ → List (List ℕ × Value)
set_text key value = if nonempty value then (key, text value) ∷ [] else []

-- The options that `init` sets, behind a copy of those given.
pub options : EncodeParam → List (List ℕ × Value)
options params =
    map (λ o. (o.0, text o.1)) params.options
    ++ (set_text (codes "preset") params.preset
        ++ (set_text (codes "tune") params.tune
            ++ (set_text (codes "profile") params.profile
                ++ ((if is_natural params.crf then (codes "crf", number params.crf) ∷ [] else [])
                    ++ (if is_natural params.qp
                        then (codes "qp", number params.qp) ∷ (codes "q", number params.qp) ∷ []
                        else [])))))

module _ {C : Type 0} where
  pub create : Encoder C
  create = record { ctx = none; codec_par = false; force_idr = false; frame_count = 0; sent = [] }

  abbrev pub or_else : Option C → Option C → Option C
  or_else (some c) d = some c
  or_else none d = d

  -- Probe in order.
  pub probe : Library C → List (List ℕ) → Option C
  probe lib [] = none
  probe lib (n ∷ names) = or_else (lib.find_by_name n) (probe lib names)

  abbrev pub by_id : Library C → Option CodecId → Option C
  by_id lib none = none
  by_id lib (some id) = lib.find_by_id id

  pub resolve_codec : Library C → EncodeParam → Option C
  resolve_codec lib params =
      or_else (probe lib (candidates params)) (by_id lib (id_of (normalize params.codec_name)))

  -- The fields that `init` gives a context.
  pub configure : EncodeParam → Context C → Context C
  configure params c = record c {
    width = params.width;
    height = params.height;
    time_base =
        if is_positive params.time_base.num
        then params.time_base
        else record { num = pos 1; den = pos 90000 };
    framerate =
        if is_positive params.frame_rate.num && is_positive params.frame_rate.den
        then params.frame_rate
        else c.framerate;
    pix_fmt = params.pix_fmt;
    bit_rate = if is_positive params.bit_rate then params.bit_rate else c.bit_rate;
    gop_size = if is_positive params.gop_size then params.gop_size else c.gop_size;
    max_b_frames = if is_natural params.max_b_frames then params.max_b_frames else c.max_b_frames;
    thread_count = if is_positive params.thread_count then params.thread_count else c.thread_count;
  }

  abbrev pub opened : Encoder C → Context C → ℤ → Encoder C × Status
  opened e c (negsuc n) = (record e { ctx = none }, Status.failed (negsuc n))
  opened e c (pos n) = (record e { ctx = some c; frame_count = 0 }, ok)

  abbrev pub allocated :
      Library C → EncodeParam → Encoder C → Option (Context C) → Encoder C × Status
  allocated lib params e none = (record e { ctx = none }, Status.no_memory)
  allocated lib params e (some c) =
      opened e (configure params c) (lib.open_codec (configure params c) (options params))

  abbrev pub resolved : Library C → EncodeParam → Encoder C → Option C → Encoder C × Status
  resolved lib params e none = (e, not_found)
  resolved lib params e (some codec) = allocated lib params e (lib.alloc_context codec)

  pub init : Library C → Encoder C → Option EncodeParam → Encoder C × Status
  init lib e none = (e, invalid)
  init lib e (some params) = resolved lib params e (resolve_codec lib params)

  -- The request for a key frame, which the next frame takes up, and `avcodec_send_frame`.
  pub send : Encoder C → Option Frame → Encoder C
  send e none = record e { sent = e.sent ++ (none ∷ []) }
  send e (some f) = record e {
    force_idr = false;
    sent = e.sent ++ (some (if e.force_idr then record f { key = true } else f) ∷ []);
  }

module _ {C P : Type 0} where
  -- The loop of the second `encode` over the answers; `none` when these end first.
  pub drain : Encoder C → List (Received P) → List P → Option (Encoder C × List P × Status)
  drain e [] out = none
  drain e (packet p ∷ answers) out =
      drain (record e { frame_count = e.frame_count + 1 }) answers (out ++ (p ∷ []))
  drain e (Received.again ∷ answers) out = some (e, out, ok)
  drain e (Received.eof ∷ answers) out = some (e, out, ok)
  drain e (Received.no_memory ∷ answers) out = some (e, out, Status.no_memory)
  drain e (Received.failed n ∷ answers) out = some (e, out, Status.failed n)

  abbrev pub drain_after :
      Encoder C → Sent → List (Received P) → Option (Encoder C × List P × Status)
  drain_after e taken answers = drain e answers []
  drain_after e Sent.again answers = drain e answers []
  drain_after e Sent.eof answers = drain e answers []
  drain_after e (Sent.failed n) answers = some (e, [], Status.failed n)

  abbrev pub encode_with :
      Option (Context C)
      → Encoder C
      → Option Frame
      → Sent
      → List (Received P)
      → Option (Encoder C × List P × Status)
  encode_with none e frame s answers = some (e, [], invalid)
  encode_with (some c) e frame s answers = drain_after (send e frame) s answers

  -- `encode` with a vector.
  pub encode :
      Encoder C → Option Frame → Sent → List (Received P) → Option (Encoder C × List P × Status)
  encode e frame s answers = encode_with e.ctx e frame s answers

  abbrev pub receive_one : Encoder C → Received P → Encoder C × List P × Status
  receive_one e (packet p) = (record e { frame_count = e.frame_count + 1 }, p ∷ [], ok)
  receive_one e Received.again = (e, [], ok)
  receive_one e Received.eof = (e, [], ok)
  receive_one e Received.no_memory = (e, [], Status.no_memory)
  receive_one e (Received.failed n) = (e, [], Status.failed n)

  abbrev pub one_after : Encoder C → Sent → Received P → Encoder C × List P × Status
  one_after e taken r = receive_one e r
  one_after e Sent.again r = receive_one e r
  one_after e Sent.eof r = receive_one e r
  one_after e (Sent.failed n) r = (e, [], Status.failed n)

  abbrev pub encode_one_with :
      Option (Context C)
      → Encoder C
      → Option Frame
      → Bool
      → Sent
      → Received P
      → Encoder C × List P × Status
  encode_one_with none e frame places s r = (e, [], invalid)
  encode_one_with (some c) e frame false s r = (e, [], invalid)
  encode_one_with (some c) e frame true s r = one_after (send e frame) s r

  -- `encode` with a pointer: at most one packet. `places` says that both pointers are given.
  pub encode_one : Encoder C → Option Frame → Bool → Sent → Received P → Encoder C × List P × Status
  encode_one e frame places s r = encode_one_with e.ctx e frame places s r

module _ {C : Type 0} where
  pub request_key_frame : Encoder C → Encoder C
  request_key_frame e = record e { force_idr = true }

  abbrev pub time_base_of : Option (Context C) → Rational
  time_base_of none = record { num = pos 1; den = pos 90000 }
  time_base_of (some c) = c.time_base

  pub get_time_base : Encoder C → Rational
  get_time_base e = time_base_of e.ctx

  abbrev pub parameters_of : Option (Context C) → Encoder C → Bool → Bool → Encoder C × Bool
  parameters_of none e allocated copied = (e, false)
  parameters_of (some c) e allocated copied =
      if e.codec_par || allocated then (record e { codec_par = true }, copied) else (e, false)

  -- Whether the parameters are given out, from the answers to the allocation and the copy.
  pub get_codec_parameters : Encoder C → Bool → Bool → Encoder C × Bool
  get_codec_parameters e allocated copied = parameters_of e.ctx e allocated copied

  pub close : Encoder C → Encoder C
  close e = record e { ctx = none; codec_par = false }
