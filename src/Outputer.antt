-- ===== src/Outputer.antt =====
-- stream_pusher.h: `FfmpegOutputer`. What FFmpeg answers, and whether a wait is over, are arguments of
-- the steps. The thread's cases are one step each: between two of them other threads push packets,
-- set the smoother's parameters and close the stream.
pub mod Mux
pub mod Shape
mod Steps
mod Opening
pub mod Trace
pub mod Close
mod Tests
use otl.Common.{
  ℕ, zero, suc, Bool, true, false, not, ◌&&◌, ◌||◌, List, [], ◌∷◌, ◌++◌, Option, none, some,
  if◌then◌else◌, bytes_eq,
}
use otl.Common.Int.{ℤ, pos}
use otl.Log.Level.{codes}
use otl.Strings.{begins}
use otl.InternalQueue
use otl.InternalQueue.{InternalQueue, Popped, waits, refused, popped}
use otl.Smoother
use otl.Smoother.{Blend, AvPacket, TimestampSmoother}

pub data State : Type 0 where
  init service down : State

-- What is written to the output.
pub data Event : Type 0 where
  header trailer : Event
  frame : AvPacket → Event

-- Where the output thread is: before it says that it runs, at the `switch`, at its end; or there is
-- no thread.
pub data Place : Type 0 where
  idle starting switching exited : Place

-- Is there an output context.
pub record Outputer (F : Type 0) : Type 0 where
  pub url : List ℕ
  pub output_state : State
  pub packet_queue : InternalQueue AvPacket
  pub repeat : Bool
  pub is_running : Bool
  pub smoother : TimestampSmoother F
  pub has_context : Bool
  pub place : Place
  pub events : List Event

pub record Answers : Type 0 where
  pub time_over : Bool
  pub allocated : Bool
  pub has_stream : Bool
  pub copied : Bool
  pub io_opened : Bool
  pub header_written : Bool

pub data Codec : Type 0 where
  h264 hevc other : Codec

abbrev pub raw_format : Option Codec → List ℕ
raw_format none = codes "rawvideo"
raw_format (some other) = codes "rawvideo"
raw_format (some h264) = codes "h264"
raw_format (some hevc) = codes "hevc"

-- The format's name, and `none` for an URL that is not supported.
unfoldable pub format_name : List ℕ → Option Codec → Option (List ℕ)
format_name url codec =
    if begins (codes "rtsp://") url
    then some (codes "rtsp")
    else if begins (codes "udp://") url || begins (codes "tcp://") url
    then some (raw_format codec)
    else if begins (codes "rtp://") url
    then some (codes "rtp")
    else if begins (codes "rtmp://") url
    then some (codes "flv")
    else none

-- `while (m_packetQueue.pop(pkt, 0))`, with fuel for each packet.
pub drain {ℓ} : {A : Type ℓ} → ℕ → InternalQueue A → InternalQueue A
drain zero q = q
drain (suc n) q = elim (InternalQueue.pop q true) [
  | waits ↦ q
  | refused ↦ q
  | popped x rest ↦ drain n rest
]

abbrev pub is_some {ℓ} : {A : Type ℓ} → Option A → Bool
is_some none = false
is_some (some a) = true

-- The factors of `setTimestampSmoothingPreset`, which are `double`.
pub record Factors (F : Type 0) : Type 0 where
  pub conservative : F
  pub aggressive : F
  pub looping : F
  pub standard : F

module _ {F : Type 0} where
  -- The member `m_outputState` has no initial value: `state` is what it happens to be.
  pub create : F → State → Outputer F
  create factor state = record {
    url = [];
    output_state = state;
    packet_queue = InternalQueue.create;
    repeat = true;
    is_running = false;
    smoother = Smoother.create factor;
    has_context = false;
    place = idle;
    events = [];
  }

  abbrev pub emit : Outputer F → Event → Outputer F
  emit o e = record o { events = o.events ++ (e ∷ []) }

  -- With whether 0 was returned.
  pub output_initialize : Outputer F → Answers → Outputer F × Bool
  output_initialize o a =
      if a.io_opened && a.header_written
      then (record (emit o header) { output_state = service }, true)
      else (o, false)

  abbrev pub written : Outputer F → Option (TimestampSmoother F × AvPacket) → Outputer F
  written o none = o
  written o (some (s, p)) = emit (record o { smoother = s }) (frame p)

  abbrev pub serve : Blend F → Outputer F → Popped AvPacket → Outputer F
  serve f o waits = o
  serve f o refused = o
  serve f o (popped p q) =
      written (record o { packet_queue = q }) (Smoother.smooth_timestamp f o.smoother (some p))

  pub output_service : Blend F → Outputer F → Bool → Outputer F
  output_service f o time_over = serve f o (InternalQueue.pop o.packet_queue time_over)

  pub output_down : Outputer F → Outputer F
  output_down o = if o.repeat then record o { output_state = init } else record (emit o trailer) {
    packet_queue =
        InternalQueue.shutdown (drain (InternalQueue.size o.packet_queue) o.packet_queue);
    is_running = false;
  }

  abbrev pub init_case : Outputer F × Bool → Outputer F
  init_case (o, true) = o
  init_case (o, false) = record o { output_state = down }

  abbrev pub switch : Blend F → State → Outputer F → Answers → Outputer F
  switch f init o a = init_case (output_initialize o a)
  switch f service o a = output_service f o a.time_over
  switch f down o a = output_down o

  abbrev pub step_at : Blend F → Place → Outputer F → Answers → Outputer F
  step_at f idle o a = o
  step_at f starting o a = record o { is_running = true; place = switching }
  step_at f switching o a =
      if o.is_running then switch f o.output_state o a else record o { place = exited }
  step_at f exited o a = o

  -- What the output thread does next.
  pub thread_step : Blend F → Outputer F → Answers → Outputer F
  thread_step f o a = step_at f o.place o a

  -- The output context, and whether the function goes on.
  pub open_context : Outputer F → Option Codec → Answers → Outputer F × Bool
  open_context o codec a =
      if o.has_context
      then (o, true)
      else if a.allocated
      then (record o { has_context = true }, a.has_stream && (not (is_some codec) || a.copied))
      else (o, false)

  abbrev pub after_initialize : Outputer F × Bool → Outputer F × Bool
  after_initialize (o, true) = (record o { place = starting }, true)
  after_initialize (o, false) = (o, false)

  abbrev pub after_context : Outputer F × Bool → Answers → Outputer F × Bool
  after_context (o, true) a = after_initialize (output_initialize o a)
  after_context (o, false) a = (o, false)

  abbrev pub after_format :
      Outputer F → Option Codec → Answers → Option (List ℕ) → Outputer F × Bool
  after_format o codec a none = (o, false)
  after_format o codec a (some name) = after_context (open_context o codec a) a

  -- With the codec of the input's first stream, `none` without an input.
  pub open_output_stream : Outputer F → List ℕ → Option Codec → Answers → Outputer F × Bool
  open_output_stream o url codec a =
      after_format (record o { url = url; smoother = Smoother.reset o.smoother }) codec a
        (format_name url codec)

  -- `codecpar` may be a null pointer.
  pub open_output_stream_with_codec :
      Outputer F → List ℕ → Option Codec → Answers → Outputer F × Bool
  open_output_stream_with_codec o url none a = (o, false)
  open_output_stream_with_codec o url (some codec) a = open_output_stream o url (some codec) a

  pub input_packet : Outputer F → AvPacket → Outputer F
  input_packet o p = record o { packet_queue = InternalQueue.push o.packet_queue p }

  pub configure_timestamp_smoother : Blend F → Outputer F → F → ℤ → ℤ → Outputer F
  configure_timestamp_smoother f o factor max_jump_threshold min_increment = record o {
    smoother =
        Smoother.set_smoothing_parameters f o.smoother factor max_jump_threshold min_increment;
  }

  pub set_timestamp_smoothing_preset : Blend F → Factors F → Outputer F → List ℕ → Outputer F
  set_timestamp_smoothing_preset f c o preset =
      if bytes_eq preset (codes "conservative")
      then configure_timestamp_smoother f o c.conservative (pos 180000) (pos 1000)
      else if bytes_eq preset (codes "aggressive")
      then configure_timestamp_smoother f o c.aggressive (pos 30000) (pos 3000)
      else if bytes_eq preset (codes "looping")
      then configure_timestamp_smoother f o c.looping (pos 45000) (pos 2000)
      else configure_timestamp_smoother f o c.standard (pos 90000) (pos 3000)

  -- `closeOutputStream`, in the order of its writes; the join is between the third and the fourth.
  pub close_repeat : Outputer F → Outputer F
  close_repeat o = record o { repeat = false }

  pub close_state : Outputer F → Outputer F
  close_state o = record o { output_state = down }

  pub close_queue : Outputer F → Outputer F
  close_queue o = record o { packet_queue = InternalQueue.shutdown o.packet_queue }

  pub joined : Outputer F → Outputer F
  joined o = record o { place = idle }

  pub close_context : Outputer F → Outputer F
  close_context o = record o {
    packet_queue = InternalQueue.reset o.packet_queue;
    has_context = false;
  }
