-- ===== src/Outputer/Trace.antt =====
-- stream_pusher.h: what is written to the output, whatever the threads do.
use otl.Common.{ℕ, ◌≡◌, false, List, Option}
use otl.Common.Int.{ℤ, pos}
use otl.Smoother
use otl.Smoother.{Blend, AvPacket, TimestampSmoother}
use otl.Smoother.Order.{◌<ℤ◌}
use otl.Outputer.{
  idle, exited, Outputer, Answers, Codec, Factors, thread_step, open_output_stream,
  open_output_stream_with_codec, input_packet, configure_timestamp_smoother,
  set_timestamp_smoothing_preset, close_repeat, close_state, close_queue, joined, close_context,
}

module _ {F : Type 0} (f : Blend F) where
  -- The thread's steps; the operations of other threads, at any time; the writes of
  -- `closeOutputStream`, whose second comes behind the first; and what is done without a thread: the
  -- writes behind the join, and the opening.
  pub data Step (o : Outputer F) : Outputer F → Type 0 where
    threads : (a : Answers) → Step o (thread_step f o a)
    inputs : (p : AvPacket) → Step o (input_packet o p)
    configures :
        (factor : F) (max_jump_threshold min_increment : ℤ)
        → pos 0 <ℤ min_increment
        → Step o (configure_timestamp_smoother f o factor max_jump_threshold min_increment)
    presets :
        (c : Factors F) (preset : List ℕ) → Step o (set_timestamp_smoothing_preset f c o preset)
    closes_repeat : Step o (close_repeat o)
    closes_state : o.repeat ≡ false → Step o (close_state o)
    closes_queue : Step o (close_queue o)
    joins : o.place ≡ exited → Step o (joined o)
    closes_context : o.place ≡ idle → Step o (close_context o)
    opens :
        (url : List ℕ) (codec : Option Codec) (a : Answers)
        → o.place ≡ idle
        → Step o (open_output_stream o url codec a).0
    opens_with_codec :
        (url : List ℕ) (codec : Option Codec) (a : Answers)
        → o.place ≡ idle
        → Step o (open_output_stream_with_codec o url codec a).0

  pub data Reach (o : Outputer F) : Outputer F → Type 0 where
    here : Reach o o
    next : {t u : Outputer F} → Reach o t → Step t u → Reach o u
