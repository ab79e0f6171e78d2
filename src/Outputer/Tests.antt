-- ===== src/Outputer/Tests.antt =====
-- stream_pusher.h: a stream that is opened, gets packets and is closed.
use otl.Common.{ℕ, ◌≡◌, inl, refl, Bool, true, false, List, [], ◌∷◌, ◌++◌, none, some}
use otl.Common.Int.{pos, ◌-ℤ◌, ◌+ℤ◌, ◌*ℤ◌}
use otl.Log.Level.{codes}
use otl.InternalQueue
use otl.Strings.{begins}
use otl.Smoother
use otl.Smoother.{Blend, AvPacket}
use otl.Outputer.{
  service, header, trailer, frame, exited, Outputer, Answers, h264, create, thread_step,
  output_initialize, output_service, open_context, open_output_stream, format_name, input_packet,
}
use otl.Outputer.Close.{thread_steps, close_output_stream, close_output_stream_exits}

-- The weighted mean of one half.
abbrev mean : Blend Bool
mean = record { clamp = λ c. c; blend = λ c raw avg. raw }

abbrev yes : Answers
yes = record {
  time_over = false;
  allocated = true;
  has_stream = true;
  copied = true;
  io_opened = true;
  header_written = true;
}

abbrev packet_at : ℕ → AvPacket
packet_at t = record { pts = some (pos t); dts = some (pos t) }

abbrev server : List ℕ
server = codes "rtmp://server/live"

abbrev opened_stream : Outputer Bool
opened_stream = (open_output_stream (create true service) server (some h264) yes).0

-- The file starts again: the second packet's stamp is not above the first's.
abbrev fed : Outputer Bool
fed = input_packet (input_packet opened_stream (packet_at 9000)) (packet_at 9000)

-- The thread says that it runs, and writes both packets.
abbrev pushed : Outputer Bool
pushed = thread_step mean (thread_step mean (thread_step mean fed yes) yes) yes

format_name_flv : format_name server none ≡ some (codes "flv")
unfolding format_name begins
format_name_flv = refl

pushed_events : pushed.events ≡ header ∷ frame (packet_at 0) ∷ frame (packet_at 3000) ∷ []
unfolding thread_step create Smoother.create InternalQueue.create open_output_stream open_context
    output_initialize format_name begins input_packet InternalQueue.push InternalQueue.pop
    output_service Smoother.smooth_timestamp Smoother.reset Smoother.detect_timestamp_wrap ◌-ℤ◌
    Smoother.update_history ◌*ℤ◌ ◌+ℤ◌
pushed_events = refl

close_output_stream_exits_example :
    ((thread_steps mean (close_output_stream fed) (yes ∷ yes ∷ yes ∷ [])).place ≡ exited)
    × ((thread_steps mean (close_output_stream fed) (yes ∷ yes ∷ yes ∷ [])).packet_queue.queue ≡ [])
    × ((thread_steps mean (close_output_stream fed) (yes ∷ yes ∷ yes ∷ [])).events
        ≡ fed.events ++ (trailer ∷ []))
unfolding create open_output_stream open_context output_initialize format_name begins input_packet
close_output_stream_exits_example = close_output_stream_exits mean fed yes yes yes [] (inl refl)
