-- ===== src/Demuxer/Tests.antt =====
-- stream_demuxer.cpp: a stream that is opened, read and closed.
use otl.Common.{ℕ, ◌≡◌, refl, Bool, true, false, List, [], ◌∷◌, some}
use otl.Log.Level.{codes}
use otl.Strings.{begins}
use otl.Demuxer.{
  service, opened, closed, frame, eof, serving, exited, Demuxer, Read, packet, end_of_file, failed,
  Answers, create, open_stream, close_state, close_repeat, thread_step, do_initialize, do_down,
}
use otl.Demuxer.Trace.{
  threads, closes_state, closes_repeat, opens, Reach, here, next, events_in_order,
}
use otl.Demuxer.Invariant.{follow}
use otl.Demuxer.Close.{thread_steps, close_stream, close_stream_exits, close_while_opening, packets}

abbrev answer : Read → Answers
answer r = record { open_ok = true; info_ok = true; read = r }

abbrev camera : List ℕ
camera = codes "rtsp://camera"

abbrev new : Demuxer
new = create service false false

abbrev camera_opened : Demuxer
camera_opened = open_stream new camera true false (answer failed)

-- At the `switch`, in `doInitialize`, at the `switch` again, and in `doService` with two frames.
abbrev camera_reading : Demuxer
camera_reading = thread_steps camera_opened (
    answer failed
    ∷ answer failed
    ∷ answer failed
    ∷ answer packet
    ∷ answer failed
    ∷ answer packet
    ∷ [])

camera_events : camera_reading.events ≡ opened ∷ frame ∷ frame ∷ []
unfolding thread_steps thread_step open_stream create do_initialize
camera_events = refl

camera_place : camera_reading.place ≡ serving
unfolding thread_steps thread_step open_stream create do_initialize
camera_place = refl

-- A camera does not seek: the end of the stream ends it, and it is opened again.
camera_ends :
    (thread_steps camera_reading (
      answer end_of_file
      ∷ answer failed
      ∷ answer failed
      ∷ answer failed
      ∷ answer failed
      ∷ [])).events
    ≡ opened ∷ frame ∷ frame ∷ eof ∷ closed ∷ opened ∷ []
unfolding thread_steps thread_step open_stream create do_initialize do_down begins
camera_ends = refl

abbrev closing : Demuxer
closing =
    thread_step
      (thread_step
        (close_repeat
          (close_state (thread_step (thread_step camera_opened (answer packet)) (answer packet))))
        (answer packet))
      (answer packet)

closing-Reach : Reach new closing
unfolding create
closing-Reach =
    next
      (next
        (next
          (next
            (next
              (next (next here (opens camera true false (answer failed) refl))
                (threads (answer packet)))
              (threads (answer packet)))
            closes_state)
          closes_repeat)
        (threads (answer packet)))
      (threads (answer packet))

closing_events : closing.events ≡ opened ∷ closed ∷ []
unfolding thread_step open_stream create do_initialize do_down close_state close_repeat
closing_events = refl

events_in_order_example : (is_open : Bool) × (follow (some false) closing.events ≡ some is_open)
events_in_order_example = events_in_order service false false closing closing-Reach

close_stream_exits_example :
    ((thread_steps
        (close_stream camera_reading)
        (answer packet ∷ answer failed ∷ answer packet ∷ answer end_of_file ∷ [])).place
      ≡ exited)
    × ((thread_steps
          (close_stream camera_reading)
          (answer packet ∷ answer failed ∷ answer packet ∷ answer end_of_file ∷ [])).events
        ≡ opened ∷ frame ∷ frame ∷ closed ∷ [])
unfolding thread_steps thread_step open_stream create do_initialize
close_stream_exits_example =
    close_stream_exits camera_reading (answer packet) (answer failed) (answer packet)
      (answer end_of_file) [] refl tt

close_while_opening_example :
    (thread_steps (close_stream (thread_step camera_opened (answer failed))) (packets 5)).place
    ≡ serving
unfolding thread_steps thread_step open_stream create
close_while_opening_example =
    close_while_opening (thread_step camera_opened (answer failed)) 3 refl refl
