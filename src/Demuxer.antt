-- ===== src/Demuxer.antt =====
-- stream_demuxer.cpp and stream_demuxer.h: `StreamDemuxer`. What FFmpeg answers is an argument of
-- the thread's steps. Another thread may write the members that `closeStream` writes between any
-- two of them. Stamps and waiting times are left out.
mod Invariant
mod Steps
pub mod Trace
pub mod Close
mod Tests
use otl.Common.{ℕ, zero, suc, Bool, true, false, not, ◌&&◌, List, [], ◌∷◌, ◌++◌, if◌then◌else◌}
use otl.Strings.{begins}
use otl.Log.Level.{codes}

pub data State : Type 0 where
  initialize service down : State

-- The callbacks, as the observer and the functions get them.
pub data Event : Type 0 where
  opened closed frame eof : Event

-- Where the reading thread is: before the `switch`, in one of its cases, at its end; or there is no
-- thread.
pub data Place : Type 0 where
  idle switching initializing serving downing exited : Place

pub record Demuxer : Type 0 where
  pub work_state : State
  pub repeat : Bool
  pub keep_running : Bool
  pub is_file_url : Bool
  pub input_url : List ℕ
  pub place : Place
  pub events : List Event

-- What `av_read_frame` gives: a packet, the end of the file, or another error.
pub data Read : Type 0 where
  packet end_of_file failed : Read

-- What FFmpeg answers in a step.
pub record Answers : Type 0 where
  pub open_ok : Bool
  pub info_ok : Bool
  pub read : Read

-- Three members have no initial value: the arguments are what they happen to be.
pub create : State → Bool → Bool → Demuxer
create work_state repeat keep_running = record {
  work_state = work_state;
  repeat = repeat;
  keep_running = keep_running;
  is_file_url = false;
  input_url = [];
  place = idle;
  events = [];
}

abbrev pub emit : Demuxer → Event → Demuxer
emit d e = record d { events = d.events ++ (e ∷ []) }

abbrev pub is_rtsp : List ℕ → Bool
is_rtsp url = begins (codes "rtsp://") url

-- `doInitialize`, and whether it returned 0.
pub do_initialize : Demuxer → Answers → Demuxer × Bool
do_initialize d a =
    let tried = record d { is_file_url = if is_rtsp d.input_url then d.is_file_url else true } in
    if a.open_ok && a.info_ok
    then (record (emit tried opened) { work_state = service }, true)
    else (tried, false)

pub do_down : Demuxer → Demuxer
do_down d =
    if d.repeat
    then record (emit d closed) { work_state = initialize }
    else record (emit d closed) { keep_running = false }

-- A round of the loop of `doService`; the loop is left by the end of the file, and when the state
-- has changed.
abbrev pub read_frame : Demuxer → Read → Demuxer
read_frame d packet = emit d frame
read_frame d failed = d
read_frame d end_of_file =
    if d.repeat && d.is_file_url
    then d
    else record (emit d eof) { work_state = down; place = switching }

abbrev pub serve : State → Demuxer → Read → Demuxer
serve service d r = read_frame d r
serve initialize d r = record d { place = switching }
serve down d r = record d { place = switching }

abbrev pub enter : State → Place
enter initialize = initializing
enter service = serving
enter down = downing

abbrev pub step_at : Place → Demuxer → Answers → Demuxer
step_at idle d a = d
step_at switching d a = record d { place = if d.keep_running then enter d.work_state else exited }
step_at initializing d a = record (do_initialize d a).0 { place = switching }
step_at serving d a = serve d.work_state d a.read
step_at downing d a = record (do_down d) { place = switching }
step_at exited d a = d

-- What the thread does next.
pub thread_step : Demuxer → Answers → Demuxer
thread_step d a = step_at d.place d a

-- The two writes of `closeStream(false)`, which then joins the thread.
pub close_state : Demuxer → Demuxer
close_state d = record d { work_state = down }

pub close_repeat : Demuxer → Demuxer
close_repeat d = record d { repeat = false }

pub joined : Demuxer → Demuxer
joined d = record d { place = idle }

-- `openStream` when there is no thread; `sync` are the answers to its own call of `doInitialize`,
-- which is made for `isSyncOpen`.
abbrev pub start_thread : Demuxer → Demuxer
start_thread d = record d { keep_running = true; place = switching }

abbrev pub prepare : Demuxer → List ℕ → Bool → Demuxer
prepare d url repeat = record d { input_url = url; repeat = repeat; work_state = initialize }

abbrev pub after_sync : Demuxer × Bool → Demuxer
after_sync (d, true) = start_thread d
after_sync (d, false) = d

pub open_stream : Demuxer → List ℕ → Bool → Bool → Answers → Demuxer
open_stream d url repeat is_sync_open a =
    if is_sync_open
    then after_sync (do_initialize (prepare d url repeat) a)
    else start_thread (prepare d url repeat)
