-- ===== src/Demuxer/Close.antt =====
-- stream_demuxer.cpp: `closeStream(false)`, and what the thread does after its two writes.
use otl.Common.{
  ℕ, zero, suc, ◌≡◌, refl, ap, ap₂, ◌∙◌, Bool, true, false, List, [], ◌∷◌, ◌++◌, if◌then◌else◌,
}
use otl.Demuxer.{
  down, service, Event, opened, closed, frame, Place, idle, switching, initializing, serving,
  downing, exited, Demuxer, packet, Answers, do_initialize, do_down, thread_step, close_state,
  close_repeat, is_rtsp,
}

unfoldable pub thread_steps : Demuxer → List Answers → Demuxer
thread_steps d [] = d
thread_steps d (a ∷ rest) = thread_steps (thread_step d a) rest

-- The two writes one directly behind the other.
pub close_stream : Demuxer → Demuxer
close_stream d = close_repeat (close_state d)

-- The thread is in its loop, and not in `doInitialize`.
abbrev pub IsSettled : Place → Type 0
IsSettled switching = Unit
IsSettled serving = Unit
IsSettled downing = Unit
IsSettled idle = ⊥
IsSettled initializing = ⊥
IsSettled exited = ⊥

-- A closed stream.
abbrev at : Demuxer → Bool → Place → List Event → Demuxer
at d k p es = record d {
  work_state = down;
  repeat = false;
  keep_running = k;
  place = p;
  events = es;
}

exited_stays :
    (d : Demuxer) (k : Bool) (es : List Event) (rest : List Answers)
    → thread_steps (at d k exited es) rest ≡ at d k exited es
unfolding thread_steps thread_step
exited_stays d k es [] = refl
exited_stays d k es (a ∷ rest) = exited_stays d k es rest

from_place :
    (d : Demuxer) (p : Place) (a b c e : Answers) (rest : List Answers)
    → IsSettled p
    → thread_steps (at d true p d.events) (a ∷ b ∷ c ∷ e ∷ rest)
      ≡ at d false exited (d.events ++ (closed ∷ []))
unfolding thread_steps thread_step do_down
from_place d serving a b c e rest s = exited_stays d false (d.events ++ (closed ∷ [])) rest
from_place d switching a b c e rest s = exited_stays d false (d.events ++ (closed ∷ [])) (e ∷ rest)
from_place d downing a b c e rest s =
    exited_stays d false (d.events ++ (closed ∷ [])) (c ∷ e ∷ rest)
from_place d idle a b c e rest s = elim s [ ]
from_place d initializing a b c e rest s = elim s [ ]
from_place d exited a b c e rest s = elim s [ ]

-- If both writes of `closeStream(false)` come together between two cases of the thread, which is in its
-- loop and not in `doInitialize`, so that no case runs between the two and `doDown` has not read
-- `m_repeat` before them: four steps end the thread, whatever FFmpeg answers, and the join returns.
-- The last callback tells that the stream was closed, and it is the only one that still comes.
pub close_stream_exits :
    (d : Demuxer) (a b c e : Answers) (rest : List Answers)
    → d.keep_running ≡ true
    → IsSettled d.place
    → ((thread_steps (close_stream d) (a ∷ b ∷ c ∷ e ∷ rest)).place ≡ exited)
      × ((thread_steps (close_stream d) (a ∷ b ∷ c ∷ e ∷ rest)).events ≡ d.events ++ (closed ∷ []))
unfolding close_stream close_state close_repeat
close_stream_exits d a b c e rest k s = (ap (λ t. t.place) ends, ap (λ t. t.events) ends)
  where
    ends :
        thread_steps (close_stream d) (a ∷ b ∷ c ∷ e ∷ rest)
        ≡ at d false exited (d.events ++ (closed ∷ []))
    ends =
        ap (λ r. thread_steps (at d r d.place d.events) (a ∷ b ∷ c ∷ e ∷ rest)) k
        ∙ from_place d d.place a b c e rest s

abbrev pub packets : ℕ → List Answers
packets zero = []
packets (suc n) = (record { open_ok = true; info_ok = true; read = packet }) ∷ packets n

abbrev in_service : Demuxer → Bool → List Event → Demuxer
in_service d f es = record d {
  work_state = service;
  repeat = false;
  keep_running = true;
  is_file_url = f;
  place = serving;
  events = es;
}

serves_on :
    (d : Demuxer) (n : ℕ) (f : Bool) (es : List Event)
    → (thread_steps (in_service d f es) (packets n)).place ≡ serving
unfolding thread_steps thread_step
serves_on d zero f es = refl
serves_on d (suc n) f es = serves_on d n f (es ++ (frame ∷ []))

-- When `closeStream(false)` makes its writes while the thread is in `doInitialize`, and the stream
-- opens and has packets, the thread does not end: after the two steps to its reading loop it stays
-- there for any number of packets, and the join waits for it.
pub close_while_opening :
    (d : Demuxer) (n : ℕ)
    → d.keep_running ≡ true
    → d.place ≡ initializing
    → (thread_steps (close_stream d) (packets (suc (suc n)))).place ≡ serving
unfolding thread_steps thread_step do_initialize close_stream close_state close_repeat
close_while_opening d n k i =
    ap₂ (λ b p. (thread_steps (at d b p d.events) (packets (suc (suc n)))).place) k i
    ∙ serves_on d n (if is_rtsp d.input_url then d.is_file_url else true)
        (d.events ++ (opened ∷ []))
