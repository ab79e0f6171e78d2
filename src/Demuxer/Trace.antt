-- ===== src/Demuxer/Trace.antt =====
-- stream_demuxer.cpp: the order of the callbacks.
use otl.Common.{◌∙◌, sym, [], true, ℕ, ◌≡◌, refl, ap, subst, Bool, false, List, some}
use otl.Demuxer.{
  State, down, Place, idle, exited, Demuxer, Answers, create, step_at, do_initialize, thread_step,
  close_state, close_repeat, joined, open_stream,
}
use otl.Demuxer.Invariant.{follow, is_service, is_down, PlaceOk, Inv}
use otl.Demuxer.Steps.{thread-Inv, close_state-PlaceOk, open-Inv}

-- The thread's steps, the writes of `closeStream` in either order and at any time, the end of its
-- join, and `openStream` when there is no thread.
pub data Step (d : Demuxer) : Demuxer → Type 0 where
  threads : (a : Answers) → Step d (thread_step d a)
  closes_state : Step d (close_state d)
  closes_repeat : Step d (close_repeat d)
  joins : d.place ≡ exited → Step d (joined d)
  opens :
      (url : List ℕ) (repeat is_sync_open : Bool) (a : Answers)
      → d.place ≡ idle
      → Step d (open_stream d url repeat is_sync_open a)

pub data Reach (d : Demuxer) : Demuxer → Type 0 where
  here : Reach d d
  next : {t u : Demuxer} → Reach d t → Step t u → Reach d u

at_place_of :
    {d : Demuxer} (v : Inv d) (pl : Place)
    → d.place ≡ pl
    → PlaceOk pl v.is_open d.work_state d.keep_running
at_place_of {d} v pl e = subst (λ p. PlaceOk p v.is_open d.work_state d.keep_running) e v.at_place

Step-Inv : {d e : Demuxer} → Step d e → Inv d → Inv e
unfolding thread_step close_state close_repeat joined
Step-Inv {d} (threads a) v = thread-Inv d a v d.place refl v.at_place
Step-Inv {d} closes_state v = record {
  is_open = v.is_open;
  trace = v.trace;
  in_service = λ h. absurd (cc (ap is_service h));
  in_initialize = λ h. absurd (cc (ap is_down h));
  stopped = v.stopped;
  at_place = close_state-PlaceOk d.place v.is_open d.work_state d.keep_running v.at_place;
}
Step-Inv {d} closes_repeat v = record {
  is_open = v.is_open;
  trace = v.trace;
  in_service = v.in_service;
  in_initialize = v.in_initialize;
  stopped = v.stopped;
  at_place = v.at_place;
}
Step-Inv {d} (joins e) v = record {
  is_open = v.is_open;
  trace = v.trace;
  in_service = v.in_service;
  in_initialize = v.in_initialize;
  stopped = v.stopped;
  at_place = at_place_of v exited e;
}
Step-Inv {d} (opens url repeat is_sync_open a e) v =
    open-Inv d url repeat is_sync_open a e v (at_place_of v idle e)

-- Before the first stream the state may be any: there is no thread that reads it.
data Known (d : Demuxer) : Type 0 where
  fresh : d.place ≡ idle → d.events ≡ [] → Known d
  kept : Inv d → Known d

closed-Inv : (d : Demuxer) → d.place ≡ idle → d.events ≡ [] → Inv (close_state d)
unfolding close_state
closed-Inv d e n = record {
  is_open = false;
  trace = ap (follow (some false)) n;
  in_service = λ h. absurd (cc (ap is_service h));
  in_initialize = λ h. absurd (cc (ap is_down h));
  stopped = λ h. refl;
  at_place = subst (λ p. PlaceOk p false down d.keep_running) (sym e) refl;
}

is_exited : Place → Bool
is_exited exited = true
is_exited _ = false

Step-Known : {d e : Demuxer} → Step d e → Known d → Known e
unfolding thread_step close_state close_repeat open_stream do_initialize
Step-Known s (kept v) = kept (Step-Inv s v)
Step-Known {d} (threads a) (fresh e n) = subst (λ p. Known (step_at p d a)) (sym e) (fresh e n)
Step-Known closes_state (fresh e n) = fresh e n
Step-Known closes_repeat (fresh e n) = fresh e n
Step-Known (joins h) (fresh e n) = absurd (cc (sym (ap is_exited h) ∙ ap is_exited e))
Step-Known {d} (opens url repeat is_sync_open a h) (fresh e n) = kept (
    open-Inv (close_state d) url repeat is_sync_open a e (closed-Inv d e n)
      (at_place_of (closed-Inv d e n) idle e))

Reach-Known : {d e : Demuxer} → Known d → Reach d e → Known e
Reach-Known v here = v
Reach-Known v (next r s) = Step-Known s (Reach-Known v r)

Known-trace :
    (d : Demuxer) → Known d → (is_open : Bool) × (follow (some false) d.events ≡ some is_open)
Known-trace d (fresh e n) = (false, ap (follow (some false)) n)
Known-trace d (kept v) = (v.is_open, v.trace)

-- Whatever FFmpeg answers, and whenever another thread makes the writes of `closeStream` between two
-- steps of the reading thread, over any number of calls of `openStream`, each after the join: the
-- callbacks come in order, whatever stood in the members at first. No stream is opened while one is open, and frames and the end of the file
-- only come after a stream was opened and before it is closed.
pub events_in_order :
    (state : State) (repeat keep_running : Bool) (d : Demuxer)
    → Reach (create state repeat keep_running) d
    → (is_open : Bool) × (follow (some false) d.events ≡ some is_open)
unfolding create
events_in_order state repeat keep_running d r = Known-trace d (Reach-Known (fresh refl refl) r)
