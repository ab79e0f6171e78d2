-- ===== src/Demuxer/Steps.antt =====
-- stream_demuxer.cpp: the thread's steps and `openStream` keep that invariant.
use otl.Common.{
  ℕ, ◌≡◌, inl, inr, refl, sym, ap, subst, ◌∙◌, Bool, Bool-cases, true, false, ◌&&◌, List, [], ◌∷◌,
  ◌++◌, some, if◌then◌else◌,
}
use otl.Demuxer.{
  State, initialize, service, down, opened, closed, frame, eof, Place, idle, switching,
  initializing, serving, downing, exited, Demuxer, Read, packet, end_of_file, failed, Answers, emit,
  is_rtsp, do_initialize, do_down, read_frame, serve, step_at, start_thread, prepare, after_sync,
  open_stream,
}
use otl.Demuxer.Invariant.{
  follow, is_service, is_down, PlaceOk, Inv, follow-append, allowed_closed, at_switch,
  switching-Inv,
}

-- The stream is opened; the place is one that any state may have.
opened-Inv :
    (d : Demuxer) (is_file : Bool) (v : Inv d)
    → v.is_open ≡ false
    → d.keep_running ≡ true
    → Inv (record d {
      is_file_url = is_file;
      events = d.events ++ (opened ∷ []);
      work_state = service;
      place = switching;
    })
opened-Inv d is_file v o k = record {
  is_open = true;
  trace = follow-append (some false) d.events opened false (v.trace ∙ ap some o);
  in_service = λ h. refl;
  in_initialize = λ h. absurd (cc (ap is_service h));
  stopped = λ h. absurd (cc (sym k ∙ h));
  at_place = tt;
}

initializing-Inv :
    (d : Demuxer) (a : Answers) (v : Inv d)
    → v.is_open ≡ false
    → d.keep_running ≡ true
    → Inv (record (do_initialize d a).0 { place = switching })
unfolding do_initialize
initializing-Inv d a v o k = elim (Bool-cases (a.open_ok && a.info_ok)) [
  | inl e ↦
      subst (λ b. Inv (record (branch b).0 { place = switching })) (sym e)
        (opened-Inv d tried.is_file_url v o k)
  | inr e ↦
      subst (λ b. Inv (record (branch b).0 { place = switching })) (sym e)
        (record {
          is_open = v.is_open;
          trace = v.trace;
          in_service = v.in_service;
          in_initialize = v.in_initialize;
          stopped = v.stopped;
          at_place = tt;
        })
]
  where
    tried : Demuxer
    tried = record d { is_file_url = if is_rtsp d.input_url then d.is_file_url else true }

    branch : Bool → Demuxer × Bool
    branch b =
        if b then (record (emit tried opened) { work_state = service }, true) else (tried, false)

-- An event of an open stream.
read-Inv :
    (d : Demuxer) (r : Read) (v : Inv d)
    → v.is_open ≡ true
    → d.work_state ≡ service
    → PlaceOk d.place true d.work_state d.keep_running
    → Inv (read_frame d r)
read-Inv d packet v o s at = record {
  is_open = true;
  trace = follow-append (some false) d.events frame true (v.trace ∙ ap some o);
  in_service = λ h. refl;
  in_initialize = λ h. absurd (cc (sym (ap is_service s) ∙ ap is_service h));
  stopped = λ h. absurd (cc (sym o ∙ v.stopped h));
  at_place = at;
}
read-Inv d failed v o s at = v
read-Inv d end_of_file v o s at = elim (Bool-cases (d.repeat && d.is_file_url)) [
  | inl e ↦ subst (λ b. Inv (if b then d else ended)) (sym e) v
  | inr e ↦
      subst (λ b. Inv (if b then d else ended)) (sym e)
        (record {
          is_open = true;
          trace = follow-append (some false) d.events eof true (v.trace ∙ ap some o);
          in_service = λ h. refl;
          in_initialize = λ h. absurd (cc (ap is_down h));
          stopped = λ h. absurd (cc (sym o ∙ v.stopped h));
          at_place = tt;
        })
]
  where
    ended : Demuxer
    ended = record (emit d eof) { work_state = down; place = switching }

serving-Inv :
    (d : Demuxer) (r : Read) (v : Inv d) (st : State)
    → v.is_open ≡ true
    → d.work_state ≡ st
    → PlaceOk d.place true d.work_state d.keep_running
    → Inv (serve st d r)
serving-Inv d r v service o e at = read-Inv d r v o e at
serving-Inv d r v initialize o e at = at_switch v
serving-Inv d r v down o e at = at_switch v

downing-Inv :
    (d : Demuxer) (b : Bool) (v : Inv d)
    → d.work_state ≡ down
    → Inv
        (record (if b
          then record (emit d closed) { work_state = initialize }
          else record (emit d closed) { keep_running = false }) { place = switching })
downing-Inv d b v e = go b
  where
    trace' : follow (some false) (d.events ++ (closed ∷ [])) ≡ some false
    trace' = follow-append (some false) d.events closed v.is_open v.trace ∙ allowed_closed v.is_open

    go :
        (b : Bool)
        → Inv
            (record (if b
              then record (emit d closed) { work_state = initialize }
              else record (emit d closed) { keep_running = false }) { place = switching })
    go true = record {
      is_open = false;
      trace = trace';
      in_service = λ h. absurd (cc (ap is_service h));
      in_initialize = λ h. refl;
      stopped = λ h. refl;
      at_place = tt;
    }
    go false = record {
      is_open = false;
      trace = trace';
      in_service = λ h. absurd (cc (sym (ap is_service e) ∙ ap is_service h));
      in_initialize = λ h. refl;
      stopped = λ h. refl;
      at_place = tt;
    }

pub thread-Inv :
    (d : Demuxer) (a : Answers) (v : Inv d) (pl : Place)
    → d.place ≡ pl
    → PlaceOk pl v.is_open d.work_state d.keep_running
    → Inv (step_at pl d a)
unfolding do_down
thread-Inv d a v idle e p = v
thread-Inv d a v switching e p = switching-Inv d d.keep_running refl v
thread-Inv d a v initializing e p = initializing-Inv d a v p.0 p.1
thread-Inv d a v serving e p =
    serving-Inv d a.read v d.work_state p refl
      (subst (λ o. PlaceOk d.place o d.work_state d.keep_running) p v.at_place)
thread-Inv d a v downing e p = downing-Inv d d.repeat v p
thread-Inv d a v exited e p = v

pub close_state-PlaceOk :
    (pl : Place) (o : Bool) (st : State) (k : Bool) → PlaceOk pl o st k → PlaceOk pl o down k
close_state-PlaceOk idle o st k p = p
close_state-PlaceOk switching o st k p = p
close_state-PlaceOk initializing o st k p = p
close_state-PlaceOk serving o st k p = p
close_state-PlaceOk downing o st k p = refl
close_state-PlaceOk exited o st k p = p

-- A thread is started in a stream that has the state of its members.
start-Inv :
    (d : Demuxer) (is_open : Bool)
    → follow (some false) d.events ≡ some is_open
    → (d.work_state ≡ service → is_open ≡ true)
    → (d.work_state ≡ initialize → is_open ≡ false)
    → Inv (start_thread d)
start-Inv d o t s i = record {
  is_open = o;
  trace = t;
  in_service = s;
  in_initialize = i;
  stopped = λ h. absurd (cc h);
  at_place = tt;
}

pub open-Inv :
    (d : Demuxer) (url : List ℕ) (repeat is_sync_open : Bool) (a : Answers)
    → d.place ≡ idle
    → (v : Inv d) → v.is_open ≡ false
    → Inv (open_stream d url repeat is_sync_open a)
unfolding open_stream do_initialize
open-Inv d url repeat false a e v o =
    start-Inv (prepare d url repeat) false (v.trace ∙ ap some o)
      (λ h. absurd (cc (ap is_service h))) (λ h. refl)
open-Inv d url repeat true a e v o = elim (Bool-cases (a.open_ok && a.info_ok)) [
  | inl k ↦
      subst (λ b. Inv (after_sync (branch b))) (sym k)
        (start-Inv (record (emit tried opened) { work_state = service }) true
          (follow-append (some false) d.events opened false (v.trace ∙ ap some o)) (λ h. refl)
          (λ h. absurd (cc (ap is_service h))))
  | inr k ↦
      subst (λ b. Inv (after_sync (branch b))) (sym k)
        (record {
          is_open = false;
          trace = v.trace ∙ ap some o;
          in_service = λ h. absurd (cc (ap is_service h));
          in_initialize = λ h. refl;
          stopped = λ h. refl;
          at_place = subst (λ pl. PlaceOk pl false initialize d.keep_running) (sym e) refl;
        })
]
  where
    tried : Demuxer
    tried = record (prepare d url repeat) {
      is_file_url = if is_rtsp url then d.is_file_url else true;
    }

    branch : Bool → Demuxer × Bool
    branch b =
        if b then (record (emit tried opened) { work_state = service }, true) else (tried, false)
