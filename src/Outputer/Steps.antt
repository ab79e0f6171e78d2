-- ===== src/Outputer/Steps.antt =====
-- stream_pusher.h: the thread's cases and `openOutputStream` keep the state of the outputer.
use otl.Common.{◌≡◌, refl, sym, ap, subst, ◌∙◌, Bool, true, false, not, Option, some, if◌then◌else◌}
use otl.Common.Int.{ℤ, pos}
use otl.InternalQueue
use otl.InternalQueue.{InternalQueue, Popped, waits, refused, popped}
use otl.Smoother.{Blend, AvPacket, TimestampSmoother}
use otl.Smoother.Order.{◌<ℤ◌, IsValid, Rises, smooth_timestamp_lem}
use otl.Outputer.{
  State, init, service, down, trailer, frame, Place, idle, starting, switching, exited, Outputer,
  Answers, emit, written, serve, output_service, output_down, switch, step_at, drain,
}
use otl.Outputer.Mux.{
  Phase, closed, opened, follow, follow-append, stamped_lem, Going, PhaseOk, is_closed, PlaceOk,
  Inv,
}

module _ {F : Type 0} (f : Blend F) where
  -- The thread is at the `switch` of an open stream.
  pub record Serving (o : Outputer F) (last : Option ℤ) : Type 0 where
    pub trace : follow (some closed) o.events ≡ some (opened last)
    pub last_is : last ≡ o.smoother.last_output_pts
    pub going : Going o.output_state o.repeat
    pub smooth : IsValid f o.smoother
    pub rising : pos 0 <ℤ o.smoother.min_increment
    pub at_switch : o.place ≡ switching
    pub runs : o.is_running ≡ true

  Serving-Inv : (o : Outputer F) (last : Option ℤ) → Serving o last → Inv f o
  Serving-Inv o last w = record {
    phase = opened last;
    trace = w.trace;
    phase_ok = (w.last_is, w.going);
    place_ok = subst (λ p. PlaceOk p o.is_running (opened last)) (sym w.at_switch) w.runs;
    smooth = w.smooth;
    rising = w.rising;
  }

  frame-Inv :
      (o : Outputer F) (last : Option ℤ) (q : InternalQueue AvPacket)
      (r : TimestampSmoother F × AvPacket)
      → Serving o last
      → Rises f o.smoother.min_increment o.smoother.last_output_pts r
      → Inv f (written (record o { packet_queue = q }) (some r))
  frame-Inv o last q r w u = record {
    phase = opened (some u.t);
    trace =
        follow-append (some closed) o.events (frame r.1) (opened last) w.trace
        ∙ stamped_lem last r.1 u.t u.pts_is u.dts_is (λ l h. u.above l (sym w.last_is ∙ h));
    phase_ok = (sym u.last_is, w.going);
    place_ok = subst (λ p. PlaceOk p o.is_running (opened (some u.t))) (sym w.at_switch) w.runs;
    smooth = u.valid;
    rising = subst (λ m. pos 0 <ℤ m) (sym u.same_increment) w.rising;
  }

  serve-Inv :
      (o : Outputer F) (last : Option ℤ) (p : Popped AvPacket)
      → Serving o last
      → Inv f (serve f o p)
  serve-Inv o last waits w = Serving-Inv o last w
  serve-Inv o last refused w = Serving-Inv o last w
  serve-Inv o last (popped p q) w =
      let (r, e, u) = smooth_timestamp_lem f o.smoother p w.rising w.smooth in
      subst (λ s. Inv f (written (record o { packet_queue = q }) s)) (sym e)
        (frame-Inv o last q r w u)

  down-Inv :
      (o : Outputer F) (last : Option ℤ) → Serving o last → o.repeat ≡ false → Inv f (output_down o)
  unfolding output_down
  down-Inv o last w h =
      subst (λ b. Inv f (if b then record o { output_state = init } else ended)) (sym h)
        (record {
          phase = closed;
          trace = follow-append (some closed) o.events trailer (opened last) w.trace;
          phase_ok = tt;
          place_ok = subst (λ p. PlaceOk p false closed) (sym w.at_switch) refl;
          smooth = w.smooth;
          rising = w.rising;
        })
    where
      ended : Outputer F
      ended = record (emit o trailer) {
        packet_queue =
            InternalQueue.shutdown (drain (InternalQueue.size o.packet_queue) o.packet_queue);
        is_running = false;
      }

  switch-Inv :
      (o : Outputer F) (a : Answers) (last : Option ℤ) (st : State)
      → Serving o last
      → Going st o.repeat
      → Inv f (switch f st o a)
  unfolding output_service
  switch-Inv o a last init w g = elim g [ ]
  switch-Inv o a last service w g =
      serve-Inv o last (InternalQueue.pop o.packet_queue a.time_over) w
  switch-Inv o a last down w g = down-Inv o last w g

  -- The `switch`, and the end of the loop.
  loop-Inv :
      (o : Outputer F) (a : Answers) (p : Phase) (b : Bool)
      → follow (some closed) o.events ≡ some p
      → PhaseOk o p
      → IsValid f o.smoother
      → pos 0 <ℤ o.smoother.min_increment
      → o.place ≡ switching
      → o.is_running ≡ b
      → b ≡ not (is_closed p)
      → Inv f (if b then switch f o.output_state o a else record o { place = exited })
  loop-Inv o a closed true t k s r e i h = absurd (cc h)
  loop-Inv o a (opened last) false t k s r e i h = absurd (cc h)
  loop-Inv o a closed false t k s r e i h = record {
    phase = closed;
    trace = t;
    phase_ok = tt;
    place_ok = refl;
    smooth = s;
    rising = r;
  }
  loop-Inv o a (opened last) true t k s r e i h =
      switch-Inv o a last o.output_state
        (record {
          trace = t;
          last_is = k.0;
          going = k.1;
          smooth = s;
          rising = r;
          at_switch = e;
          runs = i;
        })
        k.1

  started_opened : (o : Outputer F) (p : Phase) → is_closed p ≡ false → true ≡ not (is_closed p)
  started_opened o p h = ap not (sym h)

  pub step-Inv :
      (o : Outputer F) (a : Answers) (v : Inv f o) (pl : Place)
      → o.place ≡ pl
      → PlaceOk pl o.is_running v.phase
      → Inv f (step_at f pl o a)
  step-Inv o a v idle e p = v
  step-Inv o a v starting e p = record {
    phase = v.phase;
    trace = v.trace;
    phase_ok = moved v.phase v.phase_ok;
    place_ok = started_opened o v.phase p;
    smooth = v.smooth;
    rising = v.rising;
  }
    where
      moved :
          (q : Phase) → PhaseOk o q → PhaseOk (record o { is_running = true; place = switching }) q
      moved closed k = tt
      moved (opened last) k = k
  step-Inv o a v switching e p =
      loop-Inv o a v.phase o.is_running v.trace v.phase_ok v.smooth v.rising e refl p
  step-Inv o a v exited e p = v
