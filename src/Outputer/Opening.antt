-- ===== src/Outputer/Opening.antt =====
-- stream_pusher.h: opening a stream and setting the smoother keep the state of the outputer.
use otl.Common.{
  ℕ, ◌≡◌, inl, inr, refl, sym, ap, subst, ◌∙◌, arith, Bool, Bool-cases, true, false, not, ◌&&◌,
  ◌||◌, List, Option, none, some, if◌then◌else◌, bytes_eq,
}
use otl.Common.Int.{ℤ, pos}
use otl.Log.Level.{codes}
use otl.Smoother
use otl.Smoother.{Blend, AvPacket, TimestampSmoother}
use otl.Smoother.Order.{◌<ℤ◌, IsValid}
use otl.Outputer.{
  service, header, idle, Outputer, Answers, Codec, Factors, emit, output_initialize, is_some,
  open_context, after_initialize, after_context, after_format, open_output_stream, format_name,
  configure_timestamp_smoother, set_timestamp_smoothing_preset,
}
use otl.Outputer.Mux.{
  Phase, closed, opened, follow, follow-append, PhaseOk, is_closed, PlaceOk, Inv,
}

module _ {F : Type 0} (f : Blend F) where
  -- No stream is open and there is no thread.
  record Shut (o : Outputer F) : Type 0 where
    trace : follow (some closed) o.events ≡ some closed
    no_thread : o.place ≡ idle
    nothing_out : o.smoother.last_output_pts ≡ none
    smooth : IsValid f o.smoother
    rising : pos 0 <ℤ o.smoother.min_increment

  Shut-Inv : (o : Outputer F) → Shut o → Inv f o
  Shut-Inv o w = record {
    phase = closed;
    trace = w.trace;
    phase_ok = tt;
    place_ok = subst (λ p. PlaceOk p o.is_running closed) (sym w.no_thread) refl;
    smooth = w.smooth;
    rising = w.rising;
  }

  started-Inv :
      (o : Outputer F) (a : Answers) → Shut o → Inv f (after_initialize (output_initialize o a)).0
  unfolding output_initialize
  started-Inv o a w = elim (Bool-cases (a.io_opened && a.header_written)) [
    | inl e ↦
        subst (λ b. Inv f (after_initialize (branch b)).0) (sym e)
          (record {
            phase = opened none;
            trace = follow-append (some closed) o.events header closed w.trace;
            phase_ok = (sym w.nothing_out, tt);
            place_ok = refl;
            smooth = w.smooth;
            rising = w.rising;
          })
    | inr e ↦ subst (λ b. Inv f (after_initialize (branch b)).0) (sym e) (Shut-Inv o w)
  ]
    where
      branch : Bool → Outputer F × Bool
      branch b = if b then (record (emit o header) { output_state = service }, true) else (o, false)

  context-Inv :
      (o : Outputer F) (a : Answers) (b : Bool) → Shut o → Inv f (after_context (o, b) a).0
  context-Inv o a true w = started-Inv o a w
  context-Inv o a false w = Shut-Inv o w

  format-Inv :
      (o : Outputer F) (codec : Option Codec) (a : Answers) (name : Option (List ℕ))
      → Shut o
      → Inv f (after_format o codec a name).0
  unfolding open_context
  format-Inv o codec a none w = Shut-Inv o w
  format-Inv o codec a (some name) w = by_context o.has_context a.allocated
    where
      with_context : Outputer F
      with_context = record o { has_context = true }

      ready : Bool
      ready = a.has_stream && (not (is_some codec) || a.copied)

      by_context :
          (b c : Bool)
          → Inv f
              (after_context
                (if b then (o, true) else if c then (with_context, ready) else (o, false))
                a).0
      by_context true c = context-Inv o a true w
      by_context false true = context-Inv with_context a ready (record {
        trace = w.trace;
        no_thread = w.no_thread;
        nothing_out = w.nothing_out;
        smooth = w.smooth;
        rising = w.rising;
      })
      by_context false false = context-Inv o a false w

  idle_closed : (o : Outputer F) (v : Inv f o) → o.place ≡ idle → v.phase ≡ closed
  idle_closed o v e =
      closed_phase v.phase (subst (λ p. PlaceOk p o.is_running v.phase) e v.place_ok)
    where
      closed_phase : (p : Phase) → is_closed p ≡ true → p ≡ closed
      closed_phase closed h = refl
      closed_phase (opened last) h = absurd (cc h)

  pub open-Inv :
      (o : Outputer F) (url : List ℕ) (codec : Option Codec) (a : Answers)
      → o.place ≡ idle
      → Inv f o
      → Inv f (open_output_stream o url codec a).0
  unfolding open_output_stream Smoother.reset
  open-Inv o url codec a e v =
      format-Inv (record o { url = url; smoother = Smoother.reset o.smoother }) codec a
        (format_name url codec)
        (record {
          trace = v.trace ∙ ap some (idle_closed o v e);
          no_thread = e;
          nothing_out = refl;
          smooth = record { started = inl (refl, refl); short = omega arith };
          rising = v.rising;
        })

  pub configure-Inv :
      (o : Outputer F) (factor : F) (max_jump_threshold min_increment : ℤ)
      → pos 0 <ℤ min_increment
      → Inv f o
      → Inv f (configure_timestamp_smoother f o factor max_jump_threshold min_increment)
  unfolding configure_timestamp_smoother Smoother.set_smoothing_parameters
  configure-Inv o factor m n h v = record {
    phase = v.phase;
    trace = v.trace;
    phase_ok = kept v.phase v.phase_ok;
    place_ok = v.place_ok;
    smooth = record { started = v.smooth.started; short = v.smooth.short };
    rising = h;
  }
    where
      kept : (p : Phase) → PhaseOk o p → PhaseOk (configure_timestamp_smoother f o factor m n) p
      kept closed k = tt
      kept (opened last) k = k

  pub preset-Inv :
      (c : Factors F) (o : Outputer F) (preset : List ℕ)
      → Inv f o
      → Inv f (set_timestamp_smoothing_preset f c o preset)
  unfolding set_timestamp_smoothing_preset
  preset-Inv c o preset v =
      by_name (bytes_eq preset (codes "conservative")) (bytes_eq preset (codes "aggressive"))
        (bytes_eq preset (codes "looping"))
    where
      by_name :
          (x y z : Bool)
          → Inv f (
              if x
              then configure_timestamp_smoother f o c.conservative (pos 180000) (pos 1000)
              else if y
              then configure_timestamp_smoother f o c.aggressive (pos 30000) (pos 3000)
              else if z
              then configure_timestamp_smoother f o c.looping (pos 45000) (pos 2000)
              else configure_timestamp_smoother f o c.standard (pos 90000) (pos 3000))
      by_name true y z = configure-Inv o c.conservative (pos 180000) (pos 1000) (omega arith) v
      by_name false true z = configure-Inv o c.aggressive (pos 30000) (pos 3000) (omega arith) v
      by_name false false true = configure-Inv o c.looping (pos 45000) (pos 2000) (omega arith) v
      by_name false false false = configure-Inv o c.standard (pos 90000) (pos 3000) (omega arith) v

  -- Steps that leave the events, the place, the thread's flag and the smoother.
  pub same-Inv :
      (o e : Outputer F) (v : Inv f o)
      → e.events ≡ o.events
      → e.place ≡ o.place
      → e.is_running ≡ o.is_running
      → e.smoother ≡ o.smoother
      → PhaseOk e v.phase
      → Inv f e
  same-Inv o e v s p r m k = record {
    phase = v.phase;
    trace = ap (follow (some closed)) s ∙ v.trace;
    phase_ok = k;
    place_ok =
        subst (λ b. PlaceOk e.place b v.phase) (sym r)
          (subst (λ q. PlaceOk q o.is_running v.phase) (sym p) v.place_ok);
    smooth = subst (IsValid f) (sym m) v.smooth;
    rising = subst (λ x. pos 0 <ℤ x.min_increment) (sym m) v.rising;
  }
