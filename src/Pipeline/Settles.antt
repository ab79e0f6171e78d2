-- ===== src/Pipeline/Settles.antt =====
-- otl_pipeline.h: left to itself the pipe comes to rest, and then less than a batch is in it.
use otl.Common.{
  ℕ, zero, suc, ◌+◌, ◌≤◌, ◌<◌, ◌≡◌, inl, inr, refl, sym, ap, subst, ◌∙◌, arith, false, Option, none,
  some, List, [], ◌∷◌, length, All,
}
use otl.ThreadQueue.{BlockingQueue, items}
use otl.Pipeline.{
  Delegate, DetectorParam, InferencePipe, Event, frame, pre_pops, pre_pushes, fwd_pops, fwd_pushes,
  post_pops, flushes, init, thread_pop, thread_push, finish, or_same, step, run,
}
use otl.Pipeline.Counts.{tally, thread_pop_lem, thread_push_lem, OnSome, map_some-OnSome}
use otl.Pipeline.Open.{IsRunning, step-IsRunning, init-IsRunning, run_ind, after_pop_que}
use otl.Pipeline.Staff.{IsAwake, IsStaffed}
use otl.Pipeline.Serving.{IsServing, IsFed, step-IsServing, init-IsServing, step-IsFed, init-IsFed}
use otl.Pipeline.Flow.{IsKeeping, IsWhole, step-IsWhole, init-IsWhole}
use otl.Pipeline.Progress.{IsInner, IsStuck, live_or_idle}
use otl.Pipeline.Measure.{every, measure, inner_lowers}

OnSome_at {ℓ κ} :
    {X : Type ℓ} (P : X → Type κ) (o : Option X) (q : X) → OnSome P o → o ≡ some q → P q
OnSome_at P o q h e = subst (OnSome P) e h

module _ {ℓ} {A : Type ℓ} where
  -- The delegate keeps the sizes of the batches. Then in any state that the pipe comes to, every pop
  -- and every push of a thread that can happen lowers the measure of the work that is left.
  pub measure-step :
      (d : Delegate A) (param : DetectorParam) (es : List (Event A)) (e : Event A)
      (q : InferencePipe A)
      → IsKeeping every d
      → IsInner e
      → step d (run d (init param) es) e ≡ some q
      → measure q < measure (run d (init param) es)
  measure-step d param es e q keeps i h =
      OnSome_at (λ q. measure q < measure (run d (init param) es)) _ q
        (inner_lowers d keeps param (run d (init param) es) e i (
          run_ind (IsRunning param) d (step-IsRunning param d) es (init param)
            (init-IsRunning param)))
        h

  -- The pipe comes to rest without anybody outside, and less than a batch is not finished then.
  pub record Settles (batch_num : ℕ) (d : Delegate A) (p : InferencePipe A) : Type ℓ where
    pub events : List (Event A)
    pub inner : All IsInner events
    pub stuck : IsStuck batch_num (run d p events)
    pub pushed_same : (run d p events).pushed ≡ p.pushed
    pub nearly_all : length p.pushed < length (run d p events).finished + batch_num

  tally-every : (xs : List A) → tally every xs ≡ length xs
  tally-every [] = omega arith
  tally-every (x ∷ xs) = omega (arith, tally-every xs)

  nearly_whole :
      (batch_num : ℕ) (p : InferencePipe A)
      → IsWhole every p
      → IsStuck batch_num p
      → length p.pushed < length p.finished + batch_num
  nearly_whole batch_num p w k = omega (
    arith,
    w,
    k.few,
    ap (tally every) k.pre_held,
    ap (tally every) k.fwd_held,
    ap (tally every) k.post_held,
    ap (tally every) k.fwd_empty,
    ap (tally every) k.post_empty,
    tally-every p.pushed,
    tally-every p.finished,
    tally-every (items p.pre.work_que),
  )

  module _ (d : Delegate A) (keeps : IsKeeping every d) (param : DetectorParam)
      (some_batch : 0 < param.batch_num) where
    -- What holds of the pipe in every state.
    record Sound (p : InferencePipe A) : Type 0 where
      running : IsRunning param p
      serving : IsServing param p
      fed : IsFed param p.pre
      whole : IsWhole every p

    step-Sound : (p : InferencePipe A) (e : Event A) → Sound p → OnSome Sound (step d p e)
    step-Sound p e s =
        all (step d p e) (step-IsRunning param d p e s.running)
          (step-IsServing param d p e s.running s.serving) (step-IsFed param some_batch d p e s.fed)
          (step-IsWhole every d keeps param p e s.running s.whole)
      where
        all :
            (o : Option (InferencePipe A))
            → OnSome (IsRunning param) o
            → OnSome (IsServing param) o
            → OnSome (λ p. IsFed param p.pre) o
            → OnSome (IsWhole every) o
            → OnSome Sound o
        all none a b c e = tt
        all (some p) a b c e = record { running = a; serving = b; fed = c; whole = e }

    run-Sound : (es : List (Event A)) → Sound (run d (init param) es)
    run-Sound es = run_ind Sound d step-Sound es (init param) (record {
      running = init-IsRunning param;
      serving = init-IsServing param;
      fed = init-IsFed param some_batch;
      whole = init-IsWhole every param;
    })

    finish_same :
        (p : InferencePipe A) (k : ℕ) (r : BlockingQueue A × List A)
        → ((finish d p k r).pre ≡ p.pre) × ((finish d p k r).pushed ≡ p.pushed)
    finish_same p k (q, []) = (refl, refl)
    finish_same p k (q, x ∷ xs) = (refl, refl)

    -- A step inside the pipe neither pushes a frame nor stops the first queue.
    inner_same :
        (p : InferencePipe A) (e : Event A)
        → IsInner e
        → OnSome
            (λ q. (q.pre.work_que.stop ≡ p.pre.work_que.stop) × (q.pushed ≡ p.pushed))
            (step d p e)
    unfolding step
    inner_same p (frame x) i = absurd i
    inner_same p flushes i = absurd i
    inner_same p (pre_pops k) i = map_some-OnSome _ _ (thread_pop p.pre k) λ u e. (
      ap (λ q. q.stop) (after_pop_que d.preprocess p.pre k u.0 u.1)
          ∙ (thread_pop_lem p.pre k u.0 u.1 e).shrunk.settings.stop_same,
      refl,
    )
    inner_same p (pre_pushes k) i =
        map_some-OnSome _ _ (thread_push p.pre p.fwd k)
          λ u e. (ap (λ r. r.0.work_que.stop) (thread_push_lem p.pre p.fwd k u e).result, refl)
    inner_same p (fwd_pops k) i = map_some-OnSome _ _ (thread_pop p.fwd k) λ u e. (refl, refl)
    inner_same p (fwd_pushes k) i =
        map_some-OnSome _ _ (thread_push p.fwd p.post k) λ u e. (refl, refl)
    inner_same p (post_pops k) i =
        map_some-OnSome _ (finish d p k) (thread_pop p.post k)
          λ u e. (ap (λ w. w.work_que.stop) (finish_same p k u).0, (finish_same p k u).1)

    record Rests (p : InferencePipe A) : Type ℓ where
      events : List (Event A)
      inner : All IsInner events
      sound : Sound (run d p events)
      stuck : IsStuck param.batch_num (run d p events)
      pushed_same : (run d p events).pushed ≡ p.pushed

    run_next :
        (p q : InferencePipe A) (e : Event A) (es : List (Event A))
        → step d p e ≡ some q
        → run d p (e ∷ es) ≡ run d q es
    unfolding run
    run_next p q e es h = ap (λ o. run d (or_same p o) es) h

    step-Rests :
        (p q : InferencePipe A) (e : Event A)
        → step d p e ≡ some q
        → IsInner e
        → q.pushed ≡ p.pushed
        → Rests q
        → Rests p
    step-Rests p q e h i same r = record {
      events = e ∷ r.events;
      inner = (i, r.inner);
      sound = rw (run_next p q e r.events h) r.sound;
      stuck = rw (run_next p q e r.events h) r.stuck;
      pushed_same = ap (λ s. s.pushed) (run_next p q e r.events h) ∙ r.pushed_same ∙ same;
    }

    module _ (a : 0 < param.preprocess_thread_num) (b : 0 < param.inference_thread_num)
        (c : 0 < param.postprocess_thread_num) where
      staffed :
          (p : InferencePipe A)
          → p.pre.work_que.stop ≡ false
          → IsFed param p.pre
          → IsStaffed IsAwake param.preprocess_thread_num param.batch_num param.batch_num p.pre
      staffed p e (inl s) = absurd (cc (sym s ∙ e))
      staffed p e (inr (_, h)) = h

      -- One step after another, as many as the measure allows.
      rests :
          (fuel : ℕ) (p : InferencePipe A)
          → measure p ≤ fuel
          → p.pre.work_que.stop ≡ false
          → Sound p
          → Rests p
      unfolding run
      rests zero p m f s = elim (live_or_idle d param p a b c s.serving (staffed p f s.fed)) [
        | inr k ↦ record { events = []; inner = tt; sound = s; stuck = k; pushed_same = refl }
        | inl g ↦ absurd (
            omega (
              arith,
              OnSome_at (λ q. measure q < measure p) _ g.to
                  (inner_lowers d keeps param p g.event g.inner s.running) g.goes,
            ))
      ]
      rests (suc fuel) p m f s = elim (live_or_idle d param p a b c s.serving (staffed p f s.fed)) [
        | inr k ↦ record { events = []; inner = tt; sound = s; stuck = k; pushed_same = refl }
        | inl g ↦
            let less =
              OnSome_at (λ q. measure q < measure p) _ g.to
                (inner_lowers d keeps param p g.event g.inner s.running) g.goes in
            let same =
              OnSome_at (λ q. (q.pre.work_que.stop ≡ p.pre.work_que.stop) × (q.pushed ≡ p.pushed)) _
                g.to (inner_same p g.event g.inner) g.goes in
            step-Rests p g.to g.event g.goes g.inner same.1 (
              rests fuel g.to (omega arith) (same.0 ∙ f)
                (OnSome_at Sound _ g.to (step-Sound p g.event s) g.goes))
      ]

  -- The delegate keeps the sizes of the batches, every pool has a thread and a batch is not empty.
  -- Then from any state that the pipe comes to with its first queue not stopped, some pops and pushes
  -- of the threads lead to one where nothing is in a thread's hands or in the second and third queue,
  -- and less than a batch in the first: fewer than `batch_num` of the frames pushed are not finished.
  pub settles :
      (d : Delegate A) (param : DetectorParam) (es : List (Event A))
      → IsKeeping every d
      → 0 < param.batch_num
      → 0 < param.preprocess_thread_num
      → 0 < param.inference_thread_num
      → 0 < param.postprocess_thread_num
      → (run d (init param) es).pre.work_que.stop ≡ false
      → Settles param.batch_num d (run d (init param) es)
  settles d param es keeps n a b c f =
      let p = run d (init param) es in
      let r =
        rests d keeps param n a b c (measure p) p (omega arith) f (run-Sound d keeps param n es) in
      record {
        events = r.events;
        inner = r.inner;
        stuck = r.stuck;
        pushed_same = r.pushed_same;
        nearly_all =
            subst (λ l. length l < length (run d p r.events).finished + param.batch_num)
              r.pushed_same (nearly_whole param.batch_num (run d p r.events) r.sound.whole r.stuck);
      }
