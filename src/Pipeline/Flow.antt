-- ===== src/Pipeline/Flow.antt =====
-- otl_pipeline.h: no frame is lost, and none appears twice.
use otl.Common.{ℕ, zero, suc, ◌+◌, ◌≡◌, refl, ap, arith, Bool, false, List, [], ◌∷◌, replicate}
use otl.ThreadQueue
use otl.ThreadQueue.{BlockingQueue, Pushed, stored, create, stop, items, wait_and_push_one}
use otl.ThreadQueue.Bound.{push-Grown}
use otl.Pipeline
use otl.Pipeline.{
  Thread, at_pop, WorkerPool, Delegate, DetectorParam, InferencePipe, Event, frame, pre_pops,
  pre_pushes, fwd_pops, fwd_pushes, post_pops, flushes, start_work, init_pool, init, push_frame,
  flush_frame, frame_pushed, thread_pop, thread_push, with_batch, after_pop, finish, step, run,
}
use otl.Pipeline.Counts.{
  held, batch_of-with_batch, Pops, thread_pop_lem, Pushes, thread_push_lem, tally, tally-append,
  tally-held-set, inside, inside-after_pop, OnSome, map_some-OnSome, OnSome-both,
}
use otl.Pipeline.Open.{IsRunning, ordered_of, step-IsRunning, init-IsRunning, run_ind}

module _ {ℓ} {A : Type ℓ} where
  -- The delegate keeps the number of the elements of a batch that pass a test.
  pub record IsKeeping (t : A → Bool) (d : Delegate A) : Type ℓ where
    pub preprocess : (xs : List A) → tally t (d.preprocess xs) ≡ tally t xs
    pub forward : (xs : List A) → tally t (d.forward xs) ≡ tally t xs
    pub postprocess : (xs : List A) → tally t (d.postprocess xs) ≡ tally t xs

  -- Each frame that was pushed is finished, or is in exactly one place of the pipe.
  abbrev pub IsWhole : (A → Bool) → InferencePipe A → Type 0
  IsWhole t p =
      tally t p.pushed ≡ tally t p.finished + (inside t p.pre + (inside t p.fwd + inside t p.post))

  -- A push takes the element from one pool to the next.
  pub inside-thread_push :
      (t : A → Bool) (w to : WorkerPool A) (k : ℕ) (r : WorkerPool A × WorkerPool A)
      → Pushes w to k r
      → to.work_que.drops ≡ false
      → to.work_que.stop ≡ false
      → inside t r.0 + inside t r.1 ≡ inside t w + inside t to
  inside-thread_push t w to k r p d s =
      rw (p.result, p.grown.settings.stop_same, s)
        (omega (
          arith,
          ap (tally t) (ordered_of p.grown d),
          tally-append t (items to.work_que) (p.x ∷ []),
          tally-held-set t w.threads k _ (with_batch p.xs) p.at,
          ap (tally t) (batch_of-with_batch p.xs),
        ))

  module _ (t : A → Bool) (d : Delegate A) (keeps : IsKeeping t d) (param : DetectorParam) where
    frame_pushed-IsWhole :
        (p : InferencePipe A) (x : A) (s : Pushed A)
        → wait_and_push_one p.pre.work_que x ≡ s
        → IsRunning param p
        → IsWhole t p
        → OnSome (IsWhole t) (frame_pushed p x s)
    frame_pushed-IsWhole p x ThreadQueue.Pushed.waits e h w = tt
    frame_pushed-IsWhole p x (stored q lost) e h w = omega (
      arith,
      w,
      tally-append t p.pushed (x ∷ []),
      ap (tally t) (ordered_of (push-Grown p.pre.work_que x q lost e) h.pre.drops_same),
      tally-append t (items p.pre.work_que) (x ∷ []),
    )

    after_pop-inside :
        (g : List A → List A) (w : WorkerPool A) (k : ℕ) (q : BlockingQueue A) (out : List A)
        → ((xs : List A) → tally t (g xs) ≡ tally t xs)
        → Pops w k q out
        → inside t (after_pop g w k (q, out)) ≡ inside t w
    after_pop-inside g w k q out same p =
        omega (arith, inside-after_pop t g w k q out (same []) p, same out)

    finish-IsWhole :
        (p : InferencePipe A) (k : ℕ) (q : BlockingQueue A) (out : List A)
        → Pops p.post k q out
        → IsWhole t p
        → IsWhole t (finish d p k (q, out))
    finish-IsWhole p k q [] o w =
        omega (arith, w, inside-after_pop t (λ b. []) p.post k q [] refl o)
    finish-IsWhole p k q (x ∷ xs) o w = omega (
      arith,
      w,
      inside-after_pop t (λ b. []) p.post k q (x ∷ xs) refl o,
      tally-append t p.finished (d.postprocess (x ∷ xs)),
      keeps.postprocess (x ∷ xs),
    )

    pub step-IsWhole :
        (p : InferencePipe A) (e : Event A)
        → IsRunning param p
        → IsWhole t p
        → OnSome (IsWhole t) (step d p e)
    unfolding step push_frame flush_frame Pipeline.flush stop
    step-IsWhole p (frame x) h w =
        frame_pushed-IsWhole p x (wait_and_push_one p.pre.work_que x) refl h w
    step-IsWhole p (pre_pops k) h w = map_some-OnSome (IsWhole t) _ (thread_pop p.pre k) λ r e.
        let o = thread_pop_lem p.pre k r.0 r.1 e in
        omega (arith, w, after_pop-inside d.preprocess p.pre k r.0 r.1 keeps.preprocess o)
    step-IsWhole p (pre_pushes k) h w =
        map_some-OnSome (IsWhole t) _ (thread_push p.pre p.fwd k) λ r e.
          let o = thread_push_lem p.pre p.fwd k r e in
          omega
            (arith, w, inside-thread_push t p.pre p.fwd k r o h.fwd.opened.drops_same h.fwd.runs)
    step-IsWhole p (fwd_pops k) h w = map_some-OnSome (IsWhole t) _ (thread_pop p.fwd k) λ r e.
        let o = thread_pop_lem p.fwd k r.0 r.1 e in
        omega (arith, w, after_pop-inside d.forward p.fwd k r.0 r.1 keeps.forward o)
    step-IsWhole p (fwd_pushes k) h w =
        map_some-OnSome (IsWhole t) _ (thread_push p.fwd p.post k) λ r e.
          let o = thread_push_lem p.fwd p.post k r e in
          omega
            (arith, w, inside-thread_push t p.fwd p.post k r o h.post.opened.drops_same h.post.runs)
    step-IsWhole p (post_pops k) h w =
        map_some-OnSome (IsWhole t) (finish d p k) (thread_pop p.post k)
          λ r e. finish-IsWhole p k r.0 r.1 (thread_pop_lem p.post k r.0 r.1 e) w
    step-IsWhole p flushes h w = w

  tally-held-replicate :
      (t : A → Bool) (n : ℕ) → tally t (held (replicate {A = Thread A} n at_pop)) ≡ 0
  tally-held-replicate t zero = refl
  tally-held-replicate t (suc n) = tally-held-replicate t n

  pub init-IsWhole : (t : A → Bool) (param : DetectorParam) → IsWhole t (init param)
  unfolding init start_work init_pool create
  init-IsWhole t param = omega (
    arith,
    tally-held-replicate t param.preprocess_thread_num,
    tally-held-replicate t param.inference_thread_num,
    tally-held-replicate t param.postprocess_thread_num,
  )

  -- Let each call of the delegate keep, in any batch, the number of the elements that pass a test.
  -- Then after any schedule of pushed frames, pops and pushes of the threads and flushes, with any
  -- parameters, as many of the frames pushed pass the test as among those that are finished, wait in
  -- one of the three queues or are in a thread's hands: none is lost and none is there twice. The
  -- queues keep their limits, except the first once it is stopped, and the others are never stopped.
  pub run-init-IsWhole :
      (t : A → Bool) (d : Delegate A) (param : DetectorParam) (es : List (Event A))
      → IsKeeping t d
      → IsRunning param (run d (init param) es) × IsWhole t (run d (init param) es)
  run-init-IsWhole t d param es keeps =
      run_ind (λ p. IsRunning param p × IsWhole t p) d
        (λ p e h.
          OnSome-both _ _ (step d p e) (step-IsRunning param d p e h.0)
            (step-IsWhole t d keeps param p e h.0 h.1))
        es (init param) (init-IsRunning param, init-IsWhole t param)
