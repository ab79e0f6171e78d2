-- ===== src/Pipeline/Starved.antt =====
-- otl_pipeline.h: a batch that is larger than the first queue.
use otl.Common.{
  ℕ, ◌≤◌, ◌<◌, ◌≡◌, refl, sym, ap, subst, ◌∙◌, arith, Bool, false, Option, none, some, List, [],
  ◌∷◌, ◌++◌, length, length-replicate, All,
}
use otl.ThreadQueue
use otl.ThreadQueue.{BlockingQueue, Pushed, stored, create, items, size_impl, wait_and_push_one}
use otl.ThreadQueue.Bound.{Within, push-Grown}
use otl.Pipeline.{
  at_pop, WorkerPool, Delegate, DetectorParam, InferencePipe, Event, frame, pre_pops, pre_pushes,
  fwd_pops, fwd_pushes, post_pops, flushes, start_work, init_pool, init, push_frame, frame_pushed,
  thread_pop, or_same, step, run,
}
use otl.Pipeline.Counts.{OnSome}
use otl.Pipeline.Open.{IsRunning, ordered_of, step-IsRunning, init-IsRunning}
use otl.Pipeline.Staff.{IsAtPop, IsStaffed, All-replicate, thread_pop_waits, thread_push_waits}

module _ {ℓ} {A : Type ℓ} where
  abbrev pub IsPushOrWork : Event A → Type 0
  IsPushOrWork flushes = ⊥
  IsPushOrWork (frame x) = Unit
  IsPushOrWork (pre_pops k) = Unit
  IsPushOrWork (pre_pushes k) = Unit
  IsPushOrWork (fwd_pops k) = Unit
  IsPushOrWork (fwd_pushes k) = Unit
  IsPushOrWork (post_pops k) = Unit

  -- Everything that was pushed waits in the first queue, and every thread at its pop.
  record IsIdle (param : DetectorParam) (p : InferencePipe A) : Type ℓ where
    runs : p.pre.work_que.stop ≡ false
    pre : IsStaffed IsAtPop param.preprocess_thread_num param.batch_num param.batch_num p.pre
    fwd : IsStaffed IsAtPop param.inference_thread_num 1 8 p.fwd
    post : IsStaffed IsAtPop param.postprocess_thread_num 1 8 p.post
    fwd_empty : items p.fwd.work_que ≡ []
    post_empty : items p.post.work_que ≡ []
    none_finished : p.finished ≡ []
    all_wait : p.pushed ≡ items p.pre.work_que

  module _ (param : DetectorParam) (limited : 0 < param.preprocess_queue_size)
      (large : param.preprocess_queue_size < param.batch_num) (d : Delegate A) where
    frame_pushed-IsIdle :
        (p : InferencePipe A) (x : A) (s : Pushed A)
        → wait_and_push_one p.pre.work_que x ≡ s
        → IsRunning param p
        → IsIdle param p
        → OnSome (IsIdle param) (frame_pushed p x s)
    frame_pushed-IsIdle p x ThreadQueue.Pushed.waits e r h = tt
    frame_pushed-IsIdle p x (stored q lost) e r h =
        let g = push-Grown p.pre.work_que x q lost e in
        record {
          runs = g.settings.stop_same ∙ h.runs;
          pre = record {
            kind = h.pre.kind;
            number = h.pre.number;
            min_same = h.pre.min_same;
            max_same = h.pre.max_same;
          };
          fwd = h.fwd;
          post = h.post;
          fwd_empty = h.fwd_empty;
          post_empty = h.post_empty;
          none_finished = h.none_finished;
          all_wait = ap (λ l. l ++ (x ∷ [])) h.all_wait ∙ sym (ordered_of g r.pre.drops_same);
        }

    within_limit :
        (p : InferencePipe A)
        → IsRunning param p
        → IsIdle param p
        → size_impl p.pre.work_que ≤ param.preprocess_queue_size
    within_limit p r h =
        go p.pre.work_que.stop p.pre.work_que.limit p.pre.work_que.drops (size_impl p.pre.work_que)
          h.runs r.pre.limit_same r.pre.drops_same r.pre.within
      where
        go :
            (s : Bool) (l : ℕ) (b : Bool) (n : ℕ)
            → s ≡ false
            → l ≡ param.preprocess_queue_size
            → b ≡ false
            → Within s l b n
            → n ≤ param.preprocess_queue_size
        go s l b n es el eb w = ground arith

    -- A pool whose queue is empty waits.
    waits_empty :
        {n max_num : ℕ} (w : WorkerPool A) (k : ℕ)
        → IsStaffed IsAtPop n 1 max_num w
        → w.work_que.stop ≡ false
        → items w.work_que ≡ []
        → thread_pop w k ≡ none
    waits_empty w k s e i = thread_pop_waits w k e (rw s.min_same (omega (arith, ap length i)))

    step-IsIdle :
        (p : InferencePipe A) (e : Event A)
        → IsPushOrWork e
        → IsRunning param p
        → IsIdle param p
        → OnSome (IsIdle param) (step d p e)
    unfolding step push_frame
    step-IsIdle p flushes i r h = absurd i
    step-IsIdle p (frame x) i r h =
        frame_pushed-IsIdle p x (wait_and_push_one p.pre.work_que x) refl r h
    step-IsIdle p (pre_pops k) i r h =
        let few = within_limit p r h in
        rw (thread_pop_waits p.pre k h.runs (rw h.pre.min_same (omega (arith, few, large)))) tt
    step-IsIdle p (pre_pushes k) i r h = rw (thread_push_waits p.pre p.fwd k h.pre.kind) tt
    step-IsIdle p (fwd_pops k) i r h = rw (waits_empty p.fwd k h.fwd r.fwd.runs h.fwd_empty) tt
    step-IsIdle p (fwd_pushes k) i r h = rw (thread_push_waits p.fwd p.post k h.fwd.kind) tt
    step-IsIdle p (post_pops k) i r h = rw (waits_empty p.post k h.post r.post.runs h.post_empty) tt

    run-IsIdle :
        (es : List (Event A)) (p : InferencePipe A)
        → All IsPushOrWork es
        → IsRunning param p
        → IsIdle param p
        → IsRunning param (run d p es) × IsIdle param (run d p es)
    unfolding run
    run-IsIdle [] p i r h = (r, h)
    run-IsIdle (e ∷ es) p i r h =
        let (r', h') = go (step d p e) (step-IsRunning param d p e r) (step-IsIdle p e i.0 r h) in
        run-IsIdle es (or_same p (step d p e)) i.1 r' h'
      where
        go :
            (o : Option (InferencePipe A))
            → OnSome (IsRunning param) o
            → OnSome (IsIdle param) o
            → IsRunning param (or_same p o) × IsIdle param (or_same p o)
        go none a b = (r, h)
        go (some q) a b = (a, b)

    init-IsIdle : IsIdle param (init {A = A} param)
    unfolding init start_work init_pool create
    init-IsIdle = record {
      runs = refl;
      pre = new param.preprocess_thread_num;
      fwd = new param.inference_thread_num;
      post = new param.postprocess_thread_num;
      fwd_empty = refl;
      post_empty = refl;
      none_finished = refl;
      all_wait = refl;
    }
      where
        new :
            {lo hi : ℕ} {q : BlockingQueue A} (n : ℕ)
            → IsStaffed IsAtPop n lo hi (start_work (init_pool q n lo hi))
        new n = record {
          kind = All-replicate IsAtPop n at_pop tt;
          number = length-replicate n at_pop;
          min_same = refl;
          max_same = refl;
        }

  -- If the first queue has a limit and `batch_num` is above it, then in any schedule without a flush,
  -- whatever the delegate does, no frame is ever finished, and no more frames are taken in than the
  -- queue has places.
  pub starved :
      (param : DetectorParam) (d : Delegate A) (es : List (Event A))
      → 0 < param.preprocess_queue_size
      → param.preprocess_queue_size < param.batch_num
      → All IsPushOrWork es
      → ((run d (init param) es).finished ≡ [])
        × (length (run d (init param) es).pushed ≤ param.preprocess_queue_size)
  starved param d es limited large i =
      let (r, h) =
        run-IsIdle param limited large d es (init param) i (init-IsRunning param)
          (init-IsIdle param limited large d) in
      (
        h.none_finished,
        subst (λ l. length l ≤ param.preprocess_queue_size) (sym h.all_wait)
            (within_limit param limited large d (run d (init param) es) r h),
      )
