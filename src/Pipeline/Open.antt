-- ===== src/Pipeline/Open.antt =====
-- otl_pipeline.h: the queues of a pipe keep their settings.
use otl.Common.{
  ℕ, ◌≡◌, inl, inr, refl, sym, ◌∙◌, false, Option, none, some, List, [], ◌∷◌, ◌++◌, arith,
}
use otl.ThreadQueue
use otl.ThreadQueue.{BlockingQueue, Pushed, stored, create, stop, items, wait_and_push_one}
use otl.ThreadQueue.Order.{SameSettings}
use otl.ThreadQueue.Bound.{IsWithin, Grown, push-Grown, Shrunk-IsWithin}
use otl.Pipeline
use otl.Pipeline.{
  WorkerPool, Delegate, DetectorParam, InferencePipe, Event, frame, pre_pops, pre_pushes, fwd_pops,
  fwd_pushes, post_pops, flushes, start_work, init_pool, init, push_frame, flush_frame,
  frame_pushed, thread_pop, thread_push, with_batch, after_pop, finish, step, or_same, run,
}
use otl.Pipeline.Counts.{Pops, thread_pop_lem, thread_push_lem, OnSome, map_some-OnSome}

module _ {ℓ} {A : Type ℓ} where
  -- A queue of the pipe keeps its limit and drops nothing.
  pub record IsOpen (limit : ℕ) (q : BlockingQueue A) : Type 0 where
    pub limit_same : q.limit ≡ limit
    pub drops_same : q.drops ≡ false
    pub within : IsWithin q

  -- Such a queue that is not stopped.
  pub record IsLive (limit : ℕ) (q : BlockingQueue A) : Type 0 where
    pub opened : IsOpen limit q
    pub runs : q.stop ≡ false

  -- Only the first queue is ever stopped.
  pub record IsRunning (param : DetectorParam) (p : InferencePipe A) : Type 0 where
    pub pre : IsOpen param.preprocess_queue_size p.pre.work_que
    pub fwd : IsLive param.inference_queue_size p.fwd.work_que
    pub post : IsLive param.postprocess_queue_size p.post.work_que

  SameSettings-IsOpen :
      {limit : ℕ} {q r : BlockingQueue A}
      → SameSettings q r
      → IsWithin r
      → IsOpen limit q
      → IsOpen limit r
  SameSettings-IsOpen s w o = record {
    limit_same = s.limit_same ∙ o.limit_same;
    drops_same = s.drops_same ∙ o.drops_same;
    within = w;
  }

  Grown-IsOpen :
      {limit : ℕ} {q r : BlockingQueue A} {x : A} → Grown q x r → IsOpen limit q → IsOpen limit r
  Grown-IsOpen g o = SameSettings-IsOpen g.settings (g.within o.within) o

  Grown-IsLive :
      {limit : ℕ} {q r : BlockingQueue A} {x : A} → Grown q x r → IsLive limit q → IsLive limit r
  Grown-IsLive g o = record {
    opened = Grown-IsOpen g o.opened;
    runs = g.settings.stop_same ∙ o.runs;
  }

  Pops-IsOpen :
      {limit : ℕ} {w : WorkerPool A} {k : ℕ} {q : BlockingQueue A} {out : List A}
      → Pops w k q out
      → IsOpen limit w.work_que
      → IsOpen limit q
  Pops-IsOpen p o = SameSettings-IsOpen p.shrunk.settings (Shrunk-IsWithin p.shrunk o.within) o

  Pops-IsLive :
      {limit : ℕ} {w : WorkerPool A} {k : ℕ} {q : BlockingQueue A} {out : List A}
      → Pops w k q out
      → IsLive limit w.work_que
      → IsLive limit q
  Pops-IsLive p o = record {
    opened = Pops-IsOpen p o.opened;
    runs = p.shrunk.settings.stop_same ∙ o.runs;
  }

  pub ordered_of :
      {q r : BlockingQueue A} {x : A}
      → Grown q x r
      → q.drops ≡ false
      → items r ≡ items q ++ (x ∷ [])
  ordered_of g e = elim g.ordered [ inl d ↦ absurd (cc (sym d ∙ e)) | inr o ↦ o ]

  pub after_pop_que :
      (g : List A → List A) (w : WorkerPool A) (k : ℕ) (q : BlockingQueue A) (out : List A)
      → (after_pop g w k (q, out)).work_que ≡ q
  after_pop_que g w k q [] = refl
  after_pop_que g w k q (x ∷ xs) = refl

  frame_pushed-IsRunning :
      (param : DetectorParam) (p : InferencePipe A) (x : A) (s : Pushed A)
      → wait_and_push_one p.pre.work_que x ≡ s
      → IsRunning param p
      → OnSome (IsRunning param) (frame_pushed p x s)
  frame_pushed-IsRunning param p x ThreadQueue.Pushed.waits e h = tt
  frame_pushed-IsRunning param p x (stored q lost) e h = record {
    pre = Grown-IsOpen (push-Grown p.pre.work_que x q lost e) h.pre;
    fwd = h.fwd;
    post = h.post;
  }

  finish-IsRunning :
      (param : DetectorParam) (d : Delegate A) (p : InferencePipe A) (k : ℕ) (q : BlockingQueue A)
      (out : List A)
      → Pops p.post k q out
      → IsRunning param p
      → IsRunning param (finish d p k (q, out))
  finish-IsRunning param d p k q [] o h = record {
    pre = h.pre;
    fwd = h.fwd;
    post = Pops-IsLive o h.post;
  }
  finish-IsRunning param d p k q (x ∷ xs) o h = record {
    pre = h.pre;
    fwd = h.fwd;
    post = Pops-IsLive o h.post;
  }

  pub step-IsRunning :
      (param : DetectorParam) (d : Delegate A) (p : InferencePipe A) (e : Event A)
      → IsRunning param p
      → OnSome (IsRunning param) (step d p e)
  unfolding step push_frame flush_frame Pipeline.flush stop
  step-IsRunning param d p (frame x) h =
      frame_pushed-IsRunning param p x (wait_and_push_one p.pre.work_que x) refl h
  step-IsRunning param d p (pre_pops k) h =
      map_some-OnSome (IsRunning param) _ (thread_pop p.pre k) λ r e. record {
        pre =
            rw (after_pop_que d.preprocess p.pre k r.0 r.1)
              (Pops-IsOpen (thread_pop_lem p.pre k r.0 r.1 e) h.pre);
        fwd = h.fwd;
        post = h.post;
      }
  step-IsRunning param d p (pre_pushes k) h =
      map_some-OnSome (IsRunning param) _ (thread_push p.pre p.fwd k) λ r e.
        let o = thread_push_lem p.pre p.fwd k r e in
        record {
          pre = rw o.result h.pre;
          fwd = rw o.result (Grown-IsLive o.grown h.fwd);
          post = h.post;
        }
  step-IsRunning param d p (fwd_pops k) h =
      map_some-OnSome (IsRunning param) _ (thread_pop p.fwd k) λ r e. record {
        pre = h.pre;
        fwd =
            rw (after_pop_que d.forward p.fwd k r.0 r.1)
              (Pops-IsLive (thread_pop_lem p.fwd k r.0 r.1 e) h.fwd);
        post = h.post;
      }
  step-IsRunning param d p (fwd_pushes k) h =
      map_some-OnSome (IsRunning param) _ (thread_push p.fwd p.post k) λ r e.
        let o = thread_push_lem p.fwd p.post k r e in
        record {
          pre = h.pre;
          fwd = rw o.result h.fwd;
          post = rw o.result (Grown-IsLive o.grown h.post);
        }
  step-IsRunning param d p (post_pops k) h =
      map_some-OnSome (IsRunning param) (finish d p k) (thread_pop p.post k)
        λ r e. finish-IsRunning param d p k r.0 r.1 (thread_pop_lem p.post k r.0 r.1 e) h
  step-IsRunning param d p flushes h = record {
    pre = record {
      limit_same = h.pre.limit_same;
      drops_same = h.pre.drops_same;
      within = inl refl;
    };
    fwd = h.fwd;
    post = h.post;
  }

  pub init-IsRunning : (param : DetectorParam) → IsRunning param (init param)
  unfolding init start_work init_pool create
  init-IsRunning param = record {
    pre = new param.preprocess_queue_size;
    fwd = record { opened = new param.inference_queue_size; runs = refl };
    post = record { opened = new param.postprocess_queue_size; runs = refl };
  }
    where
      new : (limit : ℕ) → IsOpen limit (create 0 limit)
      new limit = record { limit_same = refl; drops_same = refl; within = inr (inr (omega arith)) }

  -- What each step keeps holds after any schedule.
  pub run_ind {κ} :
      (P : InferencePipe A → Type κ) (d : Delegate A)
      → ((p : InferencePipe A) (e : Event A) → P p → OnSome P (step d p e))
      → (es : List (Event A)) (p : InferencePipe A) → P p
      → P (run d p es)
  unfolding run
  run_ind P d keeps [] p h = h
  run_ind P d keeps (e ∷ es) p h =
      run_ind P d keeps es (or_same p (step d p e)) (go (step d p e) (keeps p e h))
    where
      go : (o : Option (InferencePipe A)) → OnSome P o → P (or_same p o)
      go none k = h
      go (some q) k = k
