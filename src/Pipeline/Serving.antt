-- ===== src/Pipeline/Serving.antt =====
-- otl_pipeline.h: the threads of the three pools in any schedule.
use otl.Common.{
  ℕ, ◌<◌, ◌≡◌, ◌⊎◌, inl, inr, refl, ap, ◌∙◌, arith, true, false, List, [], ◌∷◌, length-replicate,
}
use otl.ThreadQueue
use otl.ThreadQueue.{BlockingQueue, Pushed, stored, create, stop, wait_and_push_one}
use otl.ThreadQueue.Bound.{push-Grown}
use otl.Pipeline
use otl.Pipeline.{
  at_pop, WorkerPool, Delegate, DetectorParam, InferencePipe, Event, frame, pre_pops, pre_pushes,
  fwd_pops, fwd_pushes, post_pops, flushes, start_work, init_pool, init, push_frame, flush_frame,
  frame_pushed, thread_pop, thread_push, after_pop, finish, step, run,
}
use otl.Pipeline.Counts.{Pops, thread_pop_lem, thread_push_lem, OnSome, map_some-OnSome}
use otl.Pipeline.Open.{IsRunning, after_pop_que}
use otl.Pipeline.Staff.{
  IsAwake, IsAtPop, IsStaffed, with_batch-IsAwake, All-replicate, after_pop-IsStaffed,
  thread_push-IsStaffed, pushed-IsStaffed,
}

module _ {ℓ} {A : Type ℓ} where
  -- No thread of the second and third pool has left its loop, and the third's hold nothing.
  pub record IsServing (param : DetectorParam) (p : InferencePipe A) : Type 0 where
    pub fwd : IsStaffed IsAwake param.inference_thread_num 1 8 p.fwd
    pub post : IsStaffed IsAtPop param.postprocess_thread_num 1 8 p.post

  -- The same of the first pool until it is flushed.
  abbrev pub IsFed : DetectorParam → WorkerPool A → Type 0
  IsFed param w =
      (w.work_que.stop ≡ true)
      ⊎ ((w.work_que.stop ≡ false)
          × IsStaffed IsAwake param.preprocess_thread_num param.batch_num param.batch_num w)

  frame_pushed-IsServing :
      (param : DetectorParam) (p : InferencePipe A) (x : A) (s : Pushed A)
      → IsServing param p
      → OnSome (IsServing param) (frame_pushed p x s)
  frame_pushed-IsServing param p x ThreadQueue.Pushed.waits h = tt
  frame_pushed-IsServing param p x (stored q lost) h = record { fwd = h.fwd; post = h.post }

  finish-IsServing :
      (param : DetectorParam) (d : Delegate A) (p : InferencePipe A) (k : ℕ) (q : BlockingQueue A)
      (out : List A)
      → Pops p.post k q out
      → IsRunning param p
      → IsServing param p
      → IsServing param (finish d p k (q, out))
  finish-IsServing param d p k q [] o r h = record {
    fwd = h.fwd;
    post =
        after_pop-IsStaffed (λ b. []) p.post k q [] o r.post.runs (omega arith) (omega arith)
          (λ b. tt) h.post;
  }
  finish-IsServing param d p k q (x ∷ xs) o r h = record {
    fwd = h.fwd;
    post =
        after_pop-IsStaffed (λ b. []) p.post k q (x ∷ xs) o r.post.runs (omega arith) (omega arith)
          (λ b. tt) h.post;
  }

  pub step-IsServing :
      (param : DetectorParam) (d : Delegate A) (p : InferencePipe A) (e : Event A)
      → IsRunning param p
      → IsServing param p
      → OnSome (IsServing param) (step d p e)
  unfolding step push_frame flush_frame
  step-IsServing param d p (frame x) r h =
      frame_pushed-IsServing param p x (wait_and_push_one p.pre.work_que x) h
  step-IsServing param d p (pre_pops k) r h =
      map_some-OnSome (IsServing param) _ (thread_pop p.pre k)
        λ u e. record { fwd = h.fwd; post = h.post }
  step-IsServing param d p (pre_pushes k) r h =
      map_some-OnSome (IsServing param) _ (thread_push p.pre p.fwd k) λ u e. record {
        fwd = pushed-IsStaffed p.pre p.fwd k u (thread_push_lem p.pre p.fwd k u e) h.fwd;
        post = h.post;
      }
  step-IsServing param d p (fwd_pops k) r h =
      map_some-OnSome (IsServing param) _ (thread_pop p.fwd k) λ u e. record {
        fwd =
            after_pop-IsStaffed d.forward p.fwd k u.0 u.1 (thread_pop_lem p.fwd k u.0 u.1 e)
              r.fwd.runs (omega arith) (omega arith) (λ xs. with_batch-IsAwake (d.forward xs))
              h.fwd;
        post = h.post;
      }
  step-IsServing param d p (fwd_pushes k) r h =
      map_some-OnSome (IsServing param) _ (thread_push p.fwd p.post k) λ u e.
        let o = thread_push_lem p.fwd p.post k u e in
        record {
          fwd = thread_push-IsStaffed p.fwd p.post k u o h.fwd;
          post = pushed-IsStaffed p.fwd p.post k u o h.post;
        }
  step-IsServing param d p (post_pops k) r h =
      map_some-OnSome (IsServing param) (finish d p k) (thread_pop p.post k)
        λ u e. finish-IsServing param d p k u.0 u.1 (thread_pop_lem p.post k u.0 u.1 e) r h
  step-IsServing param d p flushes r h = record { fwd = h.fwd; post = h.post }

  pub init-IsServing : (param : DetectorParam) → IsServing param (init param)
  unfolding init start_work init_pool
  init-IsServing param = record {
    fwd = record {
      kind = All-replicate IsAwake param.inference_thread_num at_pop tt;
      number = length-replicate param.inference_thread_num at_pop;
      min_same = refl;
      max_same = refl;
    };
    post = record {
      kind = All-replicate IsAtPop param.postprocess_thread_num at_pop tt;
      number = length-replicate param.postprocess_thread_num at_pop;
      min_same = refl;
      max_same = refl;
    };
  }

  module _ (param : DetectorParam) (some_batch : 0 < param.batch_num) where
    frame_pushed-IsFed :
        (p : InferencePipe A) (x : A) (s : Pushed A)
        → wait_and_push_one p.pre.work_que x ≡ s
        → IsFed param p.pre
        → OnSome (λ p. IsFed param p.pre) (frame_pushed p x s)
    frame_pushed-IsFed p x ThreadQueue.Pushed.waits e h = tt
    frame_pushed-IsFed p x (stored q lost) e h =
        let same = (push-Grown p.pre.work_que x q lost e).settings.stop_same in
        elim h [
          | inl s ↦ inl (same ∙ s)
          | inr (s, f) ↦ inr (
            same ∙ s,
            record {
              kind = f.kind;
              number = f.number;
              min_same = f.min_same;
              max_same = f.max_same;
            },
          )
        ]

    finish_pre :
        (d : Delegate A) (p : InferencePipe A) (k : ℕ) (q : BlockingQueue A) (out : List A)
        → (finish d p k (q, out)).pre ≡ p.pre
    finish_pre d p k q [] = refl
    finish_pre d p k q (x ∷ xs) = refl

    pub step-IsFed :
        (d : Delegate A) (p : InferencePipe A) (e : Event A)
        → IsFed param p.pre
        → OnSome (λ p. IsFed param p.pre) (step d p e)
    unfolding step push_frame flush_frame Pipeline.flush stop
    step-IsFed d p (frame x) h = frame_pushed-IsFed p x (wait_and_push_one p.pre.work_que x) refl h
    step-IsFed d p (pre_pops k) h =
        map_some-OnSome (λ p. IsFed param p.pre) _ (thread_pop p.pre k)
          λ u e.
            let o = thread_pop_lem p.pre k u.0 u.1 e in
            let same =
              ap (λ q. q.stop) (after_pop_que d.preprocess p.pre k u.0 u.1)
              ∙ o.shrunk.settings.stop_same in
            elim h [
              | inl s ↦ inl (same ∙ s)
              | inr (s, f) ↦ inr (
                same ∙ s,
                after_pop-IsStaffed d.preprocess p.pre k u.0 u.1 o s some_batch some_batch
                    (λ xs. with_batch-IsAwake (d.preprocess xs)) f,
              )
            ]
    step-IsFed d p (pre_pushes k) h =
        map_some-OnSome (λ p. IsFed param p.pre) _ (thread_push p.pre p.fwd k)
          λ u e.
            let o = thread_push_lem p.pre p.fwd k u e in
            let same = ap (λ r. r.0.work_que.stop) o.result in
            elim h [
              | inl s ↦ inl (same ∙ s)
              | inr (s, f) ↦ inr (same ∙ s, thread_push-IsStaffed p.pre p.fwd k u o f)
            ]
    step-IsFed d p (fwd_pops k) h =
        map_some-OnSome (λ p. IsFed param p.pre) _ (thread_pop p.fwd k) λ u e. h
    step-IsFed d p (fwd_pushes k) h =
        map_some-OnSome (λ p. IsFed param p.pre) _ (thread_push p.fwd p.post k) λ u e. h
    step-IsFed d p (post_pops k) h =
        map_some-OnSome (λ p. IsFed param p.pre) (finish d p k) (thread_pop p.post k)
          λ u e. rw (finish_pre d p k u.0 u.1) h
    step-IsFed d p flushes h = inl refl

    pub init-IsFed : IsFed param (init {A = A} param).pre
    unfolding init start_work init_pool create
    init-IsFed = inr (
      refl,
      record {
        kind = All-replicate IsAwake param.preprocess_thread_num at_pop tt;
        number = length-replicate param.preprocess_thread_num at_pop;
        min_same = refl;
        max_same = refl;
      },
    )
