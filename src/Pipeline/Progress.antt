-- ===== src/Pipeline/Progress.antt =====
-- otl_pipeline.h: the pipe stands still only with less than a batch in it.
use otl.Common.{
  ℕ, suc, ◌≤◌, ◌<◌, ◌≡◌, ◌⊎◌, inl, inr, refl, ap, ◌∙◌, arith, Bool, Bool-cases, true, false, not,
  ◌&&◌, ltb, leb, some, List, [], ◌∷◌, get_elem?, length, All,
}
use otl.ThreadQueue.{BlockingQueue, items, size_impl}
use otl.ThreadQueue.Order.{pop_front_lem, push_not_full}
use otl.Pipeline.{
  Thread, at_pop, ended, pushing, WorkerPool, Delegate, DetectorParam, InferencePipe, Event,
  pre_pops, pre_pushes, fwd_pops, fwd_pushes, post_pops, thread_pop, thread_push, pop_if, popped_of,
  push_if, push_result, map_some, step,
}
use otl.Pipeline.Counts.{held}
use otl.Pipeline.Staff.{IsAwake, IsAtPop, IsStaffed}
use otl.Pipeline.Serving.{IsServing}

module _ {ℓ} {A : Type ℓ} where
  -- The events that need nobody outside the pipe.
  abbrev pub IsInner : Event A → Type 0
  IsInner (Event.frame x) = ⊥
  IsInner Event.flushes = ⊥
  IsInner (pre_pops k) = Unit
  IsInner (pre_pushes k) = Unit
  IsInner (fwd_pops k) = Unit
  IsInner (fwd_pushes k) = Unit
  IsInner (post_pops k) = Unit

  -- No thread holds anything, nothing waits behind the first queue, and less than a batch in it.
  pub record IsStuck (batch_num : ℕ) (p : InferencePipe A) : Type ℓ where
    pub pre_held : held p.pre.threads ≡ []
    pub fwd_held : held p.fwd.threads ≡ []
    pub post_held : held p.post.threads ≡ []
    pub fwd_empty : items p.fwd.work_que ≡ []
    pub post_empty : items p.post.work_que ≡ []
    pub few : size_impl p.pre.work_que < batch_num

  -- Something can happen inside the pipe.
  pub record Goes (d : Delegate A) (p : InferencePipe A) : Type ℓ where
    pub event : Event A
    pub inner : IsInner event
    pub to : InferencePipe A
    pub goes : step d p event ≡ some to

  record Pushing (ts : List (Thread A)) : Type ℓ where
    k : ℕ
    x : A
    xs : List A
    at : get_elem? ts k ≡ some (pushing x xs)

  -- Some thread pushes, or all are at their pop.
  find-Pushing : (ts : List (Thread A)) → All IsAwake ts → Pushing ts ⊎ All IsAtPop ts
  find-Pushing [] h = inr tt
  find-Pushing (ended ∷ ts) h = absurd h.0
  find-Pushing (pushing x xs ∷ ts) h = inl (record { k = 0; x = x; xs = xs; at = refl })
  find-Pushing (at_pop ∷ ts) h = elim (find-Pushing ts h.1) [
    | inl p ↦ inl (record { k = suc p.k; x = p.x; xs = p.xs; at = p.at })
    | inr a ↦ inr (tt, a)
  ]

  held_nothing : (ts : List (Thread A)) → All IsAtPop ts → held ts ≡ []
  held_nothing [] h = refl
  held_nothing (at_pop ∷ ts) h = held_nothing ts h.1
  held_nothing (ended ∷ ts) h = absurd h.0
  held_nothing (pushing x xs ∷ ts) h = absurd h.0

  first_at_pop :
      (ts : List (Thread A)) → All IsAtPop ts → 0 < length ts → get_elem? ts 0 ≡ some at_pop
  first_at_pop [] h n = absurd (omega arith)
  first_at_pop (at_pop ∷ ts) h n = refl
  first_at_pop (ended ∷ ts) h n = absurd h.0
  first_at_pop (pushing x xs ∷ ts) h n = absurd h.0

  -- A thread at its pop goes on when there is enough in the queue.
  thread_pop_goes :
      (w : WorkerPool A) (k : ℕ)
      → get_elem? w.threads k ≡ some at_pop
      → w.min_pop_num ≤ size_impl w.work_que
      → (r : BlockingQueue A × List A) × (thread_pop w k ≡ some r)
  unfolding thread_pop
  thread_pop_goes w k at n = elim (pop_front_lem w.work_que w.min_pop_num w.max_pop_num) [
    | inl (f, _) ↦ absurd (many (size_impl w.work_que) w.min_pop_num w.work_que.stop f n)
    | inr (_, (q, e, _, _)) ↦ (_, ap (λ o. pop_if o w) at ∙ ap popped_of e)
  ]
    where
      many : (n lo : ℕ) (s : Bool) → ltb n lo && not s ≡ true → lo ≤ n → ⊥
      many n lo s f h = ground arith

  -- A thread with a batch goes on when the next queue is empty.
  thread_push_goes :
      (w to : WorkerPool A) (p : Pushing w.threads)
      → items to.work_que ≡ []
      → (r : WorkerPool A × WorkerPool A) × (thread_push w to p.k ≡ some r)
  unfolding thread_push
  thread_push_goes w to p e = (
    _,
    ap (λ o. push_if o w to p.k) p.at
        ∙ ap (push_result w to p.k p.xs) (
            push_not_full to.work_que p.x
              (room (size_impl to.work_que) to.work_que.limit to.work_que.stop (ap length e))),
  )
    where
      room : (n limit : ℕ) (s : Bool) → n ≡ 0 → ltb 0 limit && (leb limit n && not s) ≡ false
      room n limit s e = ground arith

  module _ (d : Delegate A) (param : DetectorParam) (p : InferencePipe A) where
    pool_pops :
        {n min_num max_num : ℕ} (w : WorkerPool A)
        → IsStaffed IsAtPop n min_num max_num w
        → 0 < n
        → min_num ≤ size_impl w.work_que
        → (r : BlockingQueue A × List A) × (thread_pop w 0 ≡ some r)
    pool_pops w s n m =
        thread_pop_goes w 0 (first_at_pop w.threads s.kind (rw s.number n)) (rw s.min_same m)

    at_pops :
        {n min_num max_num : ℕ} {w : WorkerPool A}
        → IsStaffed IsAwake n min_num max_num w
        → All IsAtPop w.threads
        → IsStaffed IsAtPop n min_num max_num w
    at_pops s a = record {
      kind = a;
      number = s.number;
      min_same = s.min_same;
      max_same = s.max_same;
    }

    is_empty : (xs : List A) → (xs ≡ []) ⊎ (1 ≤ length xs)
    is_empty [] = inl refl
    is_empty (x ∷ xs) = inr (omega arith)

    -- A pool in front of an empty queue goes on, or its threads hold nothing.
    pool_pushes :
        {n min_num max_num : ℕ} (w to : WorkerPool A)
        → IsStaffed IsAwake n min_num max_num w
        → items to.work_que ≡ []
        → ((k : ℕ) × (r : WorkerPool A × WorkerPool A) × (thread_push w to k ≡ some r))
          ⊎ All IsAtPop w.threads
    pool_pushes w to s e = elim (find-Pushing w.threads s.kind) [
      | inl q ↦ let (r, g) = thread_push_goes w to q e in inl (q.k, r, g)
      | inr a ↦ inr a
    ]

    pub live_or_idle :
        0 < param.preprocess_thread_num
        → 0 < param.inference_thread_num
        → 0 < param.postprocess_thread_num
        → IsServing param p
        → IsStaffed IsAwake param.preprocess_thread_num param.batch_num param.batch_num p.pre
        → Goes d p ⊎ IsStuck param.batch_num p
    unfolding step
    live_or_idle a b c h f = elim (is_empty (items p.post.work_que)) [
      | inr n ↦
          let (r, e) = pool_pops p.post h.post c n in
          inl (record { event = post_pops 0; inner = tt; to = _; goes = ap (map_some _) e })
      | inl post ↦ elim (pool_pushes p.fwd p.post h.fwd post) [
        | inl (k, r, e) ↦
            inl (record { event = fwd_pushes k; inner = tt; to = _; goes = ap (map_some _) e })
        | inr fwd_at ↦ elim (is_empty (items p.fwd.work_que)) [
          | inr n ↦
              let (r, e) = pool_pops p.fwd (at_pops h.fwd fwd_at) b n in
              inl (record { event = fwd_pops 0; inner = tt; to = _; goes = ap (map_some _) e })
          | inl fwd ↦ elim (pool_pushes p.pre p.fwd f fwd) [
            | inl (k, r, e) ↦
                inl (record { event = pre_pushes k; inner = tt; to = _; goes = ap (map_some _) e })
            | inr pre_at ↦ elim (Bool-cases (ltb (size_impl p.pre.work_que) param.batch_num)) [
              | inr n ↦
                  let (r, e) =
                    pool_pops p.pre (at_pops f pre_at) a
                      (enough (size_impl p.pre.work_que) param.batch_num n) in
                  inl (record { event = pre_pops 0; inner = tt; to = _; goes = ap (map_some _) e })
              | inl n ↦ inr (record {
                pre_held = held_nothing p.pre.threads pre_at;
                fwd_held = held_nothing p.fwd.threads fwd_at;
                post_held = held_nothing p.post.threads h.post.kind;
                fwd_empty = fwd;
                post_empty = post;
                few = less (size_impl p.pre.work_que) param.batch_num n;
              })
            ]
          ]
        ]
      ]
    ]
      where
        enough : (m n : ℕ) → ltb m n ≡ false → n ≤ m
        enough m n e = ground arith

        less : (m n : ℕ) → ltb m n ≡ true → m < n
        less m n e = ground arith
