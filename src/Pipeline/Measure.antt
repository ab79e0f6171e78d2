-- ===== src/Pipeline/Measure.antt =====
-- otl_pipeline.h: the work that is left in the pipe.
use otl.Common.{
  ℕ, zero, suc, ◌+◌, ◌*◌, ◌≤◌, ◌<◌, ◌≡◌, refl, ap, arith, Bool, true, false, some, List, [], ◌∷◌,
  get_elem?, set,
}
use otl.ThreadQueue.{BlockingQueue, items}
use otl.Pipeline.{
  Thread, at_pop, ended, pushing, WorkerPool, Delegate, DetectorParam, InferencePipe, Event, frame,
  pre_pops, pre_pushes, fwd_pops, fwd_pushes, post_pops, flushes, thread_pop, thread_push,
  with_batch, after_pop, finish, step,
}
use otl.Pipeline.Counts.{
  held, batch_of-with_batch, Pops, thread_pop_lem, Pushes, thread_push_lem, tally, tally-append,
  tally-held-set, OnSome, map_some-OnSome,
}
use otl.Pipeline.Open.{IsRunning, ordered_of}
use otl.Pipeline.Flow.{IsKeeping}
use otl.Pipeline.Progress.{IsInner}

module _ {ℓ} {A : Type ℓ} where
  abbrev pub every : A → Bool
  every x = true

  abbrev awake_of : Thread A → ℕ
  awake_of at_pop = 1
  awake_of (pushing x xs) = 1
  awake_of ended = 0

  -- The threads that have not left their loop.
  abbrev pub awake : List (Thread A) → ℕ
  awake [] = 0
  awake (t ∷ ts) = awake_of t + awake ts

  awake-set :
      (ts : List (Thread A)) (k : ℕ) (a b : Thread A)
      → get_elem? ts k ≡ some a
      → awake (set ts k b) + awake_of a ≡ awake ts + awake_of b
  awake-set [] k a b e = absurd (cc e)
  awake-set (c ∷ ts) zero a b e = omega (arith, ap awake_of (injective e))
    where
      injective : {c a : Thread A} → some c ≡ some a → c ≡ a
      injective e = cc
  awake-set (c ∷ ts) (suc k) a b e = omega (arith, awake-set ts k a b e)

  awake_of-with_batch : (xs : List A) → awake_of (with_batch xs) ≡ 1
  awake_of-with_batch [] = refl
  awake_of-with_batch (x ∷ xs) = refl

  -- The numbers of a pool: what waits in its queue, what its threads hold, and its threads.
  abbrev pub waiting : WorkerPool A → ℕ
  waiting w = tally every (items w.work_que)

  abbrev pub in_hand : WorkerPool A → ℕ
  in_hand w = tally every (held w.threads)

  -- Each element costs a step for each pop and each push that it still takes part in.
  abbrev pub measure : InferencePipe A → ℕ
  measure p =
      (5 * waiting p.pre + 4 * in_hand p.pre + awake p.pre.threads)
      + ((3 * waiting p.fwd + 2 * in_hand p.fwd + awake p.fwd.threads)
          + (waiting p.post + awake p.post.threads))

  record Lowers (g : List A → List A) (w : WorkerPool A) (out : List A) (w' : WorkerPool A)
      : Type 0 where
    left : waiting w ≡ waiting w' + tally every out
    taken : in_hand w' ≡ in_hand w + tally every (g out)
    works : awake w'.threads ≤ awake w.threads
    counts : suc (awake w'.threads) ≤ awake w.threads + tally every out

  after_pop-Lowers :
      (g : List A → List A) (w : WorkerPool A) (k : ℕ) (q : BlockingQueue A) (out : List A)
      → tally every (g []) ≡ 0
      → Pops w k q out
      → Lowers g w out (after_pop g w k (q, out))
  after_pop-Lowers g w k q [] z p = record {
    left = omega (arith, ap (tally every) p.shrunk.split);
    taken = omega (arith, z, tally-held-set every w.threads k at_pop ended p.at);
    works = omega (arith, awake-set w.threads k at_pop ended p.at);
    counts = omega (arith, awake-set w.threads k at_pop ended p.at);
  }
  after_pop-Lowers g w k q (x ∷ xs) z p =
      let b = with_batch (g (x ∷ xs)) in
      let threads = awake-set w.threads k at_pop b p.at in
      record {
        left =
            omega (arith, ap (tally every) p.shrunk.split, tally-append every (x ∷ xs) (items q));
        taken = omega (
          arith,
          tally-held-set every w.threads k at_pop b p.at,
          ap (tally every) (batch_of-with_batch (g (x ∷ xs))),
        );
        works = omega (arith, threads, awake_of-with_batch (g (x ∷ xs)));
        counts = omega (arith, threads, awake_of-with_batch (g (x ∷ xs)));
      }

  record Hands (w to w' to' : WorkerPool A) : Type 0 where
    more : waiting to' ≡ waiting to + 1
    less : in_hand w ≡ in_hand w' + 1
    works : awake w'.threads ≡ awake w.threads
    queue_same : waiting w' ≡ waiting w
    hands_same : in_hand to' ≡ in_hand to
    threads_same : awake to'.threads ≡ awake to.threads

  thread_push-Hands :
      (w to : WorkerPool A) (k : ℕ) (r : WorkerPool A × WorkerPool A)
      → Pushes w to k r
      → to.work_que.drops ≡ false
      → to.work_que.stop ≡ false
      → Hands w to r.0 r.1
  thread_push-Hands w to k r p d s =
      rw (p.result, p.grown.settings.stop_same, s)
        (record {
          more = omega (
            arith,
            ap (tally every) (ordered_of p.grown d),
            tally-append every (items to.work_que) (p.x ∷ []),
          );
          less = omega (
            arith,
            tally-held-set every w.threads k (pushing p.x p.xs) (with_batch p.xs) p.at,
            ap (tally every) (batch_of-with_batch p.xs),
          );
          works = omega (
            arith,
            awake-set w.threads k (pushing p.x p.xs) (with_batch p.xs) p.at,
            awake_of-with_batch p.xs,
          );
          queue_same = refl;
          hands_same = refl;
          threads_same = refl;
        })

  module _ (d : Delegate A) (keeps : IsKeeping every d) (param : DetectorParam) where
    finish_lowers :
        (p : InferencePipe A) (k : ℕ) (q : BlockingQueue A) (out : List A)
        → Pops p.post k q out
        → measure (finish d p k (q, out)) < measure p
    finish_lowers p k q [] o =
        let l = after_pop-Lowers (λ b. []) p.post k q [] refl o in omega (arith, l.left, l.counts)
    finish_lowers p k q (x ∷ xs) o =
        let l = after_pop-Lowers (λ b. []) p.post k q (x ∷ xs) refl o in
        omega (arith, l.left, l.counts)

    pub inner_lowers :
        (p : InferencePipe A) (e : Event A)
        → IsInner e
        → IsRunning param p
        → OnSome (λ q. measure q < measure p) (step d p e)
    unfolding step
    inner_lowers p (frame x) i r = absurd i
    inner_lowers p flushes i r = absurd i
    inner_lowers p (pre_pops k) i r =
        map_some-OnSome (λ q. measure q < measure p) _ (thread_pop p.pre k)
          λ u e.
            let l =
              after_pop-Lowers d.preprocess p.pre k u.0 u.1 (keeps.preprocess [])
                (thread_pop_lem p.pre k u.0 u.1 e) in
            omega (arith, l.left, l.taken, l.works, l.counts, keeps.preprocess u.1)
    inner_lowers p (pre_pushes k) i r =
        map_some-OnSome (λ q. measure q < measure p) _ (thread_push p.pre p.fwd k)
          λ u e.
            let h =
              thread_push-Hands p.pre p.fwd k u (thread_push_lem p.pre p.fwd k u e)
                r.fwd.opened.drops_same r.fwd.runs in
            omega (arith, h.more, h.less, h.works, h.queue_same, h.hands_same, h.threads_same)
    inner_lowers p (fwd_pops k) i r =
        map_some-OnSome (λ q. measure q < measure p) _ (thread_pop p.fwd k)
          λ u e.
            let l =
              after_pop-Lowers d.forward p.fwd k u.0 u.1 (keeps.forward [])
                (thread_pop_lem p.fwd k u.0 u.1 e) in
            omega (arith, l.left, l.taken, l.works, l.counts, keeps.forward u.1)
    inner_lowers p (fwd_pushes k) i r =
        map_some-OnSome (λ q. measure q < measure p) _ (thread_push p.fwd p.post k)
          λ u e.
            let h =
              thread_push-Hands p.fwd p.post k u (thread_push_lem p.fwd p.post k u e)
                r.post.opened.drops_same r.post.runs in
            omega (arith, h.more, h.less, h.works, h.queue_same, h.hands_same, h.threads_same)
    inner_lowers p (post_pops k) i r =
        map_some-OnSome (λ q. measure q < measure p) (finish d p k) (thread_pop p.post k)
          λ u e. finish_lowers p k u.0 u.1 (thread_pop_lem p.post k u.0 u.1 e)
