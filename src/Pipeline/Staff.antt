-- ===== src/Pipeline/Staff.antt =====
-- otl_pipeline.h: the threads of a pool.
use otl.Common.{
  ℕ, zero, suc, ◌<◌, ◌≡◌, inl, inr, refl, sym, ap, subst, ◌∙◌, arith, Bool, true, false, not, ◌&&◌,
  ltb, min, Option, none, some, List, [], ◌∷◌, if◌then◌else◌, length, length-take, set, get_elem?,
  replicate, length-set, All,
}
use otl.ThreadQueue.{BlockingQueue, Popped, items, size_impl, pop_front}
use otl.ThreadQueue.Order.{pop_front_lem}
use otl.ThreadQueue.Bound.{popped-injective}
use otl.Pipeline.{
  Thread, at_pop, ended, pushing, WorkerPool, thread_pop, thread_push, with_batch, after_pop,
  pop_if, popped_of, push_if,
}
use otl.Pipeline.Counts.{Pops, Pushes}

module _ {ℓ} {A : Type ℓ} where
  abbrev pub IsAwake : Thread A → Type 0
  IsAwake at_pop = Unit
  IsAwake (pushing x xs) = Unit
  IsAwake ended = ⊥

  abbrev pub IsAtPop : Thread A → Type 0
  IsAtPop at_pop = Unit
  IsAtPop (pushing x xs) = ⊥
  IsAtPop ended = ⊥

  pub with_batch-IsAwake : (xs : List A) → IsAwake (with_batch xs)
  with_batch-IsAwake [] = tt
  with_batch-IsAwake (x ∷ xs) = tt

  pub All-set :
      (T : Thread A → Type 0) (ts : List (Thread A)) (k : ℕ) (b : Thread A)
      → All T ts
      → T b
      → All T (set ts k b)
  All-set T [] k b h i = tt
  All-set T (t ∷ ts) zero b h i = (i, h.1)
  All-set T (t ∷ ts) (suc k) b h i = (h.0, All-set T ts k b h.1 i)

  pub All-replicate : (T : Thread A → Type 0) (n : ℕ) (b : Thread A) → T b → All T (replicate n b)
  All-replicate T zero b i = tt
  All-replicate T (suc n) b i = (i, All-replicate T n b i)

  pub All_get :
      (T : Thread A → Type 0) (ts : List (Thread A)) (k : ℕ) (a : Thread A)
      → All T ts
      → get_elem? ts k ≡ some a
      → T a
  All_get T [] k a h e = absurd (cc e)
  All_get T (t ∷ ts) zero a h e = subst (OnJust T) e h.0
    where
      OnJust : (Thread A → Type 0) → Option (Thread A) → Type 0
      OnJust T none = Unit
      OnJust T (some t) = T t
  All_get T (t ∷ ts) (suc k) a h e = All_get T ts k a h.1 e

  -- A pool of `n` threads as it was set up, each of a given kind.
  pub record IsStaffed (T : Thread A → Type 0) (n min_num max_num : ℕ) (w : WorkerPool A)
      : Type 0 where
    pub kind : All T w.threads
    pub number : length w.threads ≡ n
    pub min_same : w.min_pop_num ≡ min_num
    pub max_same : w.max_pop_num ≡ max_num

  -- A pop of a queue that is not stopped takes something.
  pub pop_takes :
      (w : WorkerPool A) (k : ℕ) (q : BlockingQueue A)
      → Pops w k q []
      → w.work_que.stop ≡ false
      → 0 < w.min_pop_num
      → 0 < w.max_pop_num
      → ⊥
  pop_takes w k q p s lo hi = elim (pop_front_lem w.work_que w.min_pop_num w.max_pop_num) [
    | inl (_, e) ↦ absurd (cc (sym e ∙ p.pops))
    | inr (f, (q', e, _, _)) ↦
        enough (size_impl w.work_que) w.min_pop_num w.max_pop_num w.work_que.stop f s lo hi (
          sym (length-take w.max_pop_num (items w.work_que))
          ∙ ap length (popped-injective (sym e ∙ p.pops)).1)
  ]
    where
      enough :
          (n lo hi : ℕ) (s : Bool)
          → ltb n lo && not s ≡ false
          → s ≡ false
          → 0 < lo
          → 0 < hi
          → min hi n ≡ 0
          → ⊥
      enough n lo hi s f e l h m = ground arith

  pub after_pop-IsStaffed :
      {T : Thread A → Type 0} {n min_num max_num : ℕ} (g : List A → List A) (w : WorkerPool A)
      (k : ℕ) (q : BlockingQueue A) (out : List A)
      → Pops w k q out
      → w.work_que.stop ≡ false
      → 0 < min_num
      → 0 < max_num
      → ((xs : List A) → T (with_batch (g xs)))
      → IsStaffed T n min_num max_num w
      → IsStaffed T n min_num max_num (after_pop g w k (q, out))
  after_pop-IsStaffed g w k q [] p s lo hi t h =
      absurd (pop_takes w k q p s (rw h.min_same lo) (rw h.max_same hi))
  after_pop-IsStaffed {T} g w k q (x ∷ xs) p s lo hi t h = record {
    kind = All-set T w.threads k _ h.kind (t (x ∷ xs));
    number = length-set w.threads k _ ∙ h.number;
    min_same = h.min_same;
    max_same = h.max_same;
  }

  pub thread_push-IsStaffed :
      {n min_num max_num : ℕ} (w to : WorkerPool A) (k : ℕ) (r : WorkerPool A × WorkerPool A)
      → Pushes w to k r
      → IsStaffed IsAwake n min_num max_num w
      → IsStaffed IsAwake n min_num max_num r.0
  thread_push-IsStaffed w to k r p h = rw p.result (record {
    kind = All-set IsAwake w.threads k _ h.kind (go p.q.stop);
    number = length-set w.threads k _ ∙ h.number;
    min_same = h.min_same;
    max_same = h.max_same;
  })
    where
      go : (b : Bool) → IsAwake (if b then at_pop else with_batch p.xs)
      go true = tt
      go false = with_batch-IsAwake p.xs

  pub pushed-IsStaffed :
      {T : Thread A → Type 0} {n min_num max_num : ℕ} (w to : WorkerPool A) (k : ℕ)
      (r : WorkerPool A × WorkerPool A)
      → Pushes w to k r
      → IsStaffed T n min_num max_num to
      → IsStaffed T n min_num max_num r.1
  pushed-IsStaffed w to k r p h =
      rw p.result
        (record { kind = h.kind; number = h.number; min_same = h.min_same; max_same = h.max_same })

  -- The pop waits while there is too little in the queue.
  pub thread_pop_waits :
      (w : WorkerPool A) (k : ℕ)
      → w.work_que.stop ≡ false
      → size_impl w.work_que < w.min_pop_num
      → thread_pop w k ≡ none
  unfolding thread_pop
  thread_pop_waits w k s n = go (get_elem? w.threads k)
    where
      few : (n lo : ℕ) (s : Bool) → s ≡ false → n < lo → ltb n lo && not s ≡ true
      few n lo s e h = ground arith

      waiting : pop_front w.work_que w.min_pop_num w.max_pop_num ≡ Popped.waits
      waiting = elim (pop_front_lem w.work_que w.min_pop_num w.max_pop_num) [
        | inl (_, e) ↦ e
        | inr (f, _) ↦
            absurd (cc (sym f ∙ few (size_impl w.work_que) w.min_pop_num w.work_que.stop s n))
      ]

      go : (o : Option (Thread A)) → pop_if o w ≡ none
      go none = refl
      go (some ended) = refl
      go (some (pushing x xs)) = refl
      go (some at_pop) = ap popped_of waiting

  -- A thread at its pop has nothing to push.
  pub thread_push_waits :
      (w to : WorkerPool A) (k : ℕ) → All IsAtPop w.threads → thread_push w to k ≡ none
  unfolding thread_push
  thread_push_waits w to k h = go (get_elem? w.threads k) refl
    where
      go : (o : Option (Thread A)) → get_elem? w.threads k ≡ o → push_if o w to k ≡ none
      go none e = refl
      go (some ended) e = refl
      go (some at_pop) e = refl
      go (some (pushing x xs)) e = absurd (All_get IsAtPop w.threads k (pushing x xs) h e)
