-- ===== src/ThreadQueue/Worker.antt =====
-- otl_thread_queue.h: the loop of a `WorkerPool` thread, alone with its queue. `m_thread_running` is
-- true throughout.
use mathlib.Core.List.{flatten}
use otl.Common.{
  ℕ, zero, suc, ◌+◌, ◌≤◌, ◌<◌, ◌≡◌, refl, sym, ap, subst, ◌∙◌, inl, inr, Option, none, some, List,
  [], ◌∷◌, ◌++◌, append-nil, append_assoc, arith, true, take, drop, length, length-take,
  length-drop, take-append-drop, All,
}
use otl.ThreadQueue.{BlockingQueue, Popped, waits, timeout, popped, items, size_impl, pop_front}
use otl.ThreadQueue.Order.{pop_front_lem}
use otl.ThreadQueue.Stopped.{stop_short}

-- A thread that sleeps in `pop_front`, or has left its loop, with the batches that it worked on.
pub data Worker {ℓ} (A : Type ℓ) : Type ℓ where
  asleep finished : BlockingQueue A → List (List A) → Worker A

module _ {ℓ} {A : Type ℓ} where
  -- What the loop does with the result of its pop; `more` is the rest of the loop.
  abbrev pub work :
      (BlockingQueue A → List (List A) → Option (Worker A))
      → BlockingQueue A
      → List (List A)
      → Popped A
      → Option (Worker A)
  work more q batches waits = some (asleep q batches)
  work more q batches timeout = some (finished q batches)
  work more q batches (popped q' []) = some (finished q' batches)
  work more q batches (popped q' (x ∷ xs)) = more q' (batches ++ ((x ∷ xs) ∷ []))

  -- `none` means that the fuel ran out.
  pub worker_loop : ℕ → ℕ → ℕ → BlockingQueue A → List (List A) → Option (Worker A)
  worker_loop zero min_num max_num q batches = none
  worker_loop (suc fuel) min_num max_num q batches =
      work (worker_loop fuel min_num max_num) q batches (pop_front q min_num max_num)

  -- A batch is not empty and no larger than asked for.
  abbrev pub IsBatch : ℕ → List A → Type 0
  IsBatch max_num batch = (0 < length batch) × (length batch ≤ max_num)

  -- How the loop ends on a stopped queue of `xs`, started after the batches `before`.
  pub record Drains (max_num : ℕ) (xs : List A) (before : List (List A)) (r : Option (Worker A))
      : Type ℓ where
    pub q : BlockingQueue A
    pub batches : List (List A)
    pub ended : r ≡ some (finished q (before ++ batches))
    pub none_left : items q ≡ []
    pub in_order : flatten batches ≡ xs
    pub sizes : All (IsBatch max_num) batches

  -- The pop of a stopped queue.
  record Taken (q : BlockingQueue A) (min_num max_num : ℕ) : Type ℓ where
    left : BlockingQueue A
    taken : pop_front q min_num max_num ≡ popped left (take max_num (items q))
    rest : items left ≡ drop max_num (items q)
    stopped : left.stop ≡ true

  pop_front-Taken :
      (q : BlockingQueue A) (min_num max_num : ℕ) → q.stop ≡ true → Taken q min_num max_num
  pop_front-Taken q min_num max_num e = elim (pop_front_lem q min_num max_num) [
    | inl (f, _) ↦ absurd (cc (sym f ∙ stop_short (size_impl q) min_num q.stop e))
    | inr (_, (q', w, s, k)) ↦ record { left = q'; taken = w; rest = k; stopped = s.stop_same ∙ e }
  ]

  -- One round of the loop on a queue that is not empty.
  round_on :
      (n : ℕ) (x : A) (xs : List A) (before : List (List A)) (q : BlockingQueue A)
      (more : BlockingQueue A → List (List A) → Option (Worker A))
      → Drains
          (suc n)
          (drop n xs)
          (before ++ ((x ∷ take n xs) ∷ []))
          (more q (before ++ ((x ∷ take n xs) ∷ [])))
      → Drains (suc n) (x ∷ xs) before (more q (before ++ ((x ∷ take n xs) ∷ [])))
  unfolding flatten
  round_on n x xs before q more d = record {
    q = d.q;
    batches = (x ∷ take n xs) ∷ d.batches;
    ended =
        d.ended
        ∙ ap (λ b. some (finished d.q b)) (append_assoc before ((x ∷ take n xs) ∷ []) d.batches);
    none_left = d.none_left;
    in_order = ap (λ l. (x ∷ take n xs) ++ l) d.in_order ∙ take-append-drop (suc n) (x ∷ xs);
    sizes = ((omega arith, omega (arith, length-take n xs)), d.sizes);
  }

  drains :
      (fuel min_num n : ℕ) (q : BlockingQueue A) (xs : List A) (before : List (List A))
      → items q ≡ xs
      → length xs < fuel
      → q.stop ≡ true
      → Drains (suc n) xs before (worker_loop fuel min_num (suc n) q before)
  unfolding worker_loop flatten
  drains zero min_num n q xs before e f s = absurd (omega arith)
  drains (suc fuel) min_num n q [] before e f s =
      let t = pop_front-Taken q min_num (suc n) s in
      record {
        q = t.left;
        batches = [];
        ended =
            ap (work (worker_loop fuel min_num (suc n)) q before)
              (t.taken ∙ ap (λ l. popped t.left (take (suc n) l)) e)
            ∙ ap (λ b. some (finished t.left b)) (sym (append-nil before));
        none_left = t.rest ∙ ap (drop (suc n)) e;
        in_order = refl;
        sizes = tt;
      }
  drains (suc fuel) min_num n q (x ∷ xs) before e f s =
      let t = pop_front-Taken q min_num (suc n) s in
      subst (Drains (suc n) (x ∷ xs) before)
        (sym (
          ap (work (worker_loop fuel min_num (suc n)) q before)
            (t.taken ∙ ap (λ l. popped t.left (take (suc n) l)) e)))
        (round_on n x xs before t.left (worker_loop fuel min_num (suc n)) (
          drains fuel min_num n t.left (drop n xs) (before ++ ((x ∷ take n xs) ∷ []))
            (t.rest ∙ ap (drop (suc n)) e) (omega (arith, length-drop n xs)) t.stopped))

  -- A worker on a stopped queue ends, within one round more than there are elements: it has then
  -- worked through all elements of the queue, in their order, in batches that are not empty and no
  -- larger than the number it asks for, and the queue is empty.
  pub worker_loop_lem :
      (min_num max_num : ℕ) (q : BlockingQueue A)
      → 0 < max_num
      → q.stop ≡ true
      → Drains max_num (items q) [] (worker_loop (size_impl q + 1) min_num max_num q [])
  worker_loop_lem min_num zero q h s = absurd (omega arith)
  worker_loop_lem min_num (suc n) q h s =
      drains (size_impl q + 1) min_num n q (items q) [] refl (omega arith) s
