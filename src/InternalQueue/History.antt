-- ===== src/InternalQueue/History.antt =====
-- otl_thread_queue.h: what a history of calls of `internal::BlockingQueue` delivers.
use otl.Common.{
  Bool, true, false, List, [], ◌∷◌, ◌++◌, map, append-nil, append_assoc, ◌≡◌, refl, sym, ap, ◌∙◌,
  if◌then◌else◌,
}
use mathlib.Core.List.{map-append}
use otl.InternalQueue.{
  InternalQueue, Popped, waits, refused, popped, create, push, pop, shutdown, reset,
}

-- The calls of the threads that use a queue, in the order in which they get the mutex.
pub data Call {ℓ} (A : Type ℓ) : Type ℓ where
  pushes : A → Call A
  pops : Bool → Call A
  shuts_down resets : Call A

-- An element that has left a queue: a pop returned it, or a reset threw it away.
pub data Left {ℓ} (A : Type ℓ) : Type ℓ where
  delivered discarded : A → Left A

module _ {ℓ} {A : Type ℓ} where
  abbrev pub element : Left A → A
  element (delivered x) = x
  element (discarded x) = x

  abbrev pub after_pop : InternalQueue A → Popped A → InternalQueue A × List (Left A)
  after_pop q waits = (q, [])
  after_pop q refused = (q, [])
  after_pop q (popped item q') = (q', delivered item ∷ [])

  -- The queue after a call, with what left it.
  abbrev pub call : InternalQueue A → Call A → InternalQueue A × List (Left A)
  call q (pushes x) = (push q x, [])
  call q (pops time_over) = after_pop q (pop q time_over)
  call q shuts_down = (shutdown q, [])
  call q resets = (reset q, map discarded q.queue)

  pub run : InternalQueue A → List (Call A) → InternalQueue A × List (Left A)
  run q [] = (q, [])
  run q (c ∷ cs) = let (q', out) = call q c in let (q'', more) = run q' cs in (q'', out ++ more)

  -- The elements that are pushed while there is no shutdown, or a reset after it; the truth value
  -- says whether one holds at the start.
  pub offered : Bool → List (Call A) → List A
  offered b [] = []
  offered true (pushes x ∷ cs) = offered true cs
  offered false (pushes x ∷ cs) = x ∷ offered false cs
  offered b (pops time_over ∷ cs) = offered b cs
  offered b (shuts_down ∷ cs) = offered true cs
  offered b (resets ∷ cs) = offered false cs

  Keeps : InternalQueue A → InternalQueue A × List (Left A) → Type ℓ
  Keeps q r = (map element r.1 ++ r.0.queue ≡ q.queue) × (r.0.is_shutdown ≡ q.is_shutdown)

  abbrev queue_of : List A → Bool → InternalQueue A
  queue_of l s = record { queue = l; is_shutdown = s }

  pop_parts :
      (l : List A) (s time_over : Bool)
      → Keeps (queue_of l s) (after_pop (queue_of l s) (pop (queue_of l s) time_over))
  unfolding pop Keeps
  pop_parts [] true time_over = (refl, refl)
  pop_parts [] false true = (refl, refl)
  pop_parts [] false false = (refl, refl)
  pop_parts (x ∷ xs) s time_over = (refl, refl)

  -- A pop keeps the shutdown, and what it delivers was the front of the queue.
  after_pop_lem :
      (q : InternalQueue A) (time_over : Bool)
      → let r = after_pop q (pop q time_over) in
        (map element r.1 ++ r.0.queue ≡ q.queue) × (r.0.is_shutdown ≡ q.is_shutdown)
  unfolding Keeps
  after_pop_lem q time_over = pop_parts q.queue q.is_shutdown time_over

  push_lem :
      (q : InternalQueue A) (x : A) (b : Bool)
      → q.is_shutdown ≡ b
      → push q x ≡ (if b then q else record { queue = q.queue ++ (x ∷ []); is_shutdown = b })
  unfolding push
  push_lem q x b h =
      ap (λ c. if c then q else record { queue = q.queue ++ (x ∷ []); is_shutdown = q.is_shutdown })
        h
      ∙ ap (λ c. if b then q else record { queue = q.queue ++ (x ∷ []); is_shutdown = c }) h

  map-discarded : (l : List A) → map element (map discarded l) ≡ l
  map-discarded [] = refl
  map-discarded (x ∷ l) = ap (λ k. x ∷ k) (map-discarded l)

  -- What leaves in a call stands in front of what leaves later.
  run_step :
      (out more : List (Left A)) (rest l k : List A)
      → map element more ++ rest ≡ l
      → map element out ++ l ≡ k
      → map element (out ++ more) ++ rest ≡ k
  run_step out more rest l k h g =
      ap (λ m. m ++ rest) (map-append element out more)
      ∙ append_assoc (map element out) (map element more) rest
      ∙ ap (λ m. map element out ++ m) h
      ∙ g

  run_lem :
      (q : InternalQueue A) (cs : List (Call A)) (b : Bool)
      → q.is_shutdown ≡ b
      → map element (run q cs).1 ++ (run q cs).0.queue ≡ q.queue ++ offered b cs
  unfolding run shutdown reset offered
  run_lem q [] b h = sym (append-nil q.queue)
  run_lem q (pushes x ∷ cs) true h =
      let p = push_lem q x true h in
      run_lem (push q x) cs true (ap (λ r. r.is_shutdown) p ∙ h)
      ∙ ap (λ r. r.queue ++ offered true cs) p
  run_lem q (pushes x ∷ cs) false h =
      let p = push_lem q x false h in
      run_lem (push q x) cs false (ap (λ r. r.is_shutdown) p)
      ∙ ap (λ r. r.queue ++ offered false cs) p
      ∙ append_assoc q.queue (x ∷ []) (offered false cs)
  run_lem q (pops time_over ∷ cs) b h =
      let p = after_pop_lem q time_over in
      let r = after_pop q (pop q time_over) in
      run_step r.1 (run r.0 cs).1 (run r.0 cs).0.queue (r.0.queue ++ offered b cs)
        (q.queue ++ offered b cs) (run_lem r.0 cs b (p.1 ∙ h))
        (sym (append_assoc (map element r.1) r.0.queue (offered b cs))
          ∙ ap (λ l. l ++ offered b cs) p.0)
  run_lem q (shuts_down ∷ cs) b h = run_lem (shutdown q) cs true refl
  run_lem q (resets ∷ cs) b h =
      run_step (map discarded q.queue) (run (reset q) cs).1 (run (reset q) cs).0.queue
        (offered false cs) (q.queue ++ offered false cs) (run_lem (reset q) cs false refl)
        (ap (λ l. l ++ offered false cs) (map-discarded q.queue))

  -- Whatever calls a new queue gets, in whatever order: the elements that were delivered by its pops
  -- or discarded by its resets, oldest first, and those that are still in it are together those that
  -- were pushed while it was not shut down, in the order of the pushes. `reset` ends a shutdown.
  pub run-create :
      (cs : List (Call A))
      → map element (run create cs).1 ++ (run create cs).0.queue ≡ offered false cs
  unfolding create
  run-create cs = run_lem create cs false refl
