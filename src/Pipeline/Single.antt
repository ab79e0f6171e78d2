-- ===== src/Pipeline/Single.antt =====
-- otl_pipeline.h: the elements of a pool with one thread.
use otl.Common.{
  ℕ, zero, suc, ◌≡◌, refl, sym, ap, ap₂, ◌∙◌, arith, false, some, List, [], ◌∷◌, ◌++◌, append-nil,
  append_assoc, set, get_elem?, length,
}
use otl.ThreadQueue.{BlockingQueue, items}
use otl.Pipeline.{Thread, at_pop, pushing, WorkerPool, with_batch, after_pop}
use otl.Pipeline.Counts.{batch_of, held, batch_of-with_batch, Pops, Pushes}
use otl.Pipeline.Open.{ordered_of}

module _ {ℓ} {A : Type ℓ} where
  abbrev pub IsSingle : WorkerPool A → Type 0
  IsSingle w = length w.threads ≡ 1

  -- What the only thread holds, before and after.
  record Alone (ts : List (Thread A)) (k : ℕ) (a : Thread A) : Type ℓ where
    before : held ts ≡ batch_of a
    after : (b : Thread A) → held (set ts k b) ≡ batch_of b
    single : (b : Thread A) → length (set ts k b) ≡ 1

  alone :
      (ts : List (Thread A)) (k : ℕ) (a : Thread A)
      → length ts ≡ 1
      → get_elem? ts k ≡ some a
      → Alone ts k a
  alone [] k a n e = absurd (cc e)
  alone (c ∷ []) (suc k) a n e = absurd (cc e)
  alone (c ∷ c' ∷ ts) k a n e = absurd (omega arith)
  alone (c ∷ []) zero a n e = record {
    before = append-nil _ ∙ ap batch_of (injective e);
    after = λ b. append-nil _;
    single = λ b. refl;
  }
    where
      injective : {c a : Thread A} → some c ≡ some a → c ≡ a
      injective e = cc

  -- The elements of such a pool, the oldest first.
  abbrev pub line : WorkerPool A → List A
  line w = held w.threads ++ items w.work_que

  pub line-after_pop :
      (g : List A → List A) (w : WorkerPool A) (k : ℕ) (q : BlockingQueue A) (out : List A)
      → IsSingle w
      → Pops w k q out
      → g [] ≡ []
      → (line w ≡ out ++ items q)
        × (line (after_pop g w k (q, out)) ≡ g out ++ items q)
        × IsSingle (after_pop g w k (q, out))
  line-after_pop g w k q [] s p e =
      let a = alone w.threads k at_pop s p.at in
      (
        ap (λ l. l ++ items w.work_que) a.before ∙ p.shrunk.split,
        ap (λ l. l ++ items q) (a.after _ ∙ sym e),
        a.single _,
      )
  line-after_pop g w k q (x ∷ xs) s p e =
      let a = alone w.threads k at_pop s p.at in
      (
        ap (λ l. l ++ items w.work_que) a.before ∙ p.shrunk.split,
        ap (λ l. l ++ items q) (a.after _ ∙ batch_of-with_batch (g (x ∷ xs))),
        a.single _,
      )

  pub line-thread_push :
      (w to : WorkerPool A) (k : ℕ) (r : WorkerPool A × WorkerPool A)
      → IsSingle w
      → Pushes w to k r
      → to.work_que.drops ≡ false
      → to.work_que.stop ≡ false
      → (line r.1 ++ line r.0 ≡ line to ++ line w) × IsSingle r.0 × (r.1.threads ≡ to.threads)
  line-thread_push w to k r s p d h =
      rw (p.result, p.grown.settings.stop_same, h)
        (
          (ap₂ ◌++◌ (ap (λ l. held to.threads ++ l) (ordered_of p.grown d)) (
                ap (λ l. l ++ items w.work_que)
                  (a.after (with_batch p.xs) ∙ batch_of-with_batch p.xs))
              ∙ moved (held to.threads) (items to.work_que) p.x p.xs (items w.work_que)
              ∙ ap (λ l. line to ++ (l ++ items w.work_que)) (sym a.before)),
          a.single (with_batch p.xs),
          refl,
        )
    where
      a : Alone w.threads k (pushing p.x p.xs)
      a = alone w.threads k (pushing p.x p.xs) s p.at

      moved :
          (h i : List A) (x : A) (xs j : List A)
          → (h ++ (i ++ (x ∷ []))) ++ (xs ++ j) ≡ (h ++ i) ++ ((x ∷ xs) ++ j)
      moved h i x xs j = simp append_assoc
