-- ===== src/Pipeline/Counts.antt =====
-- otl_pipeline.h: what a pop and a push of a thread do to the elements of a pool.
use otl.Common.{
  ℕ, zero, suc, ◌+◌, ◌≡◌, refl, ap, arith, Bool, Option, none, some, List, [], ◌∷◌, ◌++◌,
  if◌then◌else◌, get_elem?, set,
}
use otl.ThreadQueue
use otl.ThreadQueue.{
  BlockingQueue, Pushed, stored, Popped, popped, items, wait_and_push_one, pop_front,
}
use otl.ThreadQueue.Bound.{Grown, push-Grown, Shrunk, pop-Shrunk}
use otl.Pipeline.{
  Thread, at_pop, ended, pushing, WorkerPool, thread_pop, thread_push, with_batch, after_pop,
  popped_of, pop_if, push_result, push_if, map_some,
}

-- What holds of a result, if there is one.
abbrev pub OnSome {κ μ} : {X : Type κ} → (X → Type μ) → Option X → Type μ
OnSome P none = Unit
OnSome P (some x) = P x

pub map_some-OnSome {κ ν μ} :
    {X : Type κ} {Y : Type ν} (P : Y → Type μ) (f : X → Y) (o : Option X)
    → ((x : X) → o ≡ some x → P (f x))
    → OnSome P (map_some f o)
map_some-OnSome P f none h = tt
map_some-OnSome P f (some x) h = h x refl

pub OnSome-both {κ μ ν} :
    {X : Type κ} (P : X → Type μ) (Q : X → Type ν) (o : Option X)
    → OnSome P o
    → OnSome Q o
    → OnSome (λ x. P x × Q x) o
OnSome-both P Q none p q = tt
OnSome-both P Q (some x) p q = (p, q)

module _ {ℓ} {A : Type ℓ} where
  -- What a thread holds of its batch.
  abbrev pub batch_of : Thread A → List A
  batch_of at_pop = []
  batch_of ended = []
  batch_of (pushing x xs) = x ∷ xs

  abbrev pub held : List (Thread A) → List A
  held [] = []
  held (t ∷ ts) = batch_of t ++ held ts

  pub batch_of-with_batch : (xs : List A) → batch_of (with_batch xs) ≡ xs
  batch_of-with_batch [] = refl
  batch_of-with_batch (x ∷ xs) = refl

  -- A pop that does not wait.
  pub record Pops (w : WorkerPool A) (k : ℕ) (q : BlockingQueue A) (out : List A) : Type ℓ where
    pub at : get_elem? w.threads k ≡ some at_pop
    pub pops : pop_front w.work_que w.min_pop_num w.max_pop_num ≡ popped q out
    pub shrunk : Shrunk w.work_que out q

  popped_of_lem :
      (r : Popped A) (q : BlockingQueue A) (out : List A)
      → popped_of r ≡ some (q, out)
      → r ≡ popped q out
  popped_of_lem ThreadQueue.Popped.waits q out e = absurd (cc e)
  popped_of_lem ThreadQueue.Popped.timeout q out e = absurd (cc e)
  popped_of_lem (popped q' out') q out e = cc

  pub thread_pop_lem :
      (w : WorkerPool A) (k : ℕ) (q : BlockingQueue A) (out : List A)
      → thread_pop w k ≡ some (q, out)
      → Pops w k q out
  unfolding thread_pop
  thread_pop_lem w k q out e = go (get_elem? w.threads k) refl e
    where
      go :
          (o : Option (Thread A))
          → get_elem? w.threads k ≡ o
          → pop_if o w ≡ some (q, out)
          → Pops w k q out
      go none h e = absurd (cc e)
      go (some ended) h e = absurd (cc e)
      go (some (pushing x xs)) h e = absurd (cc e)
      go (some at_pop) h e =
          let p = popped_of_lem (pop_front w.work_que w.min_pop_num w.max_pop_num) q out e in
          record {
            at = h;
            pops = p;
            shrunk = pop-Shrunk w.work_que q w.min_pop_num w.max_pop_num out p;
          }

  -- A push that does not wait.
  pub record Pushes (w to : WorkerPool A) (k : ℕ) (r : WorkerPool A × WorkerPool A) : Type ℓ where
    pub x : A
    pub xs : List A
    pub q : BlockingQueue A
    pub at : get_elem? w.threads k ≡ some (pushing x xs)
    pub grown : Grown to.work_que x q
    pub result : r ≡ (
      record w { threads = set w.threads k (if q.stop then at_pop else with_batch xs) },
      record to { work_que = q },
    )

  pub thread_push_lem :
      (w to : WorkerPool A) (k : ℕ) (r : WorkerPool A × WorkerPool A)
      → thread_push w to k ≡ some r
      → Pushes w to k r
  unfolding thread_push
  thread_push_lem w to k r e = go (get_elem? w.threads k) refl e
    where
      stores :
          (x : A) (xs : List A) (s : Pushed A)
          → get_elem? w.threads k ≡ some (pushing x xs)
          → wait_and_push_one to.work_que x ≡ s
          → push_result w to k xs s ≡ some r
          → Pushes w to k r
      stores x xs ThreadQueue.Pushed.waits h f e = absurd (cc e)
      stores x xs (stored q lost) h f e = record {
        x = x;
        xs = xs;
        q = q;
        at = h;
        grown = push-Grown to.work_que x q lost f;
        result = cc;
      }

      go :
          (o : Option (Thread A))
          → get_elem? w.threads k ≡ o
          → push_if o w to k ≡ some r
          → Pushes w to k r
      go none h e = absurd (cc e)
      go (some ended) h e = absurd (cc e)
      go (some at_pop) h e = absurd (cc e)
      go (some (pushing x xs)) h e = stores x xs (wait_and_push_one to.work_que x) h refl e

  -- How many elements pass a test.
  abbrev pub tally : (A → Bool) → List A → ℕ
  tally t [] = 0
  tally t (x ∷ xs) = (if t x then 1 else 0) + tally t xs

  pub tally-append : (t : A → Bool) (xs ys : List A) → tally t (xs ++ ys) ≡ tally t xs + tally t ys
  tally-append t [] ys = omega arith
  tally-append t (x ∷ xs) ys = omega (arith, tally-append t xs ys)

  pub tally-held-set :
      (t : A → Bool) (ts : List (Thread A)) (k : ℕ) (a b : Thread A)
      → get_elem? ts k ≡ some a
      → tally t (held (set ts k b)) + tally t (batch_of a)
        ≡ tally t (held ts) + tally t (batch_of b)
  tally-held-set t [] k a b e = absurd (cc e)
  tally-held-set t (c ∷ ts) zero a b e =
      omega
        (arith, tally-append t (batch_of b) (held ts), tally-append t (batch_of c) (held ts), same)
    where
      injective : {c a : Thread A} → some c ≡ some a → c ≡ a
      injective e = cc

      same : tally t (batch_of c) ≡ tally t (batch_of a)
      same = ap (λ c. tally t (batch_of c)) (injective e)
  tally-held-set t (c ∷ ts) (suc k) a b e = omega (
    arith,
    tally-append t (batch_of c) (held (set ts k b)),
    tally-append t (batch_of c) (held ts),
    tally-held-set t ts k a b e,
  )

  -- The elements of a pool that pass a test: those that wait in its queue, and those of its threads.
  abbrev pub inside : (A → Bool) → WorkerPool A → ℕ
  inside t w = tally t (items w.work_que) + tally t (held w.threads)

  pub inside-after_pop :
      (t : A → Bool) (g : List A → List A) (w : WorkerPool A) (k : ℕ) (q : BlockingQueue A)
      (out : List A)
      → tally t (g []) ≡ 0
      → Pops w k q out
      → inside t (after_pop g w k (q, out)) + tally t out ≡ inside t w + tally t (g out)
  inside-after_pop t g w k q [] z p =
      omega (arith, ap (tally t) p.shrunk.split, tally-held-set t w.threads k at_pop ended p.at, z)
  inside-after_pop t g w k q (x ∷ xs) z p = omega (
    arith,
    ap (tally t) p.shrunk.split,
    tally-append t (x ∷ xs) (items q),
    tally-held-set t w.threads k at_pop (with_batch (g (x ∷ xs))) p.at,
    ap (tally t) (batch_of-with_batch (g (x ∷ xs))),
  )
