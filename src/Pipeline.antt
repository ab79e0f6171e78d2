-- ===== src/Pipeline.antt =====
-- otl_pipeline.h: `InferencePipe`, three queues with the threads of a `WorkerPool` each, and
-- `WorkerPool` of otl_thread_queue.h. The delegate is a parameter. A stretch of a thread is a pop with
-- the call of the delegate, or the push of one element: between two of them other threads go on. The
-- timeout of a pop without a waiting time, 115 days, is left out, as are the statistics.
pub mod Counts
pub mod Staff
pub mod Serving
pub mod Open
pub mod Flow
pub mod Single
pub mod Order
pub mod Progress
pub mod Measure
pub mod Settles
pub mod Starved
mod Tests
use otl.Common.{
  ℕ, zero, suc, Bool, true, false, List, [], ◌∷◌, ◌++◌, Option, none, some, if◌then◌else◌,
  get_elem?, set, replicate,
}
use otl.ThreadQueue
use otl.ThreadQueue.{BlockingQueue, Pushed, stored, Popped, popped}

-- A thread of a pool is at its pop, has elements of its batch to push, or has left its loop.
pub data Thread {ℓ} (A : Type ℓ) : Type ℓ where
  at_pop ended : Thread A
  pushing : A → List A → Thread A

-- A pool with the queue that it works on.
pub record WorkerPool {ℓ} (A : Type ℓ) : Type ℓ where
  pub work_que : BlockingQueue A
  pub thread_num : ℕ
  pub min_pop_num : ℕ
  pub max_pop_num : ℕ
  pub threads : List (Thread A)

-- The three calls that the detector makes of a batch, which it changes in place.
pub record Delegate {ℓ} (A : Type ℓ) : Type ℓ where
  pub preprocess : List A → List A
  pub forward : List A → List A
  pub postprocess : List A → List A

pub record DetectorParam : Type 0 where
  pub preprocess_queue_size : ℕ
  pub preprocess_thread_num : ℕ
  pub inference_queue_size : ℕ
  pub inference_thread_num : ℕ
  pub postprocess_queue_size : ℕ
  pub postprocess_thread_num : ℕ
  pub batch_num : ℕ

abbrev pub default_param : DetectorParam
default_param = record {
  preprocess_queue_size = 5;
  preprocess_thread_num = 4;
  inference_queue_size = 5;
  inference_thread_num = 1;
  postprocess_queue_size = 5;
  postprocess_thread_num = 2;
  batch_num = 1;
}

-- The pools, the frames that were pushed, and those that came out of the last stage.
pub record InferencePipe {ℓ} (A : Type ℓ) : Type ℓ where
  pub pre : WorkerPool A
  pub fwd : WorkerPool A
  pub post : WorkerPool A
  pub pushed : List A
  pub finished : List A

-- What happens next: a frame is pushed, a thread, by its number, pops or pushes, or the pipe is
-- flushed.
pub data Event {ℓ} (A : Type ℓ) : Type ℓ where
  frame : A → Event A
  pre_pops pre_pushes fwd_pops fwd_pushes post_pops : ℕ → Event A
  flushes : Event A

abbrev pub map_some {κ μ} : {X : Type κ} {Y : Type μ} → (X → Y) → Option X → Option Y
map_some f none = none
map_some f (some x) = some (f x)

module _ {ℓ} {A : Type ℓ} where
  -- `init` of a pool, and `startWork`.
  pub init_pool : BlockingQueue A → ℕ → ℕ → ℕ → WorkerPool A
  init_pool que thread_num min_pop_num max_pop_num = record {
    work_que = que;
    thread_num = thread_num;
    min_pop_num = min_pop_num;
    max_pop_num = max_pop_num;
    threads = [];
  }

  pub start_work : WorkerPool A → WorkerPool A
  start_work w = record w { threads = w.threads ++ replicate w.thread_num at_pop }

  pub flush : WorkerPool A → WorkerPool A
  flush w = record w { work_que = ThreadQueue.stop w.work_que }

  pub init : DetectorParam → InferencePipe A
  init param = record {
    pre = start_work (
        init_pool (ThreadQueue.create 0 param.preprocess_queue_size) param.preprocess_thread_num
          param.batch_num param.batch_num);
    fwd = start_work (
        init_pool (ThreadQueue.create 0 param.inference_queue_size) param.inference_thread_num 1 8);
    post = start_work (
        init_pool (ThreadQueue.create 0 param.postprocess_queue_size) param.postprocess_thread_num 1
          8);
    pushed = [];
    finished = [];
  }

  abbrev pub with_batch : List A → Thread A
  with_batch [] = at_pop
  with_batch (x ∷ xs) = pushing x xs

  abbrev pub popped_of : Popped A → Option (BlockingQueue A × List A)
  popped_of ThreadQueue.Popped.waits = none
  popped_of ThreadQueue.Popped.timeout = none
  popped_of (popped q out) = some (q, out)

  abbrev pub pop_if : Option (Thread A) → WorkerPool A → Option (BlockingQueue A × List A)
  pop_if none w = none
  pop_if (some ended) w = none
  pop_if (some (pushing x xs)) w = none
  pop_if (some at_pop) w = popped_of (ThreadQueue.pop_front w.work_que w.min_pop_num w.max_pop_num)

  -- A thread pops: `none` when it waits, or is not at its pop.
  pub thread_pop : WorkerPool A → ℕ → Option (BlockingQueue A × List A)
  thread_pop w k = pop_if (get_elem? w.threads k) w

  -- What it goes on with: the elements of the batch that the callback pushes, or the end of its loop.
  abbrev pub after_pop :
      (List A → List A) → WorkerPool A → ℕ → BlockingQueue A × List A → WorkerPool A
  after_pop g w k (q, []) = record w { work_que = q; threads = set w.threads k ended }
  after_pop g w k (q, x ∷ xs) = record w {
    work_que = q;
    threads = set w.threads k (with_batch (g (x ∷ xs)));
  }

  -- The element that a thread pushes, into the queue of the next pool; with the queue stopped
  -- `push(std::vector<T>&)` leaves out the others.
  abbrev pub push_result :
      WorkerPool A → WorkerPool A → ℕ → List A → Pushed A → Option (WorkerPool A × WorkerPool A)
  push_result w to k xs ThreadQueue.Pushed.waits = none
  push_result w to k xs (stored q lost) = some (
    record w { threads = set w.threads k (if q.stop then at_pop else with_batch xs) },
    record to { work_que = q },
  )

  abbrev pub push_if :
      Option (Thread A) → WorkerPool A → WorkerPool A → ℕ → Option (WorkerPool A × WorkerPool A)
  push_if none w to k = none
  push_if (some ended) w to k = none
  push_if (some at_pop) w to k = none
  push_if (some (pushing x xs)) w to k =
      push_result w to k xs (ThreadQueue.wait_and_push_one to.work_que x)

  pub thread_push : WorkerPool A → WorkerPool A → ℕ → Option (WorkerPool A × WorkerPool A)
  thread_push w to k = push_if (get_elem? w.threads k) w to k

  abbrev pub frame_pushed : InferencePipe A → A → Pushed A → Option (InferencePipe A)
  frame_pushed p x ThreadQueue.Pushed.waits = none
  frame_pushed p x (stored q lost) =
      some (record p { pre = record p.pre { work_que = q }; pushed = p.pushed ++ (x ∷ []) })

  pub push_frame : InferencePipe A → A → Option (InferencePipe A)
  push_frame p x = frame_pushed p x (ThreadQueue.wait_and_push_one p.pre.work_que x)

  pub flush_frame : InferencePipe A → InferencePipe A
  flush_frame p = record p { pre = flush p.pre }

  -- The callback of the last stage pushes nothing; what the delegate was given is finished.
  abbrev pub finish : Delegate A → InferencePipe A → ℕ → BlockingQueue A × List A → InferencePipe A
  finish d p k (q, []) = record p { post = after_pop (λ b. []) p.post k (q, []) }
  finish d p k (q, x ∷ xs) = record p {
    post = after_pop (λ b. []) p.post k (q, x ∷ xs);
    finished = p.finished ++ d.postprocess (x ∷ xs);
  }

  pub step : Delegate A → InferencePipe A → Event A → Option (InferencePipe A)
  step d p (frame x) = push_frame p x
  step d p (pre_pops k) =
      map_some (λ r. record p { pre = after_pop d.preprocess p.pre k r }) (thread_pop p.pre k)
  step d p (pre_pushes k) =
      map_some (λ r. record p { pre = r.0; fwd = r.1 }) (thread_push p.pre p.fwd k)
  step d p (fwd_pops k) =
      map_some (λ r. record p { fwd = after_pop d.forward p.fwd k r }) (thread_pop p.fwd k)
  step d p (fwd_pushes k) =
      map_some (λ r. record p { fwd = r.0; post = r.1 }) (thread_push p.fwd p.post k)
  step d p (post_pops k) = map_some (finish d p k) (thread_pop p.post k)
  step d p flushes = some (flush_frame p)

  abbrev pub or_same : InferencePipe A → Option (InferencePipe A) → InferencePipe A
  or_same p none = p
  or_same p (some q) = q

  -- A schedule: what cannot happen when its turn comes, since the thread waits, does not happen.
  pub run : Delegate A → InferencePipe A → List (Event A) → InferencePipe A
  run d p [] = p
  run d p (e ∷ es) = run d (or_same p (step d p e)) es
