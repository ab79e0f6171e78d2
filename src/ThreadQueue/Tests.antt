-- ===== src/ThreadQueue/Tests.antt =====
-- otl_thread_queue.h: `BlockingQueue` and the worker's loop at concrete queues.
use otl.Common.{ℕ, ◌+◌, ◌*◌, ◌^◌, ◌<◌, ◌≡◌, refl, [], ◌∷◌, arith, true, false}
use otl.ThreadQueue.{BlockingQueue, stored, append, wait_and_push_one, create, set_drop_fn}
use otl.ThreadQueue.Bound.{IsWithin}
use otl.ThreadQueue.Threads.{System, Reach, here, next, push, initial, InOrder, Reach-create}
use otl.ThreadQueue.Deadline.{deadline, wait_nsec, deadline_lem}
use otl.ThreadQueue.Worker.{Drains, worker_loop, worker_loop_lem}

-- A deque with the limit 3 that is full and has a drop function.
abbrev full_deque : BlockingQueue ℕ
full_deque = record {
  type = 1;
  limit = 3;
  stop = false;
  drops = true;
  queue = [];
  vec = 5 ∷ 6 ∷ 7 ∷ [];
}

abbrev stopped_queue : BlockingQueue ℕ
stopped_queue = record {
  type = 0;
  limit = 2;
  stop = true;
  drops = false;
  queue = 5 ∷ 6 ∷ 7 ∷ [];
  vec = [];
}

abbrev new_queue : BlockingQueue ℕ
new_queue = (set_drop_fn (create 0 1) false).0

abbrev one_pushed : System ℕ
one_pushed = record { bq = append new_queue 4; waiting = []; accepted = 4 ∷ []; removed = [] }

first_push : wait_and_push_one new_queue 4 ≡ stored (append new_queue 4) []
unfolding wait_and_push_one create set_drop_fn
first_push = refl

one_pushed-Reach : Reach (initial new_queue) one_pushed
one_pushed-Reach = next here (push 4 (append new_queue 4) [] first_push)

Reach-create_example : IsWithin one_pushed.bq × InOrder one_pushed
Reach-create_example = Reach-create 0 1 false one_pushed one_pushed-Reach

deadline_lem_example :
    let to = deadline 7 999999 1500 in
    (wait_nsec 999999 1500 < 2 ^ 31)
    × (to.tv_sec * 1000000000 + to.tv_nsec ≡ 7 * 1000000000 + 999999 * 1000 + 1500 * 1000000)
    × (to.tv_nsec < 1000000000)
deadline_lem_example = deadline_lem 7 999999 1500 (omega arith) (omega arith)

worker_loop_lem_example : Drains 2 (5 ∷ 6 ∷ 7 ∷ []) [] (worker_loop 4 1 2 stopped_queue [])
worker_loop_lem_example = worker_loop_lem 1 2 stopped_queue (omega arith) refl
