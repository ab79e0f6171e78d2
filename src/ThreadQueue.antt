-- ===== src/ThreadQueue.antt =====
-- otl_thread_queue.h: `BlockingQueue`, one handler for each stretch that runs under the mutex. A wait
-- on a condition variable ends the stretch: the handler's result says that the thread waits, and
-- `resume` is what the thread does when it has the mutex again, for whatever reason it woke up.
-- Warnings and log lines are left out.
pub mod Halves
pub mod Order
pub mod Stopped
pub mod Bound
pub mod Threads
pub mod Deadline
pub mod Worker
mod Tests
use otl.Common.{
  ℕ, zero, suc, ◌+◌, ◌-◌, ◌*◌, ◌/◌, ◌%◌, ◌≤◌, Bool, true, false, not, ◌&&◌, List, [], ◌∷◌, ◌++◌,
  ltb, leb, ◌==◌, if◌then◌else◌, length,
}

-- `type` is 0 for the `std::queue` and anything else for the deque; a limit of 0 or less is no limit,
-- and is 0 here. `drops` says that a drop function is set.
pub record BlockingQueue {ℓ} (A : Type ℓ) : Type ℓ where
  pub type : ℕ
  pub limit : ℕ
  pub stop : Bool
  pub drops : Bool
  pub queue : List A
  pub vec : List A

-- What a push under the mutex comes to, with the elements that went to the drop function.
pub data Pushed {ℓ} (A : Type ℓ) : Type ℓ where
  waits : Pushed A
  stored : BlockingQueue A → List A → Pushed A

-- The same for a push of several: the element that waits with those behind it, or the result.
pub data PushedAll {ℓ} (A : Type ℓ) : Type ℓ where
  blocked : BlockingQueue A → List A → A → List A → PushedAll A
  returned : BlockingQueue A → List A → ℕ → PushedAll A

-- A pop waits, times out with -1, or returns 0 with elements.
pub data Popped {ℓ} (A : Type ℓ) : Type ℓ where
  waits timeout : Popped A
  popped : BlockingQueue A → List A → Popped A

module _ {ℓ} {A : Type ℓ} where
  -- A constructor's queue has no drop function.
  unfoldable pub create : ℕ → ℕ → BlockingQueue A
  create type limit = record {
    type = type;
    limit = limit;
    stop = false;
    drops = false;
    queue = [];
    vec = [];
  }

  -- The container in use.
  abbrev pub items : BlockingQueue A → List A
  items q = if q.type == 0 then q.queue else q.vec

  abbrev pub with_items : BlockingQueue A → List A → BlockingQueue A
  with_items q xs = if q.type == 0 then record q { queue = xs } else record q { vec = xs }

  abbrev pub size_impl : BlockingQueue A → ℕ
  size_impl q = length (items q)

  -- The loop of `drop_half_`: the elements left, `i`, `temp` and the dropped ones.
  pub drop_loop : List A → ℕ → List A → List A → List A × List A
  drop_loop [] i temp dropped = (temp, dropped)
  drop_loop (elem ∷ rest) i temp dropped =
      let keep = drop_loop rest (i + 1) (temp ++ (elem ∷ [])) dropped in
      let lose = drop_loop rest (i + 1) temp (dropped ++ (elem ∷ [])) in
      if i % 2 == 0 then keep else lose

  unfoldable pub drop_half : BlockingQueue A → BlockingQueue A × List A
  drop_half q = let (temp, dropped) = drop_loop (items q) 0 [] [] in (with_items q temp, dropped)

  -- The condition under which a push waits or drops.
  abbrev pub is_full : BlockingQueue A → Bool
  is_full q = ltb 0 q.limit && (leb q.limit (size_impl q) && not q.stop)

  abbrev pub append : BlockingQueue A → A → BlockingQueue A
  append q x = with_items q (items q ++ (x ∷ []))

  unfoldable pub wait_and_push_one : BlockingQueue A → A → Pushed A
  wait_and_push_one q x =
      if is_full q
      then if q.drops
        then (let (q', dropped) = drop_half q in stored (append q' x) dropped)
        else waits
      else stored (append q x) []

  -- The test of the `do … while` loop after a wait, and what follows it.
  pub resume : BlockingQueue A → A → Pushed A
  resume q x = if is_full q then waits else stored (append q x) []

  -- `push(T&)`: the size after the push.
  pub push : BlockingQueue A → A → PushedAll A
  push q x = elim (wait_and_push_one q x) [
    | waits ↦ blocked q [] x []
    | stored q' dropped ↦ returned q' dropped (size_impl q')
  ]

  -- The loop of `push(std::vector<T>&)`; `lost` collects what was dropped.
  pub push_all : List A → BlockingQueue A → List A → PushedAll A
  push_all [] q lost = returned q lost (size_impl q)
  push_all (x ∷ xs) q lost = elim (wait_and_push_one q x) [
    | waits ↦ blocked q lost x xs
    | stored q' dropped ↦
        let rest = push_all xs q' (lost ++ dropped) in
        if q'.stop then returned q' (lost ++ dropped) 0 else rest
  ]

  pub resume_all : BlockingQueue A → List A → A → List A → PushedAll A
  resume_all q lost x xs = elim (resume q x) [
    | waits ↦ blocked q lost x xs
    | stored q' dropped ↦
        if q'.stop then returned q' (lost ++ dropped) 0 else push_all xs q' (lost ++ dropped)
  ]

  -- `while (oc < max_num && size > 0)`: the elements moved out, and the rest.
  unfoldable pub move_out : ℕ → List A → List A × List A
  move_out zero xs = ([], xs)
  move_out (suc n) [] = ([], [])
  move_out (suc n) (x ∷ xs) = let (out, rest) = move_out n xs in (x ∷ out, rest)

  -- From the test of the waiting loop on, when the wait has not timed out.
  unfoldable pub pop_front : BlockingQueue A → ℕ → ℕ → Popped A
  pop_front q min_num max_num =
      if ltb (size_impl q) min_num && not q.stop
      then waits
      else let (out, rest) = move_out max_num (items q) in popped (with_items q rest) out

  -- The wait has timed out: a stopped queue returns 0 all the same, with nothing.
  pub pop_timeout : BlockingQueue A → Popped A
  pop_timeout q = if q.stop then popped q [] else timeout

  unfoldable pub stop : BlockingQueue A → BlockingQueue A
  stop q = record q { stop = true }

  pub set_drop_fn : BlockingQueue A → Bool → BlockingQueue A × ℕ
  set_drop_fn q given = (record q { drops = given }, q.limit)

  -- `drop(num)`, with 0 for all.
  pub drop_front : BlockingQueue A → ℕ → BlockingQueue A
  drop_front q num =
      let n = if num == 0 then size_impl q else num in
      if ltb (size_impl q) n then q else with_items q (move_out n (items q)).1
