-- ===== src/Timer.antt =====
-- otl_timer.cpp: `TimerQueueImpl`. A timer is shared by the heap, the map and the loop that runs its
-- callback: the map holds identifiers here, and a change of a timer goes to every copy. The
-- operations run under the mutex, except the test of `isValid` and the call of the callback behind it,
-- `test_valid` and `call_back`, between which other threads may run.
pub mod Steps
pub mod Quiet
pub mod Deleted
pub mod Counts
pub mod Repeats
mod Tests
use otl.Common.{
  ℕ, zero, suc, ◌+◌, ◌-◌, ◌%◌, ◌^◌, Bool, true, false, not, List, [], ◌∷◌, ◌++◌, Option, none, some,
  map, ltb, ◌==◌, if◌then◌else◌, length,
}
use otl.Common.Int.{ℤ, pos, negsuc}

pub record OptimizedTimer : Type 0 where
  pub next_timeout : ℕ
  pub interval_msec : ℕ
  pub repeat_count : ℤ
  pub timer_id : ℕ
  pub is_valid : Bool

-- `current` is the timer that the loop has taken off the heap and whose validity it is about to test,
-- `calling` has the identifier of the one that has passed the test and whose callback comes next, and
-- `called` records the identifiers whose callbacks were called.
pub record TimerQueue : Type 0 where
  pub timer_heap : List OptimizedTimer
  pub timer_map : List ℕ
  pub is_running : Bool
  pub next_timer_id : ℕ
  pub current : Option OptimizedTimer
  pub calling : List ℕ
  pub called : List ℕ

pub create : TimerQueue
create = record {
  timer_heap = [];
  timer_map = [];
  is_running = false;
  next_timer_id = 1;
  current = none;
  calling = [];
  called = [];
}

-- The priority queue: the earliest timeout is at the front.
pub push_heap : OptimizedTimer → List OptimizedTimer → List OptimizedTimer
push_heap t [] = t ∷ []
push_heap t (u ∷ heap) =
    let behind = push_heap t heap in
    if ltb t.next_timeout u.next_timeout then t ∷ u ∷ heap else u ∷ behind

pub erase : ℕ → List ℕ → List ℕ
erase id [] = []
erase id (i ∷ ids) = let rest = erase id ids in if i == id then rest else i ∷ rest

pub contains : ℕ → List ℕ → Bool
contains id [] = false
contains id (i ∷ ids) = let rest = contains id ids in if i == id then true else rest

abbrev pub new_timer : TimerQueue → ℕ → ℕ → ℕ → ℤ → OptimizedTimer
new_timer q now delay_msec skew repeat = record {
  next_timeout = (now + skew) % 2 ^ 64;
  interval_msec = delay_msec;
  repeat_count = repeat;
  timer_id = q.next_timer_id;
  is_valid = true;
}

-- With a callback, at the time `now`: the queue and the identifier. Without one the result is -1 and
-- nothing changes.
pub create_timer : TimerQueue → ℕ → ℕ → ℕ → ℤ → TimerQueue × ℕ
create_timer q now delay_msec skew repeat = (
  record q {
    timer_heap = push_heap (new_timer q now delay_msec skew repeat) q.timer_heap;
    timer_map = q.next_timer_id ∷ q.timer_map;
    next_timer_id = q.next_timer_id + 1;
  },
  q.next_timer_id,
)

-- `it->second->isValid = false`
abbrev pub invalidate : ℕ → OptimizedTimer → OptimizedTimer
invalidate id t = if t.timer_id == id then record t { is_valid = false } else t

abbrev pub invalidate_all : ℕ → List OptimizedTimer → List OptimizedTimer
invalidate_all id [] = []
invalidate_all id (t ∷ ts) = invalidate id t ∷ invalidate_all id ts

abbrev pub invalidate_current : ℕ → Option OptimizedTimer → Option OptimizedTimer
invalidate_current id none = none
invalidate_current id (some t) = some (invalidate id t)

-- true for the result 0 and false for -1.
pub delete_timer : TimerQueue → ℕ → TimerQueue × Bool
delete_timer q id =
    if contains id q.timer_map
    then (
      record q {
        timer_heap = invalidate_all id q.timer_heap;
        timer_map = erase id q.timer_map;
        current = invalidate_current id q.current;
      },
      true,
    )
    else (q, false)

pub count : TimerQueue → ℕ
count q = length q.timer_map

pub cleanup_invalid_timers : List OptimizedTimer → List OptimizedTimer
cleanup_invalid_timers [] = []
cleanup_invalid_timers (t ∷ ts) =
    let rest = cleanup_invalid_timers ts in if t.is_valid then t ∷ ts else rest

-- The count after a call, and whether there is another.
pub next_repeat : ℤ → ℤ × Bool
next_repeat (negsuc zero) = (negsuc zero, true)
next_repeat (negsuc (suc n)) = (negsuc (suc n), false)
next_repeat (pos zero) = (pos zero, false)
next_repeat (pos (suc n)) = (pos n, ltb 0 n)

-- A round of the loop leaves it, sleeps, or takes a timer.
pub data Round : Type 0 where
  exits sleeps takes : TimerQueue → Round

abbrev pub again : ℕ → OptimizedTimer → OptimizedTimer
again now t = record t { next_timeout = (now + t.interval_msec) % 2 ^ 64 }

abbrev pub reschedule : ℕ → TimerQueue → OptimizedTimer → List OptimizedTimer → Bool → TimerQueue
reschedule now q t rest true = record q {
  timer_heap = push_heap (again now t) rest;
  current = some (again now t);
}
reschedule now q t rest false = record q {
  timer_heap = rest;
  timer_map = erase t.timer_id q.timer_map;
  current = some t;
}

abbrev pub take_timer : ℕ → TimerQueue → OptimizedTimer → List OptimizedTimer → Bool → TimerQueue
take_timer now q t rest false = record q { timer_heap = rest; current = some t }
take_timer now q t rest true =
    reschedule now q (record t { repeat_count = (next_repeat t.repeat_count).0 }) rest
      (next_repeat t.repeat_count).1

abbrev pub choose : ℕ → TimerQueue → List OptimizedTimer → Round
choose now q [] = sleeps q
choose now q (t ∷ rest) =
    if ltb now t.next_timeout then sleeps q else takes (take_timer now q t rest t.is_valid)

-- The part of a round under the mutex, at the time `now`.
pub round : ℕ → TimerQueue → Round
round now q =
    let heap = cleanup_invalid_timers q.timer_heap in
    if q.is_running then choose now (record q { timer_heap = heap }) heap else exits q

-- After the mutex is released: the test whether the timer is still valid.
abbrev pub test_current : TimerQueue → Option OptimizedTimer → TimerQueue
test_current q none = q
test_current q (some t) = record q {
  current = none;
  calling = if t.is_valid then t.timer_id ∷ q.calling else q.calling;
}

pub test_valid : TimerQueue → TimerQueue
test_valid q = test_current q q.current

-- The callback of the timer that has passed the test.
pub call_back : TimerQueue → TimerQueue
call_back q = record q { calling = []; called = q.calling ++ q.called }

-- The callbacks that were called, and the one that is next for certain.
abbrev pub begun : TimerQueue → List ℕ
begun q = q.calling ++ q.called

pub run_loop : TimerQueue → TimerQueue
run_loop q = record q { is_running = true }

pub stop : TimerQueue → TimerQueue
stop q = record q { is_running = false }
