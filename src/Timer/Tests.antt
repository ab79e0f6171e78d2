-- ===== src/Timer/Tests.antt =====
-- otl_timer.cpp: `TimerQueueImpl` with one timer.
use otl.Common.{◌≤◌, ◌≡◌, refl, true, [], ◌∷◌}
use otl.Common.Int.{pos, negsuc}
use otl.Timer.{
  TimerQueue, Round, takes, create, create_timer, delete_timer, run_loop, round, test_valid,
  call_back, begun, contains, push_heap, cleanup_invalid_timers, next_repeat,
}
use otl.Timer.Steps.{creates, runs, picks, tests, calls, Reach, here, next}
use otl.Timer.Quiet.{calls_of}
use otl.Timer.Counts.{repeats}
use otl.Timer.Repeats.{create_timer_lem}
use otl.Timer.Deleted.{delete_timer_lem}

-- A timer that repeats for ever has been called once and was taken off the heap again.
abbrev running : TimerQueue
running = run_loop (create_timer create 100 10 5 (negsuc 0)).0

abbrev taken_of : Round → TimerQueue
taken_of (takes q) = q
taken_of r = create

abbrev once : TimerQueue
once = call_back (test_valid (taken_of (round 105 running)))

abbrev twice : TimerQueue
twice = taken_of (round 115 once)

twice-Reach : Reach create twice
unfolding create create_timer run_loop round test_valid call_back push_heap cleanup_invalid_timers
    next_repeat
twice-Reach =
    next
      (next
        (next
          (next (next (next here (creates 100 10 5 (negsuc 0))) runs) (picks 105 _ refl refl refl))
          tests)
        calls)
      (picks 115 _ refl refl refl)

called_once : twice.called ≡ 1 ∷ []
unfolding create create_timer run_loop round test_valid call_back push_heap cleanup_invalid_timers
    next_repeat
called_once = refl

deleted : (delete_timer twice 1).1 ≡ true
unfolding create create_timer run_loop round test_valid call_back push_heap cleanup_invalid_timers
    next_repeat contains delete_timer
deleted = refl

abbrev after_delete : TimerQueue
after_delete = call_back (test_valid (delete_timer twice 1).0)

delete_timer_lem_example :
    (calls_of 1 (begun after_delete) ≡ calls_of 1 (begun twice))
    × (calls_of 1 after_delete.called ≤ calls_of 1 (begun twice))
delete_timer_lem_example =
    delete_timer_lem twice after_delete 1 twice-Reach deleted (next (next here tests) calls)

-- One whose test was passed is still called.
deleted_late : (call_back (delete_timer (test_valid twice) 1).0).called ≡ 1 ∷ 1 ∷ []
unfolding create create_timer run_loop round test_valid call_back push_heap cleanup_invalid_timers
    next_repeat contains delete_timer
deleted_late = refl

abbrev called_twice : TimerQueue
called_twice = call_back (
    test_valid (
      taken_of (
        round 110 (
          call_back (
            test_valid
              (taken_of (round 100 (run_loop (create_timer create 100 10 0 (pos 2)).0))))))))

twice_called : called_twice.called ≡ 1 ∷ 1 ∷ []
unfolding create create_timer run_loop round test_valid call_back push_heap cleanup_invalid_timers
    next_repeat
twice_called = refl

called_twice-Reach : Reach (create_timer create 100 10 0 (pos 2)).0 called_twice
unfolding create create_timer run_loop round test_valid call_back push_heap cleanup_invalid_timers
    next_repeat
called_twice-Reach =
    next
      (next
        (next (next (next (next (next here runs) (picks 100 _ refl refl refl)) tests) calls)
          (picks 110 _ refl refl refl))
        tests)
      calls

create_timer_lem_example :
    calls_of (create_timer create 100 10 0 (pos 2)).1 called_twice.called ≤ repeats (pos 2)
create_timer_lem_example =
    create_timer_lem create called_twice 100 10 0 (pos 2) here (λ e. absurd (cc e))
      called_twice-Reach
