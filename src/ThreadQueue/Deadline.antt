-- ===== src/ThreadQueue/Deadline.antt =====
-- otl_thread_queue.h: the point in time until which `pop_front` waits.
use otl.Common.{ℕ, ◌+◌, ◌*◌, ◌/◌, ◌%◌, ◌^◌, ◌<◌, ◌≡◌, ◌≢◌, arith, ◌==◌, if◌then◌else◌, ne→==}

-- `timespec`
pub record Timespec : Type 0 where
  pub tv_sec : ℕ
  pub tv_nsec : ℕ

-- `nsec`, an `int`.
pub wait_nsec : ℕ → ℕ → ℕ
wait_nsec tv_usec wait_ms = tv_usec * 1000 + wait_ms % 1000 * 1000000

-- `to`, from the seconds and microseconds of the clock; 0 milliseconds stand for no end.
pub deadline : ℕ → ℕ → ℕ → Timespec
unfolding wait_nsec
deadline tv_sec tv_usec wait_ms =
    if wait_ms == 0
    then record { tv_sec = tv_sec + 9999999; tv_nsec = tv_usec * 1000 }
    else record {
      tv_sec = tv_sec + wait_nsec tv_usec wait_ms / 1000000000 + wait_ms / 1000;
      tv_nsec = wait_nsec tv_usec wait_ms % 1000000000;
    }

-- For a clock whose microseconds are below a million the sum `nsec` fits into an `int`, the deadline
-- lies exactly `wait_ms` milliseconds ahead, and its nanoseconds are below 10^9.
pub deadline_lem :
    (tv_sec tv_usec wait_ms : ℕ)
    → tv_usec < 1000000
    → wait_ms ≢ 0
    → let to = deadline tv_sec tv_usec wait_ms in
      (wait_nsec tv_usec wait_ms < 2 ^ 31)
      × (to.tv_sec * 1000000000 + to.tv_nsec
          ≡ tv_sec * 1000000000 + tv_usec * 1000 + wait_ms * 1000000)
      × (to.tv_nsec < 1000000000)
unfolding deadline
deadline_lem tv_sec tv_usec wait_ms h n =
    rw (ne→== wait_ms 0 n) (omega arith, omega arith, omega arith)
