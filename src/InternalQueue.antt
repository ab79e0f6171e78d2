-- ===== src/InternalQueue.antt =====
-- otl_thread_queue.h: `internal::BlockingQueue`, the queue of the stream pusher. Each handler runs
-- under the mutex; a wait ends the stretch.
mod Tests
pub mod History
use otl.Common.{ℕ, Bool, true, false, List, [], ◌∷◌, ◌++◌, length, if◌then◌else◌, not, ◌||◌}

pub record InternalQueue {ℓ} (A : Type ℓ) : Type ℓ where
  pub queue : List A
  pub is_shutdown : Bool

-- A pop waits, returns false, or returns true with the element.
pub data Popped {ℓ} (A : Type ℓ) : Type ℓ where
  waits refused : Popped A
  popped : A → InternalQueue A → Popped A

module _ {ℓ} {A : Type ℓ} where
  unfoldable pub create : InternalQueue A
  create = record { queue = []; is_shutdown = false }

  unfoldable pub push : InternalQueue A → A → InternalQueue A
  push q item = if q.is_shutdown then q else record q { queue = q.queue ++ (item ∷ []) }

  abbrev pub is_empty : List A → Bool
  is_empty [] = true
  is_empty (x ∷ xs) = false

  -- The predicate of both waits.
  abbrev pub is_ready : InternalQueue A → Bool
  is_ready q = not (is_empty q.queue) || q.is_shutdown

  -- What follows the wait.
  abbrev pub take_item : List A → InternalQueue A → Popped A
  take_item [] q = refused
  take_item (item ∷ rest) q = popped item (record q { queue = rest })

  -- `pop` with the time over or not; without an end the time is never over.
  unfoldable pub pop : InternalQueue A → Bool → Popped A
  pop q time_over = if is_ready q then take_item q.queue q else if time_over then refused else waits

  unfoldable pub size : InternalQueue A → ℕ
  size q = length q.queue

  unfoldable pub shutdown : InternalQueue A → InternalQueue A
  shutdown q = record q { is_shutdown = true }

  unfoldable pub reset : InternalQueue A → InternalQueue A
  reset q = record q { is_shutdown = false; queue = [] }
