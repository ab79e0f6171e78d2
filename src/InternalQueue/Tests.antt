-- ===== src/InternalQueue/Tests.antt =====
-- otl_thread_queue.h: `internal::BlockingQueue` at a concrete history.
use otl.Common.{ℕ, ◌≡◌, true, false, List, [], ◌∷◌, ◌++◌, map}
use otl.InternalQueue.{create}
use otl.InternalQueue.History.{
  Call, pushes, pops, shuts_down, resets, element, offered, run, run-create,
}

abbrev calls : List (Call ℕ)
calls =
    pops false
    ∷ pushes 1
    ∷ pushes 2
    ∷ pops true
    ∷ shuts_down
    ∷ pushes 3
    ∷ resets
    ∷ pushes 4
    ∷ pushes 5
    ∷ pops false
    ∷ []

run-create_example :
    map element (run create calls).1 ++ (run create calls).0.queue ≡ offered false calls
run-create_example = run-create calls
