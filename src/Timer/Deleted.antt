-- ===== src/Timer/Deleted.antt =====
-- otl_timer.cpp: a deleted timer is not called again.
use otl.Common.{
  ℕ, ◌+◌, ◌<◌, ◌≤◌, ◌≡◌, inl, inr, refl, sym, ap, subst, ◌∙◌, arith, Bool, Bool-cases, true, false,
  Option, none, some, List, [], ◌∷◌, if◌then◌else◌, All,
}
use otl.Timer.{
  OptimizedTimer, TimerQueue, create, erase, contains, create_timer, invalidate_all,
  invalidate_current, delete_timer, next_repeat, reschedule, take_timer, round, test_current,
  call_back, begun, test_valid, run_loop, stop,
}
use otl.Timer.Steps.{
  Step, creates, deletes, waits, picks, tests, calls, runs, stops, Reach, here, next, state_of,
  erase-All, contains-All, round_keeps, Anything, every,
}
use otl.Timer.Quiet.{
  calls_of, calls_of-append, Dead, invalidate_all-IsQuiet, current_quiet, Reach-Dead,
}

-- The map holds no identifier that is not given out yet.
IsBelow : TimerQueue → Type 0
IsBelow q = All (λ i. i < q.next_timer_id) q.timer_map

All-weaken : (n : ℕ) (ids : List ℕ) → All (λ i. i < n) ids → All (λ i. i < n + 1) ids
All-weaken n [] ps = tt
All-weaken n (i ∷ ids) ps = (omega (arith, ps.0), All-weaken n ids ps.1)

round-IsBelow : (now : ℕ) (q : TimerQueue) → IsBelow q → IsBelow (state_of (round now q))
unfolding IsBelow
round-IsBelow now q p =
    round_keeps {P = IsBelow} {Q = Anything} (λ q ts ps p. p) taking now q (every q.timer_heap) p
  where
    taking :
        (now : ℕ) (q : TimerQueue) (t : OptimizedTimer) (ts : List OptimizedTimer) (b : Bool)
        → Anything t
        → All Anything ts
        → IsBelow q
        → IsBelow (take_timer now q t ts b)
    taking now q t ts false u us p = p
    taking now q t ts true u us p = go (next_repeat t.repeat_count).1
      where
        go :
            (b : Bool)
            → IsBelow
                (reschedule now q (record t { repeat_count = (next_repeat t.repeat_count).0 }) ts b)
        go true = p
        go false = erase-All (λ i. i < q.next_timer_id) t.timer_id q.timer_map p

call-IsBelow : (q : TimerQueue) (o : Option OptimizedTimer) → IsBelow q → IsBelow (test_current q o)
unfolding IsBelow
call-IsBelow q none p = p
call-IsBelow q (some t) p = p

Step-IsBelow : {q r : TimerQueue} → Step q r → IsBelow q → IsBelow r
unfolding create_timer delete_timer test_valid call_back run_loop stop IsBelow
Step-IsBelow {q} (creates now delay_msec skew repeat) p =
    (omega arith, All-weaken q.next_timer_id q.timer_map p)
Step-IsBelow {q} (deletes i) p = elim (Bool-cases (contains i q.timer_map)) [
  | inl e ↦
      subst (λ b. IsBelow (branch b).0) (sym e)
        (erase-All (λ i. i < q.next_timer_id) i q.timer_map p)
  | inr e ↦ subst (λ b. IsBelow (branch b).0) (sym e) p
]
  where
    gone : TimerQueue
    gone = record q {
      timer_heap = invalidate_all i q.timer_heap;
      timer_map = erase i q.timer_map;
      current = invalidate_current i q.current;
    }

    branch : Bool → TimerQueue × Bool
    branch b = if b then (gone, true) else (q, false)
Step-IsBelow {q} (waits now q' e) p = subst IsBelow (ap state_of e) (round-IsBelow now q p)
Step-IsBelow {q} (picks now q' c k e) p = subst IsBelow (ap state_of e) (round-IsBelow now q p)
Step-IsBelow {q} tests p = call-IsBelow q q.current p
Step-IsBelow {q} calls p = p
Step-IsBelow {q} runs p = p
Step-IsBelow {q} stops p = p

new : IsBelow create
unfolding IsBelow create
new = tt

Reach-IsBelow : {q r : TimerQueue} → IsBelow q → Reach q r → IsBelow r
Reach-IsBelow p here = p
Reach-IsBelow p (next r s) = Step-IsBelow s (Reach-IsBelow p r)

-- After `deleteTimer` has returned 0 for a timer of the queue, however the threads go on, the timer
-- never passes the test for its callback again, not even if it was due, repeats, or had been taken
-- off the heap when it was deleted: the callbacks of it that are called, with the one that is next
-- for certain, stay as many as at the deletion, so that the only call that can still come is one
-- whose test was passed before.
pub delete_timer_lem :
    (q r : TimerQueue) (id : ℕ)
    → Reach create q
    → (delete_timer q id).1 ≡ true
    → Reach (delete_timer q id).0 r
    → (calls_of id (begun r) ≡ calls_of id (begun q))
      × (calls_of id r.called ≤ calls_of id (begun q))
unfolding delete_timer IsBelow
delete_timer_lem q r id reached deleted after = elim (Bool-cases (contains id q.timer_map)) [
  | inl e ↦ with_called (kept e)
  | inr e ↦ absurd (cc (sym (ap (λ b. (branch b).1) e) ∙ deleted))
]
  where
    gone : TimerQueue
    gone = record q {
      timer_heap = invalidate_all id q.timer_heap;
      timer_map = erase id q.timer_map;
      current = invalidate_current id q.current;
    }

    branch : Bool → TimerQueue × Bool
    branch b = if b then (gone, true) else (q, false)

    below : All (λ i. i < q.next_timer_id) q.timer_map
    below = Reach-IsBelow new reached

    dead : contains id q.timer_map ≡ true → Dead id (calls_of id (begun q)) gone
    dead e = record {
      old = contains-All (λ i. i < q.next_timer_id) id q.timer_map below e;
      heap = invalidate_all-IsQuiet id q.timer_heap;
      running = current_quiet id q.current;
      calls = refl;
    }

    with_called :
        calls_of id (begun r) ≡ calls_of id (begun q)
        → (calls_of id (begun r) ≡ calls_of id (begun q))
          × (calls_of id r.called ≤ calls_of id (begun q))
    with_called h = (h, omega (arith, h, calls_of-append id r.calling r.called))

    kept : contains id q.timer_map ≡ true → calls_of id (begun r) ≡ calls_of id (begun q)
    kept e =
        (Reach-Dead id (calls_of id (begun q))
          (subst (λ b. Dead id (calls_of id (begun q)) (branch b).0) (sym e) (dead e)) after).calls
