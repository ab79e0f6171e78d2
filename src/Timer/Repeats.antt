-- ===== src/Timer/Repeats.antt =====
-- otl_timer.cpp: how often a timer is called.
use otl.Common.{
  ℕ, zero, suc, ◌+◌, ◌≤◌, ◌<◌, ◌≡◌, ◌≢◌, ◌⊎◌, inl, inr, refl, sym, ap, subst, arith, Bool,
  Bool-cases, true, false, ltb, Option, none, some, List, [], ◌∷◌, ◌++◌, if◌then◌else◌, ◌==◌,
  ==_refl, ne→==, All,
}
use otl.Common.Int.{ℤ, pos, negsuc}
use otl.Timer.{
  OptimizedTimer, TimerQueue, create, erase, contains, new_timer, create_timer, invalidate_all,
  invalidate_current, delete_timer, cleanup_invalid_timers, next_repeat, Round, exits, sleeps,
  takes, reschedule, take_timer, choose, round, test_current, call_back, begun, test_valid,
  run_loop, stop,
}
use otl.Timer.Steps.{
  Step, creates, deletes, waits, picks, tests, calls, runs, stops, Reach, here, next, state_of,
  push_heap-All, cleanup-All, round_keeps, Anything, every,
}
use otl.Timer.Quiet.{calls_of, calls_of-append}
use otl.Timer.Counts.{
  repeats, left_of, left, pending, is_endless, IsEnding, Budget, left-push_heap, left-cleanup,
  left-invalidate, invalidate-IsEnding, pending-invalidate, take-Budget,
}

-- A round keeps the budget; one that takes a timer does so if no other is current.
abbrev RoundBudget : ℕ → ℕ → Option OptimizedTimer → Round → Type 0
RoundBudget id n current (exits q) = Budget id n q
RoundBudget id n current (sleeps q) = Budget id n q
RoundBudget id n current (takes q) = current ≡ none → Budget id n q

choose-Budget :
    (id n now : ℕ) (q : TimerQueue) (ts : List OptimizedTimer)
    → All (IsEnding id) ts
    → calls_of id (begun q) + pending id q.current + left id ts ≤ n
    → Budget id n q
    → RoundBudget id n q.current (choose now q ts)
choose-Budget id n now q [] ps w b = b
choose-Budget id n now q (t ∷ ts) ps w b = elim (Bool-cases (ltb now t.next_timeout)) [
  | inl e ↦
      subst
        (λ c.
          RoundBudget id n q.current
            (if c then sleeps q else takes (take_timer now q t ts t.is_valid)))
        (sym e) b
  | inr e ↦
      subst
        (λ c.
          RoundBudget id n q.current
            (if c then sleeps q else takes (take_timer now q t ts t.is_valid)))
        (sym e) (λ none_now. take-Budget id n now q t ts t.is_valid ps.0 ps.1 (omega (arith, w)))
]

round-Budget :
    (id n now : ℕ) (q : TimerQueue) → Budget id n q → RoundBudget id n q.current (round now q)
unfolding round
round-Budget id n now q b = elim (Bool-cases q.is_running) [
  | inr e ↦
      subst (λ c. RoundBudget id n q.current (if c then choose now cleaned heap else exits q))
        (sym e) b
  | inl e ↦
      subst (λ c. RoundBudget id n q.current (if c then choose now cleaned heap else exits q))
        (sym e)
        (choose-Budget id n now cleaned heap ends room (record { ending = ends; within = room }))
]
  where
    heap : List OptimizedTimer
    heap = cleanup_invalid_timers q.timer_heap

    cleaned : TimerQueue
    cleaned = record q { timer_heap = heap }

    ends : All (IsEnding id) heap
    ends = cleanup-All (IsEnding id) q.timer_heap b.ending

    room : calls_of id (begun q) + pending id q.current + left id heap ≤ n
    room = omega (arith, b.within, left-cleanup id q.timer_heap)

call-Budget :
    (id n : ℕ) (q : TimerQueue) (o : Option OptimizedTimer)
    → o ≡ q.current
    → Budget id n q
    → Budget id n (test_current q o)
call-Budget id n q none e b = b
call-Budget id n q (some t) e b = record {
  ending = b.ending;
  within = omega (arith, b.within, counted, ap (pending id) e);
}
  where
    by_valid :
        (v : Bool)
        → calls_of id ((if v then t.timer_id ∷ q.calling else q.calling) ++ q.called)
          ≤ pending id (some t) + calls_of id (begun q)
    by_valid false = omega arith
    by_valid true = elim (Bool-cases (t.timer_id == id)) [
      | inl d ↦ rw d (omega arith)
      | inr d ↦ rw d (omega arith)
    ]

    counted :
        calls_of id ((if t.is_valid then t.timer_id ∷ q.calling else q.calling) ++ q.called)
        ≤ pending id (some t) + calls_of id (begun q)
    counted = by_valid t.is_valid

Step-Budget :
    {q r : TimerQueue} (id n : ℕ)
    → Step q r
    → (q.next_timer_id ≢ id) ⊎ (r.next_timer_id ≤ id)
    → Budget id n q
    → Budget id n r
unfolding create_timer delete_timer test_valid call_back run_loop stop IsEnding
Step-Budget {q} id n (creates now delay_msec skew repeat) h b = record {
  ending = push_heap-All (IsEnding id) _ q.timer_heap (λ e. absurd (not_this e)) b.ending;
  within = omega (
    arith,
    b.within,
    left-push_heap id (new_timer q now delay_msec skew repeat) q.timer_heap,
    other,
  );
}
  where
    not_this : q.next_timer_id ≢ id
    not_this = elim h [ inl k ↦ k | inr k ↦ (λ e. absurd (omega (arith, e, k))) ]

    other : left_of id (new_timer q now delay_msec skew repeat) ≡ 0
    other = ap (λ c. if c then repeats repeat else 0) (ne→== q.next_timer_id id not_this)
Step-Budget {q} id n (deletes i) h b = elim (Bool-cases (contains i q.timer_map)) [
  | inl e ↦
      subst (λ b. Budget id n (branch b).0) (sym e)
        (record {
          ending = invalidate-IsEnding id i q.timer_heap b.ending;
          within = omega (
            arith,
            b.within,
            left-invalidate id i q.timer_heap,
            pending-invalidate id i q.current,
          );
        })
  | inr e ↦ subst (λ b. Budget id n (branch b).0) (sym e) b
]
  where
    branch : Bool → TimerQueue × Bool
    branch b =
        if b
        then (
          record q {
            timer_heap = invalidate_all i q.timer_heap;
            timer_map = erase i q.timer_map;
            current = invalidate_current i q.current;
          },
          true,
        )
        else (q, false)
Step-Budget {q} id n (waits now q' e) h b =
    subst (RoundBudget id n q.current) e (round-Budget id n now q b)
Step-Budget {q} id n (picks now q' c k e) h b =
    subst (RoundBudget id n q.current) e (round-Budget id n now q b) c
Step-Budget {q} id n tests h b = call-Budget id n q q.current refl b
Step-Budget {q} id n calls h b = record { ending = b.ending; within = b.within }
Step-Budget {q} id n runs h b = record { ending = b.ending; within = b.within }
Step-Budget {q} id n stops h b = record { ending = b.ending; within = b.within }

call_next :
    (q : TimerQueue) (o : Option OptimizedTimer)
    → (test_current q o).next_timer_id ≡ q.next_timer_id
call_next q none = refl
call_next q (some t) = refl

round_next : (now : ℕ) (q : TimerQueue) → (state_of (round now q)).next_timer_id ≡ q.next_timer_id
round_next now q =
    round_keeps {P = λ r. r.next_timer_id ≡ q.next_timer_id} {Q = Anything} (λ r ts ps p. p) taking
      now q (every q.timer_heap) refl
  where
    taking :
        (now : ℕ) (r : TimerQueue) (t : OptimizedTimer) (ts : List OptimizedTimer) (b : Bool)
        → Anything t
        → All Anything ts
        → r.next_timer_id ≡ q.next_timer_id
        → (take_timer now r t ts b).next_timer_id ≡ q.next_timer_id
    taking now r t ts false u us p = p
    taking now r t ts true u us p = go (next_repeat t.repeat_count).1
      where
        go :
            (b : Bool)
            → (reschedule now r
                (record t { repeat_count = (next_repeat t.repeat_count).0 })
                ts
                b).next_timer_id
              ≡ q.next_timer_id
        go true = p
        go false = p

Step-next : {q r : TimerQueue} → Step q r → q.next_timer_id ≤ r.next_timer_id
unfolding create_timer delete_timer test_valid call_back run_loop stop
Step-next {q} (creates now delay_msec skew repeat) = omega arith
Step-next {q} (deletes i) = go (contains i q.timer_map)
  where
    branch : Bool → TimerQueue × Bool
    branch b =
        if b
        then (
          record q {
            timer_heap = invalidate_all i q.timer_heap;
            timer_map = erase i q.timer_map;
            current = invalidate_current i q.current;
          },
          true,
        )
        else (q, false)

    go : (b : Bool) → q.next_timer_id ≤ (branch b).0.next_timer_id
    go true = omega arith
    go false = omega arith
Step-next {q} (waits now q' e) =
    omega (arith, round_next now q, ap (λ r. (state_of r).next_timer_id) e)
Step-next {q} (picks now q' c k e) =
    omega (arith, round_next now q, ap (λ r. (state_of r).next_timer_id) e)
Step-next {q} tests = omega (arith, call_next q q.current)
Step-next {q} calls = omega arith
Step-next {q} runs = omega arith
Step-next {q} stops = omega arith

Reach-next : {q r : TimerQueue} → Reach q r → q.next_timer_id ≤ r.next_timer_id
Reach-next here = omega arith
Reach-next (next r s) = omega (arith, Reach-next r, Step-next s)

-- An identifier that is not given out yet, and one that is.
Reach-fresh :
    {q r : TimerQueue} (id : ℕ) → Budget id 0 q → Reach q r → r.next_timer_id ≤ id → Budget id 0 r
Reach-fresh id b here h = b
Reach-fresh id b (next r s) h =
    Step-Budget id 0 s (inr h) (Reach-fresh id b r (omega (arith, Step-next s, h)))

Reach-Budget :
    {q r : TimerQueue} (id n : ℕ) → id < q.next_timer_id → Budget id n q → Reach q r → Budget id n r
Reach-Budget id n h b here = b
Reach-Budget id n h b (next r s) =
    Step-Budget id n s (inl (λ e. absurd (omega (arith, e, h, Reach-next r))))
      (Reach-Budget id n h b r)

empty : (id : ℕ) → Budget id 0 create
unfolding create
empty id = record { ending = tt; within = omega arith }

ends : (c : ℤ) → c ≢ negsuc 0 → is_endless c ≡ false
ends (pos n) h = refl
ends (negsuc zero) h = absurd (h refl)
ends (negsuc (suc n)) h = refl

-- However the threads go on after `createTimer`, the callback of a timer that was created with a
-- repeat count other than -1 is called no more often than that count says: n times for n above 0,
-- and once for any other.
pub create_timer_lem :
    (q r : TimerQueue) (now delay_msec skew : ℕ) (repeat : ℤ)
    → Reach create q
    → repeat ≢ negsuc 0
    → Reach (create_timer q now delay_msec skew repeat).0 r
    → calls_of (create_timer q now delay_msec skew repeat).1 r.called ≤ repeats repeat
unfolding create_timer IsEnding
create_timer_lem q r now delay_msec skew repeat reached finite after = omega (
  arith,
  (Reach-Budget id (repeats repeat) (omega arith) created after).within,
  calls_of-append id r.calling r.called,
)
  where
    id : ℕ
    id = q.next_timer_id

    timer : OptimizedTimer
    timer = new_timer q now delay_msec skew repeat

    before : Budget id 0 q
    before = Reach-fresh id (empty id) reached (omega arith)

    own : left_of id timer ≡ repeats repeat
    own = ap (λ c. if c then repeats repeat else 0) (==_refl id)

    created : Budget id (repeats repeat) (create_timer q now delay_msec skew repeat).0
    created = record {
      ending =
          push_heap-All (IsEnding id) timer q.timer_heap (λ e. ends repeat finite) before.ending;
      within = omega (arith, before.within, left-push_heap id timer q.timer_heap, own);
    }
