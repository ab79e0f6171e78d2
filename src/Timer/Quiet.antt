-- ===== src/Timer/Quiet.antt =====
-- otl_timer.cpp: a timer whose copies are all invalid stays so.
use otl.Common.{
  ℕ, suc, ◌+◌, ◌<◌, ◌≡◌, inl, inr, refl, sym, ap, subst, ◌∙◌, arith, Bool, Bool-cases, true, false,
  Option, none, some, List, [], ◌∷◌, ◌++◌, if◌then◌else◌, ◌==◌, All,
}
use otl.Timer.{
  OptimizedTimer, TimerQueue, erase, contains, create_timer, invalidate, invalidate_all,
  invalidate_current, delete_timer, next_repeat, reschedule, take_timer, round, test_current,
  call_back, begun, test_valid, run_loop, stop,
}
use otl.Timer.Steps.{
  Step, creates, deletes, waits, picks, tests, calls, runs, stops, Reach, here, next, state_of,
  push_heap-All, round_keeps,
}

-- How often a timer stands in a list of calls.
abbrev pub calls_of : ℕ → List ℕ → ℕ
calls_of id [] = 0
calls_of id (i ∷ ids) = if i == id then suc (calls_of id ids) else calls_of id ids

pub calls_of-append :
    (id : ℕ) (xs ys : List ℕ) → calls_of id (xs ++ ys) ≡ calls_of id xs + calls_of id ys
calls_of-append id [] ys = omega arith
calls_of-append id (x ∷ xs) ys = go (x == id) (calls_of-append id xs ys)
  where
    go :
        (b : Bool)
        → calls_of id (xs ++ ys) ≡ calls_of id xs + calls_of id ys
        → (if b then suc (calls_of id (xs ++ ys)) else calls_of id (xs ++ ys))
          ≡ (if b then suc (calls_of id xs) else calls_of id xs) + calls_of id ys
    go true h = omega (arith, h)
    go false h = h

-- A copy of a timer with the identifier is not valid.
pub IsQuiet : ℕ → OptimizedTimer → Type 0
IsQuiet id t = t.timer_id ≡ id → t.is_valid ≡ false

abbrev pub IsQuietCurrent : ℕ → Option OptimizedTimer → Type 0
IsQuietCurrent id none = Unit
IsQuietCurrent id (some t) = IsQuiet id t

pub record Dead (id n : ℕ) (q : TimerQueue) : Type 0 where
  pub old : id < q.next_timer_id
  pub heap : All (IsQuiet id) q.timer_heap
  pub running : IsQuietCurrent id q.current
  pub calls : calls_of id (begun q) ≡ n

-- Deleting makes every copy quiet, and leaves quiet what was.
invalidate-IsQuiet : (id : ℕ) (t : OptimizedTimer) → IsQuiet id (invalidate id t)
unfolding IsQuiet
invalidate-IsQuiet id t = elim (Bool-cases (t.timer_id == id)) [
  | inl e ↦
      subst (λ b. IsQuiet id (if b then record t { is_valid = false } else t)) (sym e) (λ h. refl)
  | inr e ↦
      subst (λ b. IsQuiet id (if b then record t { is_valid = false } else t)) (sym e)
        (λ h. other e h)
]
  where
    other : (t.timer_id == id) ≡ false → t.timer_id ≡ id → t.is_valid ≡ false
    other e h = ground arith

invalidate_keeps : (id i : ℕ) (t : OptimizedTimer) → IsQuiet id t → IsQuiet id (invalidate i t)
unfolding IsQuiet
invalidate_keeps id i t q = elim (Bool-cases (t.timer_id == i)) [
  | inl e ↦
      subst (λ b. IsQuiet id (if b then record t { is_valid = false } else t)) (sym e) (λ h. refl)
  | inr e ↦ subst (λ b. IsQuiet id (if b then record t { is_valid = false } else t)) (sym e) q
]

pub invalidate_all-IsQuiet :
    (id : ℕ) (ts : List OptimizedTimer) → All (IsQuiet id) (invalidate_all id ts)
invalidate_all-IsQuiet id [] = tt
invalidate_all-IsQuiet id (t ∷ ts) = (invalidate-IsQuiet id t, invalidate_all-IsQuiet id ts)

invalidate_all_keeps :
    (id i : ℕ) (ts : List OptimizedTimer)
    → All (IsQuiet id) ts
    → All (IsQuiet id) (invalidate_all i ts)
invalidate_all_keeps id i [] ps = tt
invalidate_all_keeps id i (t ∷ ts) ps =
    (invalidate_keeps id i t ps.0, invalidate_all_keeps id i ts ps.1)

pub current_quiet :
    (id : ℕ) (o : Option OptimizedTimer) → IsQuietCurrent id (invalidate_current id o)
current_quiet id none = tt
current_quiet id (some t) = invalidate-IsQuiet id t

current_keeps :
    (id i : ℕ) (o : Option OptimizedTimer)
    → IsQuietCurrent id o
    → IsQuietCurrent id (invalidate_current i o)
current_keeps id i none p = tt
current_keeps id i (some t) p = invalidate_keeps id i t p

take-Dead :
    (id n now : ℕ) (q : TimerQueue) (t : OptimizedTimer) (ts : List OptimizedTimer) (b : Bool)
    → IsQuiet id t
    → All (IsQuiet id) ts
    → Dead id n q
    → Dead id n (take_timer now q t ts b)
unfolding IsQuiet
take-Dead id n now q t ts false qt ps d = record {
  old = d.old;
  heap = ps;
  running = qt;
  calls = d.calls;
}
take-Dead id n now q t ts true qt ps d = go (next_repeat t.repeat_count).1
  where
    t' : OptimizedTimer
    t' = record t { repeat_count = (next_repeat t.repeat_count).0 }

    go : (b : Bool) → Dead id n (reschedule now q t' ts b)
    go true = record {
      old = d.old;
      heap = push_heap-All (IsQuiet id) _ ts qt ps;
      running = qt;
      calls = d.calls;
    }
    go false = record { old = d.old; heap = ps; running = qt; calls = d.calls }

call-Dead :
    (id n : ℕ) (q : TimerQueue) (o : Option OptimizedTimer)
    → IsQuietCurrent id o
    → Dead id n q
    → Dead id n (test_current q o)
unfolding IsQuiet
call-Dead id n q none p d = d
call-Dead id n q (some t) p d = record {
  old = d.old;
  heap = d.heap;
  running = tt;
  calls = same ∙ d.calls;
}
  where
    other : t.is_valid ≡ true → (t.timer_id == id) ≡ false
    other v = elim (Bool-cases (t.timer_id == id)) [
      | inl e ↦ absurd (cc (sym v ∙ p (same_id e)))
      | inr e ↦ e
    ]
      where
        same_id : (t.timer_id == id) ≡ true → t.timer_id ≡ id
        same_id e = ground arith

    same :
        calls_of id ((if t.is_valid then t.timer_id ∷ q.calling else q.calling) ++ q.called)
        ≡ calls_of id (begun q)
    same = elim (Bool-cases t.is_valid) [
      | inl v ↦
          ap (λ b. calls_of id ((if b then t.timer_id ∷ q.calling else q.calling) ++ q.called)) v
          ∙ ap (λ b. if b then suc (calls_of id (begun q)) else calls_of id (begun q)) (other v)
      | inr v ↦
          ap (λ b. calls_of id ((if b then t.timer_id ∷ q.calling else q.calling) ++ q.called)) v
    ]

round-Dead : (id n now : ℕ) (q : TimerQueue) → Dead id n q → Dead id n (state_of (round now q))
round-Dead id n now q d =
    round_keeps {P = Dead id n} {Q = IsQuiet id}
      (λ q ts ps p. record { old = p.old; heap = ps; running = p.running; calls = p.calls })
      (take-Dead id n) now q d.heap d

Step-Dead : {q r : TimerQueue} (id n : ℕ) → Step q r → Dead id n q → Dead id n r
unfolding create_timer delete_timer test_valid call_back run_loop stop IsQuiet
Step-Dead {q} id n (creates now delay_msec skew repeat) d = record {
  old = omega (arith, d.old);
  heap = push_heap-All (IsQuiet id) _ q.timer_heap (λ e. absurd (omega (arith, d.old, e))) d.heap;
  running = d.running;
  calls = d.calls;
}
Step-Dead {q} id n (deletes i) d = elim (Bool-cases (contains i q.timer_map)) [
  | inl e ↦
      subst (λ b. Dead id n (branch b).0) (sym e)
        (record {
          old = d.old;
          heap = invalidate_all_keeps id i q.timer_heap d.heap;
          running = current_keeps id i q.current d.running;
          calls = d.calls;
        })
  | inr e ↦ subst (λ b. Dead id n (branch b).0) (sym e) d
]
  where
    branch : Bool → TimerQueue × Bool
    branch b =
        if b
        then (
          record q {
            timer_heap = invalidate_all i q.timer_heap;
            timer_map = erase i q.timer_map;
            current = invalidate_current i q.current;
          },
          true,
        )
        else (q, false)
Step-Dead {q} id n (waits now q' e) d = subst (Dead id n) (ap state_of e) (round-Dead id n now q d)
Step-Dead {q} id n (picks now q' c k e) d =
    subst (Dead id n) (ap state_of e) (round-Dead id n now q d)
Step-Dead {q} id n tests d = call-Dead id n q q.current d.running d
Step-Dead {q} id n calls d = record {
  old = d.old;
  heap = d.heap;
  running = d.running;
  calls = d.calls;
}
Step-Dead {q} id n runs d = record {
  old = d.old;
  heap = d.heap;
  running = d.running;
  calls = d.calls;
}
Step-Dead {q} id n stops d = record {
  old = d.old;
  heap = d.heap;
  running = d.running;
  calls = d.calls;
}

pub Reach-Dead : {q r : TimerQueue} (id n : ℕ) → Dead id n q → Reach q r → Dead id n r
Reach-Dead id n d here = d
Reach-Dead id n d (next r s) = Step-Dead id n s (Reach-Dead id n d r)
