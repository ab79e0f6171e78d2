-- ===== src/Timer/Steps.antt =====
-- otl_timer.cpp: the steps of the threads, and what a round keeps.
use otl.Common.{
  ℕ, ◌≡◌, inl, inr, sym, ap, subst, ◌∙◌, arith, Bool, Bool-cases, true, ltb, none, List, [], ◌∷◌,
  if◌then◌else◌, ◌==◌, All,
}
use otl.Common.Int.{ℤ}
use otl.Timer.{
  OptimizedTimer, TimerQueue, push_heap, erase, contains, create_timer, delete_timer,
  cleanup_invalid_timers, Round, exits, sleeps, takes, take_timer, choose, round, test_valid,
  call_back, run_loop, stop,
}

-- What the threads of a timer queue do: a step for each stretch under the mutex, one for the test and
-- one for the callback. The loop takes its next timer after the callback.
pub data Step (q : TimerQueue) : TimerQueue → Type 0 where
  creates :
      (now delay_msec skew : ℕ) (repeat : ℤ) → Step q (create_timer q now delay_msec skew repeat).0
  deletes : (id : ℕ) → Step q (delete_timer q id).0
  waits : (now : ℕ) (q' : TimerQueue) → round now q ≡ sleeps q' → Step q q'
  picks :
      (now : ℕ) (q' : TimerQueue)
      → q.current ≡ none
      → q.calling ≡ []
      → round now q ≡ takes q'
      → Step q q'
  tests : Step q (test_valid q)
  calls : Step q (call_back q)
  runs : Step q (run_loop q)
  stops : Step q (stop q)

pub data Reach (q : TimerQueue) : TimerQueue → Type 0 where
  here : Reach q q
  next : {r s : TimerQueue} → Reach q r → Step r s → Reach q s

pub push_heap-All :
    (P : OptimizedTimer → Type 0) (t : OptimizedTimer) (ts : List OptimizedTimer)
    → P t
    → All P ts
    → All P (push_heap t ts)
unfolding push_heap
push_heap-All P t [] p ps = (p, tt)
push_heap-All P t (u ∷ ts) p ps = elim (Bool-cases (ltb t.next_timeout u.next_timeout)) [
  | inl e ↦ subst (λ b. All P (if b then t ∷ u ∷ ts else u ∷ push_heap t ts)) (sym e) (p, ps)
  | inr e ↦
      subst (λ b. All P (if b then t ∷ u ∷ ts else u ∷ push_heap t ts)) (sym e)
        (ps.0, push_heap-All P t ts p ps.1)
]

pub cleanup-All :
    (P : OptimizedTimer → Type 0) (ts : List OptimizedTimer)
    → All P ts
    → All P (cleanup_invalid_timers ts)
unfolding cleanup_invalid_timers
cleanup-All P [] ps = tt
cleanup-All P (t ∷ ts) ps = elim (Bool-cases t.is_valid) [
  | inl e ↦ subst (λ b. All P (if b then t ∷ ts else cleanup_invalid_timers ts)) (sym e) ps
  | inr e ↦
      subst (λ b. All P (if b then t ∷ ts else cleanup_invalid_timers ts)) (sym e)
        (cleanup-All P ts ps.1)
]

pub erase-All : (P : ℕ → Type 0) (id : ℕ) (ids : List ℕ) → All P ids → All P (erase id ids)
unfolding erase
erase-All P id [] ps = tt
erase-All P id (i ∷ ids) ps = elim (Bool-cases (i == id)) [
  | inl e ↦
      subst (λ b. All P (if b then erase id ids else i ∷ erase id ids)) (sym e)
        (erase-All P id ids ps.1)
  | inr e ↦
      subst (λ b. All P (if b then erase id ids else i ∷ erase id ids)) (sym e)
        (ps.0, erase-All P id ids ps.1)
]

pub contains-All :
    (P : ℕ → Type 0) (id : ℕ) (ids : List ℕ) → All P ids → contains id ids ≡ true → P id
unfolding contains
contains-All P id [] ps h = absurd (cc h)
contains-All P id (i ∷ ids) ps h = elim (Bool-cases (i == id)) [
  | inl e ↦ subst P (same e) ps.0
  | inr e ↦ contains-All P id ids ps.1 (sym (ap (λ b. if b then true else contains id ids) e) ∙ h)
]
  where
    same : (i == id) ≡ true → i ≡ id
    same e = ground arith

abbrev pub state_of : Round → TimerQueue
state_of (exits q) = q
state_of (sleeps q) = q
state_of (takes q) = q

-- A part of the state that a round keeps, whatever it takes.
pub round_keeps :
    {P : TimerQueue → Type 0} {Q : OptimizedTimer → Type 0}
    → ((q : TimerQueue) (ts : List OptimizedTimer)
        → All Q ts
        → P q
        → P (record q { timer_heap = ts }))
    → ((now : ℕ) (q : TimerQueue) (t : OptimizedTimer) (ts : List OptimizedTimer) (b : Bool)
        → Q t
        → All Q ts
        → P q
        → P (take_timer now q t ts b))
    → (now : ℕ) (q : TimerQueue) → All Q q.timer_heap
    → P q
    → P (state_of (round now q))
unfolding round
round_keeps {P} {Q} keep_heap keep_take now q qs p = elim (Bool-cases q.is_running) [
  | inr e ↦ subst (λ b. P (state_of (if b then choose now cleaned heap else exits q))) (sym e) p
  | inl e ↦
      subst (λ b. P (state_of (if b then choose now cleaned heap else exits q))) (sym e)
        (go heap (cleanup-All Q q.timer_heap qs))
]
  where
    heap : List OptimizedTimer
    heap = cleanup_invalid_timers q.timer_heap

    cleaned : TimerQueue
    cleaned = record q { timer_heap = heap }

    p' : P cleaned
    p' = keep_heap q heap (cleanup-All Q q.timer_heap qs) p

    go : (ts : List OptimizedTimer) → All Q ts → P (state_of (choose now cleaned ts))
    go [] ps = p'
    go (t ∷ ts) ps = elim (Bool-cases (ltb now t.next_timeout)) [
      | inl e ↦
          subst
            (λ b. P (
              state_of
                (if b then sleeps cleaned else takes (take_timer now cleaned t ts t.is_valid))))
            (sym e) p'
      | inr e ↦
          subst
            (λ b. P (
              state_of
                (if b then sleeps cleaned else takes (take_timer now cleaned t ts t.is_valid))))
            (sym e) (keep_take now cleaned t ts t.is_valid ps.0 ps.1 p')
    ]

abbrev pub Anything : OptimizedTimer → Type 0
Anything t = Unit

pub every : (ts : List OptimizedTimer) → All Anything ts
every [] = tt
every (t ∷ ts) = (tt, every ts)
