-- ===== src/Timer/Counts.antt =====
-- otl_timer.cpp: the calls that are left to a timer.
use otl.Common.{
  ℕ, zero, suc, ◌+◌, ◌≤◌, ◌≡◌, inl, inr, refl, sym, ap, subst, ◌∙◌, arith, Bool, Bool-cases, true,
  false, ltb, Option, none, some, List, [], ◌∷◌, if◌then◌else◌, ◌==◌, All,
}
use otl.Common.Int.{ℤ, pos, negsuc}
use otl.Timer.{
  OptimizedTimer, TimerQueue, push_heap, invalidate, invalidate_all, invalidate_current,
  cleanup_invalid_timers, next_repeat, again, reschedule, take_timer, begun,
}
use otl.Timer.Steps.{push_heap-All}
use otl.Timer.Quiet.{calls_of}

-- The calls that a repeat count stands for; -1 is without end.
abbrev pub repeats : ℤ → ℕ
repeats (pos zero) = 1
repeats (pos (suc n)) = suc n
repeats (negsuc n) = 1

abbrev pub is_endless : ℤ → Bool
is_endless (negsuc zero) = true
is_endless (negsuc (suc n)) = false
is_endless (pos n) = false

-- The calls that are left to the copies of a timer in the heap, and to the current one.
abbrev pub left_of : ℕ → OptimizedTimer → ℕ
left_of id t = if t.timer_id == id then repeats t.repeat_count else 0

abbrev pub left : ℕ → List OptimizedTimer → ℕ
left id [] = 0
left id (t ∷ ts) = left_of id t + left id ts

abbrev pub pending : ℕ → Option OptimizedTimer → ℕ
pending id none = 0
pending id (some t) = if t.timer_id == id then 1 else 0

unfoldable pub IsEnding : ℕ → OptimizedTimer → Type 0
IsEnding id t = t.timer_id ≡ id → is_endless t.repeat_count ≡ false

pub record Budget (id n : ℕ) (q : TimerQueue) : Type 0 where
  pub ending : All (IsEnding id) q.timer_heap
  pub within : calls_of id (begun q) + pending id q.current + left id q.timer_heap ≤ n

pub left-push_heap :
    (id : ℕ) (t : OptimizedTimer) (ts : List OptimizedTimer)
    → left id (push_heap t ts) ≡ left id (t ∷ ts)
unfolding push_heap
left-push_heap id t [] = refl
left-push_heap id t (u ∷ ts) = elim (Bool-cases (ltb t.next_timeout u.next_timeout)) [
  | inl e ↦ ap (λ b. left id (if b then t ∷ u ∷ ts else u ∷ push_heap t ts)) e
  | inr e ↦
      ap (λ b. left id (if b then t ∷ u ∷ ts else u ∷ push_heap t ts)) e
      ∙ swap (left_of id t) (left_of id u) (left id ts) (left id (push_heap t ts))
          (left-push_heap id t ts)
]
  where
    swap : (a b c d : ℕ) → d ≡ a + c → b + d ≡ a + (b + c)
    swap a b c d h = omega arith

pub left-cleanup :
    (id : ℕ) (ts : List OptimizedTimer) → left id (cleanup_invalid_timers ts) ≤ left id ts
unfolding cleanup_invalid_timers
left-cleanup id [] = omega arith
left-cleanup id (t ∷ ts) = elim (Bool-cases t.is_valid) [
  | inl e ↦
      subst (λ b. left id (if b then t ∷ ts else cleanup_invalid_timers ts) ≤ left id (t ∷ ts))
        (sym e) (omega arith)
  | inr e ↦
      subst (λ b. left id (if b then t ∷ ts else cleanup_invalid_timers ts) ≤ left id (t ∷ ts))
        (sym e) (omega (arith, left-cleanup id ts))
]

-- Invalidating changes no count and no identifier.
invalidate_id : (i : ℕ) (t : OptimizedTimer) → (invalidate i t).timer_id ≡ t.timer_id
invalidate_id i t = elim (Bool-cases (t.timer_id == i)) [
  | inl e ↦ ap (λ b. (if b then record t { is_valid = false } else t).timer_id) e
  | inr e ↦ ap (λ b. (if b then record t { is_valid = false } else t).timer_id) e
]

invalidate_count : (i : ℕ) (t : OptimizedTimer) → (invalidate i t).repeat_count ≡ t.repeat_count
invalidate_count i t = elim (Bool-cases (t.timer_id == i)) [
  | inl e ↦ ap (λ b. (if b then record t { is_valid = false } else t).repeat_count) e
  | inr e ↦ ap (λ b. (if b then record t { is_valid = false } else t).repeat_count) e
]

pub left-invalidate :
    (id i : ℕ) (ts : List OptimizedTimer) → left id (invalidate_all i ts) ≡ left id ts
left-invalidate id i [] = refl
left-invalidate id i (t ∷ ts) =
    ap
      (λ k.
        (if k == id then repeats (invalidate i t).repeat_count else 0)
        + left id (invalidate_all i ts))
      (invalidate_id i t)
    ∙ ap (λ c. (if t.timer_id == id then repeats c else 0) + left id (invalidate_all i ts))
        (invalidate_count i t)
    ∙ ap (λ k. left_of id t + k) (left-invalidate id i ts)

pub invalidate-IsEnding :
    (id i : ℕ) (ts : List OptimizedTimer)
    → All (IsEnding id) ts
    → All (IsEnding id) (invalidate_all i ts)
unfolding IsEnding
invalidate-IsEnding id i [] ps = tt
invalidate-IsEnding id i (t ∷ ts) ps = (
  (λ e. ap is_endless (invalidate_count i t) ∙ ps.0 (sym (invalidate_id i t) ∙ e)),
  invalidate-IsEnding id i ts ps.1,
)

pub pending-invalidate :
    (id i : ℕ) (o : Option OptimizedTimer) → pending id (invalidate_current i o) ≡ pending id o
pending-invalidate id i none = refl
pending-invalidate id i (some t) = ap (λ k. if k == id then 1 else 0) (invalidate_id i t)

-- The count after a call stands for a call less.
next_repeat_lem :
    (c : ℤ)
    → is_endless c ≡ false
    → (is_endless (next_repeat c).0 ≡ false)
      × ((if (next_repeat c).1 then repeats (next_repeat c).0 else 0) + 1 ≤ repeats c)
unfolding next_repeat
next_repeat_lem (pos zero) h = (refl, omega arith)
next_repeat_lem (pos (suc zero)) h = (refl, omega arith)
next_repeat_lem (pos (suc (suc n))) h = (refl, grind arith)
next_repeat_lem (negsuc zero) h = absurd (cc h)
next_repeat_lem (negsuc (suc n)) h = (refl, omega arith)

repeats_positive : (c : ℤ) → 1 ≤ repeats c
repeats_positive (pos zero) = omega arith
repeats_positive (pos (suc n)) = omega arith
repeats_positive (negsuc n) = omega arith

after_call : OptimizedTimer → OptimizedTimer
after_call t = record t { repeat_count = (next_repeat t.repeat_count).0 }

-- A timer that is taken spends one of its calls.
spend :
    (id : ℕ) (t : OptimizedTimer) (b : Bool)
    → IsEnding id t
    → b ≡ (next_repeat t.repeat_count).1
    → IsEnding id (after_call t)
      × (pending id (some t) + (if b then left_of id (after_call t) else 0) ≤ left_of id t)
unfolding IsEnding after_call
spend id t b e h = (
  (λ k. (next_repeat_lem t.repeat_count (e k)).0),
  elim (Bool-cases (t.timer_id == id)) [
    | inl d ↦ rw d (
        subst
          (λ b.
            1 + (if b then repeats (next_repeat t.repeat_count).0 else 0) ≤ repeats t.repeat_count)
          (sym h) (omega (arith, (next_repeat_lem t.repeat_count (e (same d))).1)))
    | inr d ↦ rw d (none_left b)
  ],
)
  where
    same : (t.timer_id == id) ≡ true → t.timer_id ≡ id
    same d = ground arith

    none_left : (b : Bool) → 0 + (if b then 0 else 0) ≤ 0
    none_left true = omega arith
    none_left false = omega arith

pending_le : (id : ℕ) (t : OptimizedTimer) → pending id (some t) ≤ left_of id t
pending_le id t = elim (Bool-cases (t.timer_id == id)) [
  | inl d ↦ rw d (repeats_positive t.repeat_count)
  | inr d ↦ rw d (omega arith)
]

pub take-Budget :
    (id n now : ℕ) (q : TimerQueue) (t : OptimizedTimer) (ts : List OptimizedTimer) (b : Bool)
    → IsEnding id t
    → All (IsEnding id) ts
    → calls_of id (begun q) + left id (t ∷ ts) ≤ n
    → Budget id n (take_timer now q t ts b)
unfolding after_call IsEnding
take-Budget id n now q t ts false e ps w = record {
  ending = ps;
  within = omega (arith, pending_le id t, w);
}
take-Budget id n now q t ts true e ps w = go (next_repeat t.repeat_count).1 refl
  where
    go :
        (b : Bool)
        → b ≡ (next_repeat t.repeat_count).1
        → Budget id n
            (reschedule now q (record t { repeat_count = (next_repeat t.repeat_count).0 }) ts b)
    go true h =
        let s = spend id t true e h in
        record {
          ending = push_heap-All (IsEnding id) _ ts s.0 ps;
          within = omega (arith, s.1, w, left-push_heap id (again now (after_call t)) ts);
        }
    go false h =
        let s = spend id t false e h in record { ending = ps; within = omega (arith, s.1, w) }
