-- ===== src/ThreadQueue/Stopped.antt =====
-- otl_thread_queue.h: on a stopped queue no thread waits.
use otl.Common.{
  ℕ, ◌≡◌, ◌∙◌, sym, ap, inl, inr, [], arith, true, false, take, drop, Bool, ltb, leb, not, ◌&&◌,
  if◌then◌else◌,
}
use otl.ThreadQueue.{
  BlockingQueue, stored, Popped, popped, items, size_impl, append, is_full, wait_and_push_one,
  resume, pop_front, pop_timeout,
}
use otl.ThreadQueue.Order.{push_not_full, resume_lem, pop_front_lem}

stop_full : (l n : ℕ) (s : Bool) → s ≡ true → ltb 0 l && (leb l n && not s) ≡ false
stop_full l n s e = ground arith

pub stop_short : (n m : ℕ) (s : Bool) → s ≡ true → ltb n m && not s ≡ false
stop_short n m s e = ground arith

module _ {ℓ} {A : Type ℓ} where
  -- Once the queue is stopped a push, a push that has waited and a pop all go on at once: both pushes
  -- put the element at the end, also beyond the limit and with a drop function set, and the pop takes
  -- what is there, even if it is less than asked for, and returns 0 also after a timeout.
  pub stop_lem :
      (q : BlockingQueue A) (x : A) (min_num max_num : ℕ)
      → q.stop ≡ true
      → (wait_and_push_one q x ≡ stored (append q x) [])
        × (resume q x ≡ stored (append q x) [])
        × ((q' : BlockingQueue A) × (pop_front q min_num max_num
              ≡ popped q' (take max_num (items q)))
            × (items q' ≡ drop max_num (items q)))
        × (pop_timeout q ≡ popped q [])
  unfolding pop_timeout
  stop_lem q x min_num max_num e = (
    push_not_full q x open_now,
    elim (resume_lem q x) [ inl (f, _) ↦ absurd (cc (sym f ∙ open_now)) | inr (_, w) ↦ w ],
    elim (pop_front_lem q min_num max_num) [
      | inl (f, _) ↦ absurd (cc (sym f ∙ stop_short (size_impl q) min_num q.stop e))
      | inr (_, (q', w, _, k)) ↦ (q', w, k)
    ],
    ap branch e,
  )
    where
      open_now : is_full q ≡ false
      open_now = stop_full q.limit (size_impl q) q.stop e

      branch : Bool → Popped A
      branch b = if b then popped q [] else Popped.timeout
