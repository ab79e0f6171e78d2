-- ===== src/ThreadQueue/Threads.antt =====
-- otl_thread_queue.h: any number of producers and consumers on one `BlockingQueue`. A step is a
-- stretch under the mutex; a push of several elements is several steps of one thread.
use otl.Common.{
  ℕ, zero, suc, ◌-◌, ◌≤◌, length, length-drop, take, drop, ◌≡◌, ◌⊎◌, inl, inr, refl, sym, ap, ◌∙◌,
  List, [], ◌∷◌, ◌++◌, append_assoc, arith, Bool, Bool-cases, ◌==◌, true,
}
use otl.ThreadQueue.{
  BlockingQueue, waits, stored, popped, items, wait_and_push_one, resume, pop_front, drop_front,
  stop, create, set_drop_fn,
}
use otl.ThreadQueue.Order.{drop_front_lem, drop_num}
use otl.ThreadQueue.Bound.{
  IsWithin, Grown, Shrunk, push-Grown, resume-Grown, pop-Shrunk, Shrunk-IsWithin,
}

-- The queue, the elements whose push waits, those that were put into the queue so far, oldest first,
-- and those that have left it at the front.
pub record System {ℓ} (A : Type ℓ) : Type ℓ where
  pub bq : BlockingQueue A
  pub waiting : List A
  pub accepted : List A
  pub removed : List A

module _ {ℓ} {A : Type ℓ} where
  -- What an operation has taken from the front: as many elements as there are fewer.
  abbrev pub gone : List A → List A → List A
  gone before after = take (length before - length after) before

  gone-drop : (n : ℕ) (xs : List A) → gone xs (drop n xs) ++ drop n xs ≡ xs
  gone-drop zero xs =
      ap (λ k. take k xs ++ xs) (let e : length xs - length xs ≡ 0 = omega arith in e)
  gone-drop (suc n) [] = refl
  gone-drop (suc n) (x ∷ xs) =
      ap (λ k. take k (x ∷ xs) ++ drop n xs)
        (one (length (drop n xs)) (omega (arith, length-drop n xs)))
      ∙ ap (λ l. x ∷ l) (gone-drop n xs)
    where
      one : (m : ℕ) → m ≤ length xs → length (x ∷ xs) - m ≡ suc (length xs - m)
      one m h = omega (arith, h)

  pub data Step (s : System A) : System A → Type ℓ where
    push :
        (x : A) (q : BlockingQueue A) (lost : List A)
        → wait_and_push_one s.bq x ≡ stored q lost
        → Step s (record s { bq = q; accepted = s.accepted ++ (x ∷ []) })
    block :
        (x : A) → wait_and_push_one s.bq x ≡ waits → Step s (record s { waiting = x ∷ s.waiting })
    wake :
        (before after : List A) (x : A) (q : BlockingQueue A) (lost : List A)
        → s.waiting ≡ before ++ (x ∷ after)
        → resume s.bq x ≡ stored q lost
        → Step s (record s { bq = q; waiting = before ++ after; accepted = s.accepted ++ (x ∷ []) })
    pop :
        (min_num max_num : ℕ) (q : BlockingQueue A) (out : List A)
        → pop_front s.bq min_num max_num ≡ popped q out
        → Step s (record s { bq = q; removed = s.removed ++ out })
    discard :
        (num : ℕ)
        → Step s (record s {
          bq = drop_front s.bq num;
          removed = s.removed ++ gone (items s.bq) (items (drop_front s.bq num));
        })
    halt : Step s (record s { bq = stop s.bq })

  pub data Reach (s : System A) : System A → Type ℓ where
    here : Reach s s
    next : {t u : System A} → Reach s t → Step t u → Reach s u

  abbrev pub initial : BlockingQueue A → System A
  initial q = record { bq = q; waiting = []; accepted = []; removed = [] }

  -- What was accepted has left at the front or is in the queue, in the order of the pushes, unless
  -- there is a drop function.
  abbrev pub InOrder : System A → Type ℓ
  InOrder s = (s.bq.drops ≡ true) ⊎ (s.accepted ≡ s.removed ++ items s.bq)

  pub record Inv (s : System A) : Type ℓ where
    pub within : IsWithin s.bq
    pub ordered : InOrder s

  Grown-Inv :
      (s : System A) (x : A) (r : BlockingQueue A) (waiting : List A)
      → Grown s.bq x r
      → Inv s
      → Inv (record s { bq = r; waiting = waiting; accepted = s.accepted ++ (x ∷ []) })
  Grown-Inv s x r waiting g v = record {
    within = g.within v.within;
    ordered = elim v.ordered [
      | inl d ↦ inl (g.settings.drops_same ∙ d)
      | inr o ↦ elim g.ordered [
        | inl d ↦ inl (g.settings.drops_same ∙ d)
        | inr k ↦ inr (
            ap (λ l. l ++ (x ∷ [])) o
            ∙ append_assoc s.removed (items s.bq) (x ∷ [])
            ∙ ap (◌++◌ s.removed) (sym k))
      ]
    ];
  }

  Shrunk-Inv :
      (s : System A) (out : List A) (r : BlockingQueue A)
      → Shrunk s.bq out r
      → Inv s
      → Inv (record s { bq = r; removed = s.removed ++ out })
  Shrunk-Inv s out r g v = record {
    within = Shrunk-IsWithin g v.within;
    ordered = elim v.ordered [
      | inl d ↦ inl (g.settings.drops_same ∙ d)
      | inr o ↦ inr (o ∙ ap (◌++◌ s.removed) g.split ∙ sym (append_assoc s.removed out (items r)))
    ];
  }

  pub Step-Inv : {s t : System A} → Step s t → Inv s → Inv t
  unfolding stop
  Step-Inv {s} (push x q lost e) v = Grown-Inv s x q s.waiting (push-Grown s.bq x q lost e) v
  Step-Inv {s} (block x e) v = record { within = v.within; ordered = v.ordered }
  Step-Inv {s} (wake before after x q lost w e) v =
      Grown-Inv s x q (before ++ after) (resume-Grown s.bq x q lost e) v
  Step-Inv {s} (pop min_num max_num q out e) v =
      Shrunk-Inv s out q (pop-Shrunk s.bq q min_num max_num out e) v
  Step-Inv {s} (discard num) v =
      let k = drop_front_lem s.bq num in
      Shrunk-Inv s (gone (items s.bq) (items (drop_front s.bq num))) (drop_front s.bq num)
        (record {
          settings = k.0;
          split =
              sym (gone-drop (drop_num s.bq num) (items s.bq))
              ∙ ap (λ l. gone (items s.bq) l ++ l) (sym k.1);
        })
        v
  Step-Inv {s} halt v = record { within = inl refl; ordered = v.ordered }

  Reach-Inv : {s t : System A} → Inv s → Reach s t → Inv t
  Reach-Inv v here = v
  Reach-Inv v (next r st) = Step-Inv st (Reach-Inv v r)

  new-Inv :
      (type limit : ℕ) (given : Bool)
      → Inv (initial (set_drop_fn (create {A = A} type limit) given).0)
  unfolding create set_drop_fn
  new-Inv type limit given = record {
    within = inr (inr (rw bare (omega arith)));
    ordered = inr (sym bare);
  }
    where
      bare : items {A = A} (set_drop_fn (create type limit) given).0 ≡ []
      bare = elim (Bool-cases (type == 0)) [ inl e ↦ rw e refl | inr e ↦ rw e refl ]

  -- However producers and consumers take turns on a new queue, of either container and with any
  -- limit, with or without a drop function: if the queue has a limit and is not stopped it holds no
  -- more than its limit, or 2 for the limit 1 with a drop function; and without a drop function the
  -- elements leave it in the order in which they were put in, none lost and none made up.
  pub Reach-create :
      (type limit : ℕ) (given : Bool) (s : System A)
      → Reach (initial (set_drop_fn (create type limit) given).0) s
      → IsWithin s.bq × InOrder s
  Reach-create type limit given s r =
      let v = Reach-Inv (new-Inv type limit given) r in (v.within, v.ordered)
