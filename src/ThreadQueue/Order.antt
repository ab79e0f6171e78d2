-- ===== src/ThreadQueue/Order.antt =====
-- otl_thread_queue.h: the order of elements, and the bound on their number.
use otl.Common.{
  ℕ, zero, suc, ◌≡◌, ◌⊎◌, inl, inr, refl, sym, ap, subst, ◌∙◌, List, [], ◌∷◌, ◌++◌, arith, ◌==◌,
  if◌then◌else◌, Bool, Bool-cases, true, false, take, drop, not, ◌&&◌, ltb,
}
use otl.ThreadQueue.{
  BlockingQueue, Pushed, waits, stored, Popped, popped, items, with_items, size_impl, append,
  is_full, drop_half, wait_and_push_one, resume, move_out, pop_front, drop_front,
}
use otl.ThreadQueue.Halves.{evens, odds, drop_half_lem}

module _ {ℓ} {A : Type ℓ} where
  pub items-with : (q : BlockingQueue A) (xs : List A) → items (with_items q xs) ≡ xs
  items-with q xs = ground arith

  pub move_out_lem : (n : ℕ) (xs : List A) → move_out n xs ≡ (take n xs, drop n xs)
  unfolding move_out
  move_out_lem zero xs = refl
  move_out_lem (suc n) [] = refl
  move_out_lem (suc n) (x ∷ xs) = ap (λ r. (x ∷ r.0, r.1)) (move_out_lem n xs)

  -- The settings of a queue, which only `stop` and `set_drop_fn` change.
  pub record SameSettings (q r : BlockingQueue A) : Type ℓ where
    pub type_same : r.type ≡ q.type
    pub limit_same : r.limit ≡ q.limit
    pub stop_same : r.stop ≡ q.stop
    pub drops_same : r.drops ≡ q.drops

  pub with_items-SameSettings :
      (q : BlockingQueue A) (xs : List A) → SameSettings q (with_items q xs)
  with_items-SameSettings q xs = elim (Bool-cases (q.type == 0)) [
    | inl e ↦
        rw e (record { type_same = refl; limit_same = refl; stop_same = refl; drops_same = refl })
    | inr e ↦
        rw e (record { type_same = refl; limit_same = refl; stop_same = refl; drops_same = refl })
  ]

  -- What a push comes to: a wait, or a queue that holds what was kept and then the element.
  abbrev pub PushOutcome : BlockingQueue A → A → Pushed A → Type ℓ
  PushOutcome q x r =
      ((is_full q ≡ true) × (q.drops ≡ false) × (r ≡ waits))
      ⊎ ((q' : BlockingQueue A) × (kept lost : List A) × (r ≡ stored q' lost)
          × SameSettings q q'
          × (items q' ≡ kept ++ (x ∷ []))
          × (((is_full q ≡ false) × (kept ≡ items q) × (lost ≡ []))
              ⊎ ((is_full q ≡ true)
                  × (q.drops ≡ true)
                  × (kept ≡ evens (items q))
                  × (lost ≡ odds (items q)))))

  append-items :
      (q : BlockingQueue A) (xs : List A) (x : A)
      → items (append (with_items q xs) x) ≡ xs ++ (x ∷ [])
  append-items q xs x =
      items-with (with_items q xs) (items (with_items q xs) ++ (x ∷ []))
      ∙ ap (λ l. l ++ (x ∷ [])) (items-with q xs)

  SameSettings-trans :
      {p q r : BlockingQueue A} → SameSettings p q → SameSettings q r → SameSettings p r
  SameSettings-trans a b = record {
    type_same = b.type_same ∙ a.type_same;
    limit_same = b.limit_same ∙ a.limit_same;
    stop_same = b.stop_same ∙ a.stop_same;
    drops_same = b.drops_same ∙ a.drops_same;
  }

  store_end :
      (q : BlockingQueue A) (x : A) → is_full q ≡ false → PushOutcome q x (stored (append q x) [])
  store_end q x e = inr (
    append q x,
    items q,
    [],
    refl,
    with_items-SameSettings q (items q ++ (x ∷ [])),
    items-with q (items q ++ (x ∷ [])),
    inl (e, refl, refl),
  )

  -- A push waits exactly if the queue is full and no drop function is set. Otherwise the element
  -- goes to the end: of the whole queue, or, if it is full, of the elements at its even positions,
  -- those at its odd positions being dropped.
  pub wait_and_push_one_lem :
      (q : BlockingQueue A) (x : A) → PushOutcome q x (wait_and_push_one q x)
  unfolding wait_and_push_one
  wait_and_push_one_lem q x = elim (Bool-cases (is_full q)) [
    | inr e ↦ subst (PushOutcome q x) (sym (ap branch e)) (store_end q x e)
    | inl e ↦ elim (Bool-cases q.drops) [
      | inr d ↦ inl (e, d, ap branch e ∙ ap (λ b. if b then dropping else waits) d)
      | inl d ↦ inr (
        append (with_items q (evens (items q))) x,
        evens (items q),
        odds (items q),
        ap branch e
            ∙ ap (λ b. if b then dropping else waits) d
            ∙ (ap (λ h. stored (append h.0 x) h.1) (drop_half_lem q).0),
        SameSettings-trans (with_items-SameSettings q (evens (items q)))
            (with_items-SameSettings (with_items q (evens (items q))) _),
        append-items q (evens (items q)) x,
        inr (e, d, refl, refl),
      )
    ]
  ]
    where
      dropping : Pushed A
      dropping = stored (append (drop_half q).0 x) (drop_half q).1

      branch : Bool → Pushed A
      branch b = if b then (if q.drops then dropping else waits) else stored (append q x) []

  pub push_not_full :
      (q : BlockingQueue A) (x : A)
      → is_full q ≡ false
      → wait_and_push_one q x ≡ stored (append q x) []
  unfolding wait_and_push_one
  push_not_full q x e = ap branch e
    where
      branch : Bool → Pushed A
      branch b =
          if b
          then (if q.drops then stored (append (drop_half q).0 x) (drop_half q).1 else waits)
          else stored (append q x) []

  -- A push that has waited goes on exactly if the queue is no longer full, and never drops.
  pub resume_lem :
      (q : BlockingQueue A) (x : A)
      → ((is_full q ≡ true) × (resume q x ≡ waits))
        ⊎ ((is_full q ≡ false) × (resume q x ≡ stored (append q x) []))
  unfolding resume
  resume_lem q x = elim (Bool-cases (is_full q)) [
    | inl e ↦ inl (e, rw (e, resume) refl)
    | inr e ↦ inr (e, rw (e, resume) refl)
  ]

  -- What a pop comes to.
  abbrev pub PopOutcome : BlockingQueue A → ℕ → ℕ → Popped A → Type ℓ
  PopOutcome q min_num max_num r =
      ((ltb (size_impl q) min_num && not q.stop ≡ true) × (r ≡ Popped.waits))
      ⊎ ((ltb (size_impl q) min_num && not q.stop ≡ false)
          × ((q' : BlockingQueue A) × (r ≡ popped q' (take max_num (items q)))
              × SameSettings q q'
              × (items q' ≡ drop max_num (items q))))

  -- A pop waits exactly while there are too few elements and the queue is not stopped. Otherwise it
  -- takes the oldest elements, in order and as many as it may, and leaves the others.
  pub pop_front_lem :
      (q : BlockingQueue A) (min_num max_num : ℕ)
      → PopOutcome q min_num max_num (pop_front q min_num max_num)
  unfolding pop_front
  pop_front_lem q min_num max_num = elim (Bool-cases (ltb (size_impl q) min_num && not q.stop)) [
    | inl e ↦ inl (e, ap branch e)
    | inr e ↦ inr (
      e,
      (
        with_items q (drop max_num (items q)),
        ap branch e
            ∙ ap (λ (r : List A × List A). popped (with_items q r.1) r.0)
                (move_out_lem max_num (items q)),
        with_items-SameSettings q (drop max_num (items q)),
        items-with q (drop max_num (items q)),
      ),
    )
  ]
    where
      branch : Bool → Popped A
      branch b =
          if b
          then Popped.waits
          else popped (with_items q (move_out max_num (items q)).1) (move_out max_num (items q)).0

  -- `drop` takes the oldest elements away, all of them for 0, and nothing if there are fewer.
  abbrev pub drop_num : BlockingQueue A → ℕ → ℕ
  drop_num q num =
      let n = if num == 0 then size_impl q else num in if ltb (size_impl q) n then 0 else n

  pub drop_front_lem :
      (q : BlockingQueue A) (num : ℕ)
      → SameSettings q (drop_front q num)
        × (items (drop_front q num) ≡ drop (drop_num q num) (items q))
  unfolding drop_front
  drop_front_lem q num = go (ltb (size_impl q) n)
    where
      n : ℕ
      n = if num == 0 then size_impl q else num

      go :
          (b : Bool)
          → SameSettings q (if b then q else with_items q (move_out n (items q)).1)
            × (items (if b then q else with_items q (move_out n (items q)).1)
                ≡ drop (if b then 0 else n) (items q))
      go true = (
        record { type_same = refl; limit_same = refl; stop_same = refl; drops_same = refl },
        refl,
      )
      go false = (
        with_items-SameSettings q _,
        items-with q _ ∙ ap (λ (r : List A × List A). r.1) (move_out_lem n (items q)),
      )
