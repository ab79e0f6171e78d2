-- ===== src/ThreadQueue/Halves.antt =====
-- otl_thread_queue.h: `drop_half_` keeps every second element.
use mathlib.Core.List.{Perm, perm_middle}
use mathlib.Core.List.Perm
use otl.Common.{
  ℕ, ◌+◌, ◌/◌, ◌%◌, ◌≡◌, refl, ap, ap₂, ◌∙◌, List, [], ◌∷◌, ◌++◌, append-nil, append_assoc, arith,
  length,
}
use otl.ThreadQueue.{BlockingQueue, items, with_items, drop_loop, drop_half}

module _ {ℓ} {A : Type ℓ} where
  -- The elements at the even and at the odd positions.
  abbrev pub evens : List A → List A
  evens [] = []
  evens (x ∷ []) = x ∷ []
  evens (x ∷ y ∷ xs) = x ∷ evens xs

  abbrev pub odds : List A → List A
  odds [] = []
  odds (x ∷ []) = []
  odds (x ∷ y ∷ xs) = y ∷ odds xs

  drop_loop-even :
      (xs : List A) (i : ℕ) (temp dropped : List A)
      → i % 2 ≡ 0
      → drop_loop xs i temp dropped ≡ (temp ++ evens xs, dropped ++ odds xs)
  unfolding drop_loop
  drop_loop-even [] i temp dropped e = rw (append-nil temp, append-nil dropped)
  drop_loop-even (x ∷ []) i temp dropped e = rw (e, append-nil dropped)
  drop_loop-even (x ∷ y ∷ xs) i temp dropped e =
      rw (e, odd)
        (drop_loop-even xs (i + 1 + 1) (temp ++ (x ∷ [])) (dropped ++ (y ∷ [])) (omega arith)
          ∙ ap₂ (λ a b. (a, b)) (append_assoc temp (x ∷ []) (evens xs))
              (append_assoc dropped (y ∷ []) (odds xs)))
    where
      odd : (i + 1) % 2 ≡ 1
      odd = omega arith

  pub length-evens : (xs : List A) → length (evens xs) ≡ (length xs + 1) / 2
  length-evens [] = refl
  length-evens (x ∷ []) = refl
  length-evens (x ∷ y ∷ xs) = omega (arith, length-evens xs)

  evens-odds-perm : (xs : List A) → Perm (evens xs ++ odds xs) xs
  evens-odds-perm [] = Perm.refl []
  evens-odds-perm (x ∷ []) = Perm.refl (x ∷ [])
  evens-odds-perm (x ∷ y ∷ xs) =
      Perm.cons x (Perm.trans (perm_middle (evens xs) (odds xs)) (Perm.cons y (evens-odds-perm xs)))

  -- `drop_half_` keeps the elements at the even positions, in their order, gives those at the odd
  -- positions to the drop function, in their order, and loses none; half of them stay, rounded up.
  pub drop_half_lem :
      (q : BlockingQueue A)
      → (drop_half q ≡ (with_items q (evens (items q)), odds (items q)))
        × Perm (evens (items q) ++ odds (items q)) (items q)
        × (length (evens (items q)) ≡ (length (items q) + 1) / 2)
  unfolding drop_half
  drop_half_lem q = (
    ap (λ r. (with_items q r.0, r.1)) (drop_loop-even (items q) 0 [] [] refl),
    evens-odds-perm (items q),
    length-evens (items q),
  )
