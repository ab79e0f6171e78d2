-- ===== src/ThreadQueue/Bound.antt =====
-- otl_thread_queue.h: what a push and a pop do to the number of elements and to their order.
use otl.Common.{
  ℕ, ◌+◌, ◌/◌, ◌≤◌, ◌≡◌, ◌⊎◌, inl, inr, refl, sym, ap, ap₂, subst, ◌∙◌, List, [], ◌∷◌, ◌++◌, arith,
  if◌then◌else◌, Bool, length, length-append, true, false, take-append-drop, max, not, ◌&&◌, ltb,
  leb,
}
use otl.ThreadQueue.{
  BlockingQueue, stored, popped, items, size_impl, append, is_full, wait_and_push_one, resume,
  pop_front, stop,
}
use otl.ThreadQueue.Halves.{evens, length-evens}
use otl.ThreadQueue.Order.{
  SameSettings, wait_and_push_one_lem, resume_lem, pop_front_lem, with_items-SameSettings,
  items-with,
}

-- The most elements that a queue which is not stopped holds, if it has a limit: with a drop function
-- the limit 1 is kept as 2.
abbrev pub bound : ℕ → Bool → ℕ
bound limit drops = if drops then max limit 2 else limit

abbrev pub Within : Bool → ℕ → Bool → ℕ → Type 0
Within stop limit drops n = (stop ≡ true) ⊎ ((limit ≡ 0) ⊎ (n ≤ bound limit drops))

Within-same :
    (s : Bool) (l : ℕ) (d : Bool) (n : ℕ) (s' : Bool) (l' : ℕ) (d' : Bool) (n' : ℕ)
    → s' ≡ s
    → l' ≡ l
    → d' ≡ d
    → n' ≡ n
    → Within s l d n
    → Within s' l' d' n'
Within-same s l d n s' l' d' n' es el ed en w = rw (es, el, ed, en) w

Within-le : (s : Bool) (l : ℕ) (d : Bool) (m n : ℕ) → m ≤ n → Within s l d n → Within s l d m
Within-le s l d m n h w = ground arith

abbrev full : Bool → ℕ → ℕ → Bool
full stop limit n = ltb 0 limit && (leb limit n && not stop)

end_room :
    (stop : Bool) (limit : ℕ) (drops : Bool) (n : ℕ)
    → full stop limit n ≡ false
    → Within stop limit drops (n + 1)
end_room stop limit drops n h = ground arith

full_room :
    (stop : Bool) (limit : ℕ) (drops : Bool) (n m : ℕ)
    → full stop limit n ≡ true
    → drops ≡ true
    → m ≡ (n + 1) / 2
    → Within stop limit drops n
    → Within stop limit drops (m + 1)
full_room stop limit drops n m h d e w = ground arith

module _ {ℓ} {A : Type ℓ} where
  abbrev pub IsWithin : BlockingQueue A → Type 0
  IsWithin q = Within q.stop q.limit q.drops (size_impl q)

  stored-injective : {q r : BlockingQueue A} {k l : List A} → stored q k ≡ stored r l → q ≡ r
  stored-injective e = cc

  pub popped-injective :
      {q r : BlockingQueue A} {k l : List A} → popped q k ≡ popped r l → (q ≡ r) × (k ≡ l)
  popped-injective e = (cc, cc)

  keeps-Within :
      (q r : BlockingQueue A) (n : ℕ)
      → SameSettings q r
      → size_impl r ≡ n
      → Within q.stop q.limit q.drops n
      → IsWithin r
  keeps-Within q r n s e w =
      Within-same q.stop q.limit q.drops n r.stop r.limit r.drops (size_impl r) s.stop_same
        s.limit_same s.drops_same e w

  length-snoc : (xs : List A) (x : A) → length (xs ++ (x ∷ [])) ≡ length xs + 1
  length-snoc xs x = length-append xs (x ∷ [])

  -- What a push that stores does to the bound and to the order.
  pub record Grown (q : BlockingQueue A) (x : A) (r : BlockingQueue A) : Type ℓ where
    pub settings : SameSettings q r
    pub within : IsWithin q → IsWithin r
    pub ordered : (q.drops ≡ true) ⊎ (items r ≡ items q ++ (x ∷ []))

  append-Grown : (q : BlockingQueue A) (x : A) → is_full q ≡ false → Grown q x (append q x)
  append-Grown q x f = record {
    settings = with_items-SameSettings q _;
    within = λ w.
        keeps-Within q (append q x) (length (items q) + 1) (with_items-SameSettings q _)
          (ap length (items-with q _) ∙ length-snoc (items q) x)
          (end_room q.stop q.limit q.drops (size_impl q) f);
    ordered = inr (items-with q _);
  }

  pub push-Grown :
      (q : BlockingQueue A) (x : A) (r : BlockingQueue A) (lost : List A)
      → wait_and_push_one q x ≡ stored r lost
      → Grown q x r
  push-Grown q x r lost e = elim (wait_and_push_one_lem q x) [
    | inl (_, _, w) ↦ absurd (cc (sym w ∙ e))
    | inr (q', kept, lost', w, s, k, inl (f, kk, _)) ↦
        subst (Grown q x) (stored-injective (sym w ∙ e)) (record {
          settings = s;
          within = λ v.
              keeps-Within q q' (length (items q) + 1) s
                (ap length k ∙ length-snoc kept x ∙ ap (λ l. length l + 1) kk)
                (end_room q.stop q.limit q.drops (size_impl q) f);
          ordered = inr (k ∙ ap (λ l. l ++ (x ∷ [])) kk);
        })
    | inr (q', kept, lost', w, s, k, inr (f, d, kk, _)) ↦
        subst (Grown q x) (stored-injective (sym w ∙ e)) (record {
          settings = s;
          within = λ v.
              keeps-Within q q' (length (evens (items q)) + 1) s
                (ap length k ∙ length-snoc kept x ∙ ap (λ l. length l + 1) kk)
                (full_room q.stop q.limit q.drops (size_impl q) (length (evens (items q))) f d
                  (length-evens (items q)) v);
          ordered = inl d;
        })
  ]

  pub resume-Grown :
      (q : BlockingQueue A) (x : A) (r : BlockingQueue A) (lost : List A)
      → resume q x ≡ stored r lost
      → Grown q x r
  resume-Grown q x r lost e = elim (resume_lem q x) [
    | inl (_, w) ↦ absurd (cc (sym w ∙ e))
    | inr (f, w) ↦ subst (Grown q x) (stored-injective (sym w ∙ e)) (append-Grown q x f)
  ]

  -- What taking elements off the front does.
  pub record Shrunk (q : BlockingQueue A) (out : List A) (r : BlockingQueue A) : Type ℓ where
    pub settings : SameSettings q r
    pub split : items q ≡ out ++ items r

  pub Shrunk-IsWithin :
      {q r : BlockingQueue A} {out : List A} → Shrunk q out r → IsWithin q → IsWithin r
  Shrunk-IsWithin {q} {r} {out} h w = keeps-Within q r (size_impl r) h.settings refl (
      Within-le q.stop q.limit q.drops (size_impl r) (size_impl q)
        (omega (arith, ap length h.split, length-append out (items r))) w)

  pub pop-Shrunk :
      (q r : BlockingQueue A) (min_num max_num : ℕ) (out : List A)
      → pop_front q min_num max_num ≡ popped r out
      → Shrunk q out r
  pop-Shrunk q r min_num max_num out e = elim (pop_front_lem q min_num max_num) [
    | inl (_, w) ↦ absurd (cc (sym w ∙ e))
    | inr (_, (q', w, s, k)) ↦
        let p = popped-injective (sym w ∙ e) in
        record {
          settings = subst (SameSettings q) p.0 s;
          split = sym (take-append-drop max_num (items q)) ∙ ap₂ ◌++◌ p.1 (sym k ∙ ap items p.0);
        }
  ]
