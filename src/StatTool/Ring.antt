-- ===== src/StatTool/Ring.antt =====
-- otl_timer.cpp: the ring of `StatTool` holds its last records.
use otl.Common.{
  ℕ, zero, suc, ◌+◌, ◌-◌, ◌%◌, ◌^◌, ◌<◌, ◌≡◌, refl, sym, ap, ap₂, subst, ◌∙◌, arith, true, false,
  List, [], ◌∷◌, ◌++◌, ltb, if◌then◌else◌, set, get_or, replicate, length, length-append,
  append-nil, append_assoc, lt→ltb, le→ltb,
}
use native.Mathlib.Nat.{mod_self, mod-eq_of_lt, add-mod_left}
use otl.StatTool.{StatisLayer, no_layer}

-- The last `n` records, with a new one.
abbrev pub tail : List StatisLayer → List StatisLayer
tail [] = []
tail (x ∷ xs) = xs

abbrev pub keep : ℕ → List StatisLayer → StatisLayer → List StatisLayer
keep n w v = if ltb (length w) n then w ++ (v ∷ []) else tail w ++ (v ∷ [])

abbrev pub last_or : StatisLayer → List StatisLayer → StatisLayer
last_or d [] = d
last_or d (x ∷ xs) = last_or x xs

abbrev pub first_or : StatisLayer → List StatisLayer → StatisLayer
first_or d [] = d
first_or d (x ∷ xs) = x

-- The layers and the indices for the last records: the ring is not full, or it is full and the index
-- is at the oldest.
pub data Holds (n : ℕ) (l : List StatisLayer) (i rc : ℕ) (w : List StatisLayer) : Type 0 where
  filling :
      (k : ℕ)
      → l ≡ w ++ replicate (suc k) no_layer
      → i ≡ length w
      → rc ≡ length w
      → n ≡ length w + suc k
      → Holds n l i rc w
  full :
      (y x : List StatisLayer) (a : StatisLayer)
      → l ≡ y ++ (a ∷ x)
      → w ≡ (a ∷ x) ++ y
      → i ≡ length y
      → rc ≡ n
      → n ≡ length y + suc (length x)
      → Holds n l i rc w

set-append :
    (xs ys : List StatisLayer) (a v : StatisLayer)
    → set (xs ++ (a ∷ ys)) (length xs) v ≡ xs ++ (v ∷ ys)
set-append [] ys a v = refl
set-append (x ∷ xs) ys a v = ap (λ l. x ∷ l) (set-append xs ys a v)

-- The index goes back to the start of a ring that is full.
wraps :
    (n i rc : ℕ) (w l : List StatisLayer) (v : StatisLayer)
    → l ≡ w ++ (v ∷ [])
    → n ≡ length w + 1
    → i ≡ zero
    → rc ≡ n
    → Holds n l i rc (w ++ (v ∷ []))
wraps n i rc [] l v e m h r = full [] [] v e refl h r m
wraps n i rc (a ∷ w) l v e m h r =
    full [] (w ++ (v ∷ [])) a e (sym (append-nil (a ∷ w ++ (v ∷ [])))) h r
      (omega (arith, length-append w (v ∷ []), m))

next_index : (n m : ℕ) → m + 1 < n → (m + 1) % n ≡ m + 1
next_index n m h = mod-eq_of_lt h

last_index : (n m : ℕ) → n ≡ m + 1 → (m + 1) % n ≡ zero
last_index n m h = ap (λ k. k % n) (sym h) ∙ mod_self n

abbrev pub counted : ℕ → ℕ → ℕ
counted n rc = if ltb rc n then rc + 1 else rc

filling_step :
    (n k : ℕ) (w : List StatisLayer) (v : StatisLayer)
    → n ≡ length w + suc k
    → Holds n
        (set (w ++ replicate (suc k) no_layer) (length w) v)
        ((length w + 1) % n)
        (length w + 1)
        (w ++ (v ∷ []))
filling_step n zero w v m =
    wraps n _ _ w _ v (set-append w [] no_layer v) m (last_index n (length w) m) (sym m)
filling_step n (suc k) w v m =
    filling k
      (set-append w (replicate (suc k) no_layer) no_layer v
        ∙ sym (append_assoc w (v ∷ []) (replicate (suc k) no_layer)))
      (next_index n (length w) (omega (arith, m)) ∙ sym (length-append w (v ∷ [])))
      (sym (length-append w (v ∷ []))) (omega (arith, m, length-append w (v ∷ [])))

full_step :
    (n : ℕ) (y x : List StatisLayer) (a v : StatisLayer)
    → n ≡ length y + suc (length x)
    → Holds n (set (y ++ (a ∷ x)) (length y) v) ((length y + 1) % n) n ((x ++ y) ++ (v ∷ []))
full_step n y [] a v m = wraps n _ _ y _ v (set-append y [] a v) m (last_index n (length y) m) refl
full_step n y (b ∷ x) a v m =
    full (y ++ (v ∷ [])) x b (set-append y (b ∷ x) a v ∙ sym (append_assoc y (v ∷ []) (b ∷ x)))
      (append_assoc (b ∷ x) y (v ∷ []))
      (next_index n (length y) (omega (arith, m)) ∙ sym (length-append y (v ∷ []))) refl
      (omega (arith, m, length-append y (v ∷ [])))

moved :
    {n i j rc c : ℕ} {l m w u : List StatisLayer}
    → l ≡ m
    → i ≡ j
    → rc ≡ c
    → w ≡ u
    → Holds n m j c u
    → Holds n l i rc w
moved {n} {i} {j} {rc} {c} {l} {m} {w} {u} e f g h k =
    subst (λ x. Holds n x i rc w) (sym e)
      (subst (λ x. Holds n m x rc w) (sym f)
        (subst (λ x. Holds n m j x w) (sym g) (subst (λ x. Holds n m j c x) (sym h) k)))

-- A record is written.
pub write_step :
    (n i rc : ℕ) (l w : List StatisLayer) (v : StatisLayer)
    → Holds n l i rc w
    → Holds n (set l i v) ((i + 1) % n) (counted n rc) (keep n w v)
write_step n i rc l w v (filling k e h r m) =
    moved (ap₂ (λ p j. set p j v) e h) (ap (λ j. (j + 1) % n) h)
      (ap (counted n) r ∙ ap (λ b. if b then length w + 1 else length w) not_full)
      (ap (λ b. if b then w ++ (v ∷ []) else tail w ++ (v ∷ [])) not_full) (filling_step n k w v m)
  where
    not_full : ltb (length w) n ≡ true
    not_full = lt→ltb (length w) n (omega (arith, m))
write_step n i rc l w v (full y x a e q h r m) =
    moved (ap₂ (λ p j. set p j v) e h) (ap (λ j. (j + 1) % n) h)
      (ap (counted n) r ∙ ap (λ b. if b then n + 1 else n) (le→ltb n n (omega arith)))
      (ap (λ u. keep n u v) q
        ∙ ap (λ b. if b then (a ∷ x) ++ y ++ (v ∷ []) else (x ++ y) ++ (v ∷ [])) is_full)
      (full_step n y x a v m)
  where
    is_full : ltb (length ((a ∷ x) ++ y)) n ≡ false
    is_full = le→ltb (length ((a ∷ x) ++ y)) n (omega (arith, length-append x y, m))

-- The index of the newest layer.
abbrev pub newest_at : ℕ → ℕ → ℕ → ℕ
newest_at n i rc =
    if ltb rc n then if ltb 0 i then i - 1 else 0 else (n + (i + 2 ^ 32 - 1) % 2 ^ 32) % 2 ^ 32 % n

abbrev pub oldest_at : ℕ → ℕ → ℕ → ℕ
oldest_at n i rc = if ltb rc n then 0 else i

get-append :
    (xs ys : List StatisLayer) (a : StatisLayer) → get_or (xs ++ (a ∷ ys)) (length xs) no_layer ≡ a
get-append [] ys a = refl
get-append (x ∷ xs) ys a = get-append xs ys a

get_last :
    (x : StatisLayer) (xs ys : List StatisLayer)
    → get_or ((x ∷ xs) ++ ys) (length xs) no_layer ≡ last_or x xs
get_last x [] ys = refl
get_last x (z ∷ xs) ys = get_last z xs ys

last-append :
    (d : StatisLayer) (xs : List StatisLayer) (y : StatisLayer) (ys : List StatisLayer)
    → last_or d (xs ++ (y ∷ ys)) ≡ last_or y ys
last-append d [] y ys = refl
last-append d (x ∷ xs) y ys = last-append x xs y ys

newest_filling : (n i rc : ℕ) → rc < n → newest_at n i rc ≡ (if ltb 0 i then i - 1 else 0)
newest_filling n i rc h =
    ap
      (λ b.
        if b then if ltb 0 i then i - 1 else 0 else (n + (i + 2 ^ 32 - 1) % 2 ^ 32) % 2 ^ 32 % n)
      (lt→ltb rc n h)

newest_full : (n i k : ℕ) → (n + (i + 2 ^ 32 - 1) % 2 ^ 32) % 2 ^ 32 ≡ k → newest_at n i n ≡ k % n
newest_full n i k h =
    ap
      (λ b.
        if b then if ltb 0 i then i - 1 else 0 else (n + (i + 2 ^ 32 - 1) % 2 ^ 32) % 2 ^ 32 % n)
      (le→ltb n n (omega arith))
    ∙ ap (λ j. j % n) h

filling_newest :
    (n k : ℕ) (w : List StatisLayer)
    → n ≡ length w + suc k
    → get_or (w ++ replicate (suc k) no_layer) (newest_at n (length w) (length w)) no_layer
      ≡ last_or no_layer w
filling_newest n k [] m =
    ap (λ j. get_or (replicate (suc k) no_layer) j no_layer)
      (newest_filling n 0 0 (omega (arith, m)))
filling_newest n k (x ∷ xs) m =
    ap (λ j. get_or ((x ∷ xs) ++ replicate (suc k) no_layer) j no_layer)
      (newest_filling n (suc (length xs)) (suc (length xs)) (omega (arith, m))
        ∙ ap (λ b. if b then suc (length xs) - 1 else 0) (lt→ltb 0 (suc (length xs)) (omega arith))
        ∙ (let e : suc (length xs) - 1 ≡ length xs = omega arith in e))
    ∙ get_last x xs (replicate (suc k) no_layer)

full_newest :
    (n : ℕ) (y x : List StatisLayer) (a : StatisLayer)
    → n < 2 ^ 31
    → n ≡ length y + suc (length x)
    → get_or (y ++ (a ∷ x)) (newest_at n (length y) n) no_layer ≡ last_or no_layer ((a ∷ x) ++ y)
full_newest n [] x a b m =
    ap (λ j. get_or (a ∷ x) j no_layer)
      (newest_full n 0 (length x) (omega (arith, m, b)) ∙ mod-eq_of_lt (omega (arith, m)))
    ∙ ap (λ l. get_or l (length x) no_layer) (sym (append-nil (a ∷ x)))
    ∙ get_last a x []
    ∙ ap (last_or a) (sym (append-nil x))
full_newest n (z ∷ y) x a b m =
    ap (λ j. get_or ((z ∷ y) ++ (a ∷ x)) j no_layer)
      (newest_full n (suc (length y)) (n + length y) (omega (arith, m, b))
        ∙ add-mod_left n (length y)
        ∙ mod-eq_of_lt (omega (arith, m)))
    ∙ get_last z y (a ∷ x)
    ∙ sym (last-append a x z y)

-- What `getSpeed` reads.
pub ends_lem :
    (n i rc : ℕ) (l w : List StatisLayer)
    → n < 2 ^ 31
    → Holds n l i rc w
    → (get_or l (newest_at n i rc) no_layer ≡ last_or no_layer w)
      × (get_or l (oldest_at n i rc) no_layer ≡ first_or no_layer w)
ends_lem n i rc l w b (filling k e h r m) = (
  ap₂ (λ p j. get_or p j no_layer) e (ap₂ (newest_at n) h r) ∙ filling_newest n k w m,
  ap₂ (λ p j. get_or p j no_layer) e
        (ap₂ (oldest_at n) h r
          ∙ ap (λ t. if t then 0 else length w) (lt→ltb (length w) n (omega (arith, m))))
      ∙ first w,
)
  where
    first :
        (w : List StatisLayer)
        → get_or (w ++ replicate (suc k) no_layer) 0 no_layer ≡ first_or no_layer w
    first [] = refl
    first (x ∷ xs) = refl
ends_lem n i rc l w b (full y x a e q h r m) = (
  ap₂ (λ p j. get_or p j no_layer) e (ap₂ (newest_at n) h r)
      ∙ full_newest n y x a b m
      ∙ ap (last_or no_layer) (sym q),
  ap₂ (λ p j. get_or p j no_layer) e
        (ap₂ (oldest_at n) h r ∙ ap (λ t. if t then 0 else length y) (le→ltb n n (omega arith)))
      ∙ get-append y x a
      ∙ ap (first_or no_layer) (sym q),
)
