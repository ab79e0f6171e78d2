-- ===== src/Smoother/Order.antt =====
-- timestamp_smoother.h: the stamps of `TimestampSmoother`, as integers without bounds, rise.
use otl.Common.{
  ℕ, ◌+◌, ◌≤◌, ◌<◌, ◌≡◌, ◌⊎◌, inl, inr, refl, sym, ap, subst, ◌∙◌, arith, Bool, Bool-cases, ltb,
  ltb→lt, ltb→le, Option, none, some, List, [], ◌∷◌, ◌++◌, length, length-append, if◌then◌else◌,
}
use otl.Common.Int.{ℤ, pos, ◌+ℤ◌, ◌-ℤ◌, ltb_ℤ, int_laws, pos_part, neg_part}
use otl.Smoother.{
  Blend, AvPacket, TimestampSmoother, detect_timestamp_wrap, smooth_increment, average, max_ℤ,
  calculate_smooth_increment, update_history, advance, output, correct, generate, reference, rebase,
  follow, start, dispatch, smooth_timestamp, stamp, max_history_size,
}

infix 50 ◌<ℤ◌
abbrev pub ◌<ℤ◌ : ℤ → ℤ → Type 0
a <ℤ b = pos_part a + neg_part b < pos_part b + neg_part a

max_ℤ-right : (a b : ℤ) → pos 0 <ℤ b → pos 0 <ℤ max_ℤ a b
max_ℤ-right a b h = elim (Bool-cases (ltb_ℤ a b)) [
  | inl e ↦ rw e h
  | inr e ↦ rw e (omega (arith, ltb→le _ _ e))
]

history_le :
    (h : List ℤ) (t : ℤ)
    → length h ≤ max_history_size
    → length (update_history h t) ≤ max_history_size
unfolding update_history
history_le [] t h = omega arith
history_le (x ∷ xs) t h = elim (Bool-cases (ltb max_history_size (length ((x ∷ xs) ++ (t ∷ []))))) [
  | inl e ↦ rw (e, update_history) (omega (arith, length-append xs (t ∷ [])))
  | inr e ↦ rw (e, update_history) (ltb→le _ _ e)
]

module _ {F : Type 0} (f : Blend F) where
  calculate-positive :
      (s : TimestampSmoother F) (raw : ℤ)
      → pos 0 <ℤ s.min_increment
      → pos 0 <ℤ calculate_smooth_increment f s raw
  unfolding calculate_smooth_increment
  calculate-positive s raw h = go s.timestamp_history
    where
      go : (l : List ℤ) → pos 0 <ℤ smooth_increment f s raw l
      go [] = max_ℤ-right raw s.min_increment h
      go (t ∷ ts) =
          max_ℤ-right (f.blend s.smoothing_factor raw (average t ts s.min_increment))
            s.min_increment h

  plus_positive : (a b : ℤ) → pos 0 <ℤ b → a <ℤ a +ℤ b
  plus_positive a b h = omega int_laws

  advance_above :
      (s : TimestampSmoother F) (last r : ℤ)
      → pos 0 <ℤ s.min_increment
      → last <ℤ (advance f s (some last) r).0
  advance_above s last r h = elim (Bool-cases (ltb_ℤ last r)) [
    | inr e ↦
        subst (λ (p : ℤ × ℕ). last <ℤ p.0) (sym (ap outer e)) (plus_positive last s.min_increment h)
    | inl e ↦ elim (Bool-cases (ltb_ℤ s.max_jump_threshold (r -ℤ last))) [
      | inl d ↦
          subst (λ (p : ℤ × ℕ). last <ℤ p.0) (sym (ap outer e ∙ ap inner d))
            (plus_positive last _ (calculate-positive s (r -ℤ last) h))
      | inr d ↦ subst (λ (p : ℤ × ℕ). last <ℤ p.0) (sym (ap outer e ∙ ap inner d)) (ltb→lt _ _ e)
    ]
  ]
    where
      inner : Bool → ℤ × ℕ
      inner b = if b then (last +ℤ calculate_smooth_increment f s (r -ℤ last), 1) else (r, 0)

      outer : Bool → ℤ × ℕ
      outer b =
          if b then inner (ltb_ℤ s.max_jump_threshold (r -ℤ last)) else (last +ℤ s.min_increment, 1)

  -- There is a base exactly if there was an output, and the history is not too long.
  pub record IsValid (s : TimestampSmoother F) : Type 0 where
    pub started :
        ((s.base_timestamp ≡ none) × (s.last_output_pts ≡ none))
        ⊎ ((b l : ℤ) × (s.base_timestamp ≡ some b) × (s.last_output_pts ≡ some l))
    pub short : length s.timestamp_history ≤ max_history_size

  -- One packet: its stamp is above `last`, and it is the last output.
  pub record Rises (min_increment : ℤ) (last : Option ℤ) (r : TimestampSmoother F × AvPacket)
      : Type 0 where
    pub t : ℤ
    pub pts_is : r.1.pts ≡ some t
    pub dts_is : r.1.dts ≡ some t
    pub last_is : r.0.last_output_pts ≡ some t
    pub above : (l : ℤ) → last ≡ some l → l <ℤ t
    pub valid : IsValid r.0
    pub same_increment : r.0.min_increment ≡ min_increment

  output_lem :
      (s : TimestampSmoother F) (b t : ℤ) (last : Option ℤ)
      → s.base_timestamp ≡ some b
      → length s.timestamp_history ≤ max_history_size
      → ((l : ℤ) → last ≡ some l → l <ℤ t)
      → Rises s.min_increment last (output s t)
  output_lem s b t last e h a = record {
    t = t;
    pts_is = refl;
    dts_is = refl;
    last_is = refl;
    above = a;
    valid = record { started = inr (b, t, e, refl); short = history_le s.timestamp_history t h };
    same_increment = refl;
  }

  nothing_before : (t : ℤ) (last : Option ℤ) → last ≡ none → (l : ℤ) → last ≡ some l → l <ℤ t
  nothing_before t last e l h = absurd (cc (sym e ∙ h))

  known_before :
      (t a : ℤ) (last : Option ℤ) → last ≡ some a → a <ℤ t → (l : ℤ) → last ≡ some l → l <ℤ t
  known_before t a last e h l g = subst (λ x. x <ℤ t) same h
    where
      same : a ≡ l
      same = cc

  generate_lem :
      (s : TimestampSmoother F) (o : Option ℤ)
      → s.last_output_pts ≡ o
      → pos 0 <ℤ s.min_increment
      → IsValid s
      → Rises s.min_increment s.last_output_pts (generate s o)
  generate_lem s none e h v =
      output_lem (correct (record s { base_timestamp = some (pos 0) }) 1) (pos 0) (pos 0)
        s.last_output_pts refl v.short (nothing_before (pos 0) s.last_output_pts e)
  generate_lem s (some a) e h v = elim v.started [
    | inl (_, n) ↦ absurd (cc (sym n ∙ e))
    | inr (b, l, eb, _) ↦
        output_lem (correct s 1) b (a +ℤ s.min_increment) s.last_output_pts eb v.short (
          known_before (a +ℤ s.min_increment) a s.last_output_pts e
            (plus_positive a s.min_increment h))
  ]

  follow_lem :
      (s : TimestampSmoother F) (x b a : ℤ)
      → s.base_timestamp ≡ some b
      → s.last_output_pts ≡ some a
      → length s.timestamp_history ≤ max_history_size
      → pos 0 <ℤ s.min_increment
      → Rises s.min_increment (some a) (follow f s x)
  follow_lem s x b a eb ea h m =
      output_lem (correct s (advance f s s.last_output_pts rel).1) b
        (advance f s s.last_output_pts rel).0 (some a) eb h
        (known_before _ a (some a) refl
          (subst (λ o. a <ℤ (advance f s o rel).0) (sym ea) (advance_above s a rel m)))
    where
      rel : ℤ
      rel = x -ℤ stamp s.base_timestamp +ℤ s.timestamp_offset

  start_lem :
      (s : TimestampSmoother F) (x : ℤ) (o : Option ℤ)
      → s.base_timestamp ≡ o
      → pos 0 <ℤ s.min_increment
      → IsValid s
      → Rises s.min_increment s.last_output_pts (start f s x o)
  start_lem s x none e m v = elim v.started [
    | inl (_, n) ↦
        output_lem (record s { base_timestamp = some x; timestamp_offset = pos 0 }) x (pos 0)
          s.last_output_pts refl v.short (nothing_before (pos 0) s.last_output_pts n)
    | inr (b, l, eb, _) ↦ absurd (cc (sym e ∙ eb))
  ]
  start_lem s x (some base) e m v = elim v.started [
    | inl (n, _) ↦ absurd (cc (sym e ∙ n))
    | inr (b, a, eb, ea) ↦
        subst (λ o. Rises s.min_increment o (start f s x (some base))) (sym ea)
          (elim (Bool-cases (detect_timestamp_wrap s x (reference s base))) [
            | inl w ↦
                subst
                  (λ c. Rises s.min_increment (some a) (follow f (if c then rebase s x else s) x))
                  (sym w) (follow_lem (rebase s x) x x a refl ea v.short m)
            | inr w ↦
                subst
                  (λ c. Rises s.min_increment (some a) (follow f (if c then rebase s x else s) x))
                  (sym w) (follow_lem s x b a eb ea v.short m)
          ])
  ]

  dispatch_lem :
      (s : TimestampSmoother F) (o : Option ℤ)
      → pos 0 <ℤ s.min_increment
      → IsValid s
      → Rises s.min_increment s.last_output_pts (dispatch f s o)
  dispatch_lem s none m v = generate_lem s s.last_output_pts refl m v
  dispatch_lem s (some x) m v = start_lem s x s.base_timestamp refl m v

  -- A packet of a stream gets a stamp above the last output.
  pub smooth_timestamp_lem :
      (s : TimestampSmoother F) (p : AvPacket)
      → pos 0 <ℤ s.min_increment
      → IsValid s
      → (r : TimestampSmoother F × AvPacket) × (smooth_timestamp f s (some p) ≡ some r)
        × Rises s.min_increment s.last_output_pts r
  unfolding smooth_timestamp
  smooth_timestamp_lem s p m v = (
    dispatch f counted p.pts,
    refl,
    dispatch_lem counted p.pts m (record { started = v.started; short = v.short }),
  )
    where
      counted : TimestampSmoother F
      counted = record s { total_packets = s.total_packets + 1 }
