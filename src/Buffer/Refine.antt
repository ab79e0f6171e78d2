-- ===== src/Buffer/Refine.antt =====
-- otl_baseclass.cpp: `ByteBuffer` against a plain sequence of bytes, operation by operation.
use otl.Common.{
  ℕ, ◌+◌, ◌-◌, ◌^◌, ◌≤◌, ◌<◌, ◌≡◌, refl, sym, ap, ap₂, ◌∙◌, ◌⊎◌, inl, inr, none, some, List, ◌++◌,
  arith, length, take, drop, le→leb, ltb, ltb→lt, ltb→le, false, Bool-cases, length-take,
  length-drop, take-append_of_le, drop-append_of_le, drop-take, drop-drop, take-take,
  take-append_three,
}
use otl.Common.Int.{sub_ℕ}
use otl.Buffer.{
  Popped, Heap, ByteBuffer, Status, done, failed, write_at, read_at, check_buffer, push_internal,
  pop_internal, pop_front_internal, to_size_t,
}
use otl.Buffer.Invariant.{
  IsValid, contents, length-contents, length-write_at, HasRoom, check_buffer_lem,
}

window_push :
    (front back : ℕ) (block more p : List ℕ)
    → front ≤ back
    → back ≤ length block
    → read_at (write_at (block ++ more) back p) front (back + length p - front)
      ≡ read_at block front (back - front) ++ p
window_push front back block more p hf hb =
    ap (take (back + length p - front)) split
    ∙ take-append_three (back + length p - front) kept p rest
        (omega (arith, length-drop front (take back block), length-take back block))
    ∙ ap (λ k. k ++ p) (drop-take front back block)
  where
    kept : List ℕ
    kept = drop front (take back block)

    rest : List ℕ
    rest = drop (back + length p) (block ++ more)

    split : drop front (write_at (block ++ more) back p) ≡ kept ++ (p ++ rest)
    split = rw (take-append_of_le back block more hb) (
        drop-append_of_le front (take back block) (p ++ rest)
          (omega (arith, length-take back block)))

-- The outcome of a push: either the heap refused memory and nothing changed, or the bytes stand at
-- the back and the invariant holds.
abbrev pub Pushes : Heap → ByteBuffer → List ℕ → Status × ByteBuffer → Type 0
Pushes heap b p r =
    ((r ≡ (failed, b)) × ((n : ℕ) × (heap.malloc n ≡ none)))
    ⊎ ((c : ByteBuffer) × (r ≡ (done, c))
        × IsValid c
        × (contents c ≡ contents b ++ p)
        × (c.back_offset ≡ b.back_offset + length p)
        × (c.front_offset ≡ b.front_offset))

push_into_room :
    (heap : Heap) (b c : ByteBuffer) (p : List ℕ)
    → IsValid b
    → b.back_offset + length p < 2 ^ 31
    → check_buffer heap b (length p) ≡ some c
    → HasRoom b (length p) c
    → Pushes heap b p (push_internal heap b p)
unfolding push_internal
push_into_room heap b c p v small e r = inr (
  record c { bytes = write_at c.bytes c.back_offset p; back_offset = c.back_offset + length p },
  rw (e, push_internal),
  record {
    filled =
        length-write_at c.bytes c.back_offset p
          (let f = r.filled in let h = r.room in let k = r.back in omega arith)
        ∙ r.filled;
    front_in = let f = v.front_in in let g = r.front in let h = r.back in omega arith;
    back_in = let h = r.room in let k = r.back in omega arith;
    small = let k = r.back in omega arith;
  },
  rw (r.bytes, r.back, r.front)
      (window_push b.front_offset b.back_offset b.bytes r.more p v.front_in
        (let f = v.filled in let g = v.back_in in omega arith)),
  ap (λ k. k + length p) r.back,
  r.front,
)

-- A push of raw bytes onto a valid buffer that stays below 2^31 bytes appends them to the contents
-- and keeps the invariant; it fails only if the heap refuses memory, and then changes nothing.
pub push_refines :
    (heap : Heap) (b : ByteBuffer) (p : List ℕ)
    → IsValid b
    → b.back_offset + length p < 2 ^ 31
    → Pushes heap b p (push_internal heap b p)
unfolding push_internal
push_refines heap b p v small = elim (check_buffer_lem heap b (length p) v small) [
  | inl (e, n) ↦ inl (rw (e, push_internal), n)
  | inr (c, e, r) ↦ push_into_room heap b c p v small e r
]

module _ (front back len : ℕ) (block : List ℕ) where
  window_last :
      front ≤ back
      → len ≤ back - front
      → read_at block (back - len) len
        ≡ drop (back - front - len) (read_at block front (back - front))
  window_last hf hl = sym (
      drop-take (back - front - len) (back - front) (drop front block)
      ∙ ap₂ take (omega arith)
          (drop-drop (back - front - len) front block ∙ ap (λ k. drop k block) (omega arith)))

  window_but_last :
      read_at block front (back - len - front)
      ≡ take (back - front - len) (read_at block front (back - front))
  window_but_last =
      ap (λ k. take k (drop front block)) (omega arith)
      ∙ sym (take-take (back - front - len) (back - front) (drop front block) (omega arith))

  window_first :
      len ≤ back - front → read_at block front len ≡ take len (read_at block front (back - front))
  window_first h = sym (take-take len (back - front) (drop front block) h)

  window_but_first :
      read_at block (front + len) (back - (front + len))
      ≡ drop len (read_at block front (back - front))
  window_but_first = sym (
      drop-take len (back - front) (drop front block)
      ∙ ap₂ take (omega arith) (drop-drop len front block))

-- A pop from the back of no more bytes than the buffer holds gives the last ones, in the order in
-- which they were pushed, leaves the others, and keeps the invariant.
pub pop_refines :
    (b : ByteBuffer) (len : ℕ)
    → IsValid b
    → len ≤ length (contents b)
    → (c : ByteBuffer) × (pop_internal b len
        ≡ some (drop (length (contents b) - len) (contents b), c))
      × IsValid c
      × (contents c ≡ take (length (contents b) - len) (contents b))
unfolding pop_internal
pop_refines b len v h = (
  record b { back_offset = b.back_offset - len },
  rw (le→leb len b.back_offset (omega (arith, l)), l)
      (ap (λ p. some (p, after))
        (window_last b.front_offset b.back_offset len b.bytes v.front_in (omega (arith, l)))),
  record {
    filled = v.filled;
    front_in = let f = v.front_in in omega (arith, l);
    back_in = let f = v.back_in in omega arith;
    small = let f = v.small in omega arith;
  },
  rw l (window_but_last b.front_offset b.back_offset len b.bytes),
)
  where
    l : length (contents b) ≡ b.back_offset - b.front_offset
    l = length-contents v

    after : ByteBuffer
    after = record b { back_offset = b.back_offset - len }

pop_front_size :
    (b : ByteBuffer)
    → IsValid b
    → to_size_t (sub_ℕ b.back_offset b.front_offset) ≡ length (contents b)
pop_front_size b v = let l = length-contents v in ground arith

-- Either the buffer holds too few bytes and the pop is refused, or the oldest come out.
abbrev pub PopsFront : ByteBuffer → ℕ → Popped → Type 0
PopsFront b len r =
    ((length (contents b) < len) × (r ≡ none))
    ⊎ ((len ≤ length (contents b))
        × ((c : ByteBuffer) × (r ≡ some (take len (contents b), c))
            × IsValid c
            × (contents c ≡ drop len (contents b))
            × (c.back_offset ≡ b.back_offset)))

-- A pop from the front gives the oldest bytes and leaves the others, if the buffer holds as many;
-- otherwise it is refused. The invariant is kept.
pub pop_front_refines :
    (b : ByteBuffer) (len : ℕ) → IsValid b → PopsFront b len (pop_front_internal b len)
unfolding pop_front_internal
pop_front_refines b len v = elim (Bool-cases (ltb (length (contents b)) len)) [
  | inl t ↦ inl (ltb→lt _ len t, rw (pop_front_size b v, t))
  | inr t ↦ inr (
    ltb→le _ len t,
    (
      after,
      rw (pop_front_size b v, t)
          (ap (λ p. some (p, after))
            (window_first b.front_offset b.back_offset len b.bytes (fits t))),
      record {
        filled = v.filled;
        front_in = let f = v.front_in in let g = fits t in omega arith;
        back_in = v.back_in;
        small = v.small;
      },
      window_but_first b.front_offset b.back_offset len b.bytes,
      refl,
    ),
  )
]
  where
    after : ByteBuffer
    after = record b { front_offset = b.front_offset + len }

    fits : ltb (length (contents b)) len ≡ false → len ≤ b.back_offset - b.front_offset
    fits t = let l = length-contents v in let g = ltb→le (length (contents b)) len t in omega arith
