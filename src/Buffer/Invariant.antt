-- ===== src/Buffer/Invariant.antt =====
-- otl_baseclass.cpp: the representation invariant of `ByteBuffer`, and the growth of its block.
use native.Mathlib.Nat.{pow-suc, le_trans, le_of_eq}
use otl.Common.{
  ℕ, zero, suc, ◌+◌, ◌-◌, ◌*◌, ◌%◌, ◌^◌, ◌≤◌, ◌<◌, ◌≡◌, refl, sym, append-nil, ap, ◌∙◌, ◌⊎◌, inl,
  inr, true, Option, none, some, List, [], ◌++◌, arith, ltb, ◌==◌, if◌then◌else◌, length, take,
  drop, Bool-cases, Option-cases, ltb→lt, ltb→le, length-append, length-take, length-drop,
}
use otl.Buffer.{
  Heap, ByteBuffer, size_t_mod, write_at, read_at, realloc, grow, grow_fuel, check_buffer,
}

pub record IsValid (b : ByteBuffer) : Type 0 where
  pub filled : length b.bytes ≡ b.capacity
  pub front_in : b.front_offset ≤ b.back_offset
  pub back_in : b.back_offset ≤ b.capacity
  pub small : b.back_offset < 2 ^ 31

-- The bytes that a client has pushed and not yet popped, oldest first.
abbrev pub contents : ByteBuffer → List ℕ
contents b = read_at b.bytes b.front_offset (b.back_offset - b.front_offset)

pub length-contents :
    {b : ByteBuffer} → IsValid b → length (contents b) ≡ b.back_offset - b.front_offset
length-contents {b} v = omega (
  arith,
  length-take (b.back_offset - b.front_offset) (drop b.front_offset b.bytes),
  length-drop b.front_offset b.bytes,
)

pub length-write_at :
    (block : List ℕ) (offset : ℕ) (p : List ℕ)
    → offset + length p ≤ length block
    → length (write_at block offset p) ≡ length block
length-write_at block offset p h = omega (
  arith,
  length-append (take offset block) (p ++ drop (offset + length p) block),
  length-append p (drop (offset + length p) block),
  length-take offset block,
  length-drop (offset + length p) block,
)

abbrev pub Grows : ℕ → ℕ → Option ℕ → Type 0
Grows cp need r = (c : ℕ) × (r ≡ some c) × (need ≤ c) × (cp ≤ c)

grow_step :
    (fuel cp need : ℕ)
    → ltb cp need ≡ true
    → need ≤ 2 ^ 63
    → grow (suc fuel) cp need ≡ grow fuel (cp * 2) need
unfolding grow
grow_step fuel cp need t h =
    rw t (ap (λ k. grow fuel k need) (let lt = ltb→lt cp need t in omega arith))

double : (cp fuel : ℕ) → cp * 2 ^ suc fuel ≡ cp * 2 * 2 ^ fuel
double cp fuel = rw (pow-suc 2 fuel) (omega arith)

-- The loop ends within its fuel, at a capacity that suffices.
pub grow_total :
    (fuel cp need : ℕ)
    → 0 < cp
    → need ≤ 2 ^ 63
    → need ≤ cp * 2 ^ fuel
    → Grows cp need (grow (suc fuel) cp need)
grow_total zero cp need p h e = elim (Bool-cases (ltb cp need)) [
  | inl t ↦ absurd (let lt = ltb→lt cp need t in omega arith)
  | inr t ↦ (cp, unfold grow in rw t, ltb→le cp need t, omega arith)
]
grow_total (suc fuel) cp need p h e = elim (Bool-cases (ltb cp need)) [
  | inl t ↦
      let (c, q, le, ge) =
        grow_total fuel (cp * 2) need (omega arith) h (le_trans e (le_of_eq (double cp fuel))) in
      (c, grow_step (suc fuel) cp need t h ∙ q, le, omega arith)
  | inr t ↦ (cp, unfold grow in rw t, ltb→le cp need t, omega arith)
]

-- With fuel for the `size_t` range the loop always ends.
pub grow_ends : (cp need : ℕ) → 0 < cp → need ≤ 2 ^ 63 → Grows cp need (grow grow_fuel cp need)
grow_ends cp need p h = grow_total 64 cp need p h (omega arith)

pub realloc_lem :
    (heap : Heap) (block : List ℕ) (n : ℕ)
    → length block ≤ n
    → (realloc heap block n ≡ none) × (heap.malloc n ≡ none)
      ⊎ ((more : List ℕ) × (realloc heap block n ≡ some (block ++ more))
          × (length (block ++ more) ≡ n))
unfolding realloc
realloc_lem heap block n h = elim (Option-cases (heap.malloc n)) [
  | inl e ↦ inl (rw (e, realloc), e)
  | inr (fresh, e) ↦ inr (
    drop (length block) fresh,
    rw (e, realloc),
    omega (
      arith,
      heap.length-malloc n fresh e,
      length-append block (drop (length block) fresh),
      length-drop (length block) fresh,
    ),
  )
]

-- What `check_buffer` gives back: enough room, and everything else as it was.
pub record HasRoom (b : ByteBuffer) (len : ℕ) (c : ByteBuffer) : Type 0 where
  pub more : List ℕ
  pub bytes : c.bytes ≡ b.bytes ++ more
  pub filled : length c.bytes ≡ c.capacity
  pub room : b.back_offset + len ≤ c.capacity
  pub back : c.back_offset ≡ b.back_offset
  pub front : c.front_offset ≡ b.front_offset

abbrev first_capacity : ByteBuffer → ℕ
first_capacity b = if b.capacity == 0 then 1024 else b.capacity

-- The part of `check_buffer` below its test.
check_buffer-grow :
    (heap : Heap) (b : ByteBuffer) (len c : ℕ)
    → IsValid b
    → b.back_offset + len < 2 ^ 31
    → ltb b.capacity (b.back_offset + len) ≡ true
    → grow grow_fuel (first_capacity b) (b.back_offset + len) ≡ some c
    → b.back_offset + len ≤ c
    → first_capacity b ≤ c
    → ((check_buffer heap b len ≡ none) × ((n : ℕ) × (heap.malloc n ≡ none)))
      ⊎ ((d : ByteBuffer) × (check_buffer heap b len ≡ some d) × HasRoom b len d)
unfolding check_buffer
check_buffer-grow heap b len c v small t q le ge =
    elim (realloc_lem heap b.bytes c (ground arith)) [
      | inl (e, m) ↦ inl (rw (wrap, t, q, e), (c, m))
      | inr (more, e, l) ↦ inr (
        record b { bytes = b.bytes ++ more; capacity = c },
        rw (wrap, t, q, e),
        record { more = more; bytes = refl; filled = l; room = le; back = refl; front = refl },
      )
    ]
  where
    wrap : (b.back_offset + len) % size_t_mod ≡ b.back_offset + len
    wrap = omega arith

-- Growing keeps the bytes and makes room; the only failure is a refusal by the heap.
pub check_buffer_lem :
    (heap : Heap) (b : ByteBuffer) (len : ℕ)
    → IsValid b
    → b.back_offset + len < 2 ^ 31
    → ((check_buffer heap b len ≡ none) × ((n : ℕ) × (heap.malloc n ≡ none)))
      ⊎ ((c : ByteBuffer) × (check_buffer heap b len ≡ some c) × HasRoom b len c)
unfolding check_buffer
check_buffer_lem heap b len v small = elim (Bool-cases (ltb b.capacity (b.back_offset + len))) [
  | inl t ↦
      let (c, q, le, ge) =
        grow_ends (first_capacity b) (b.back_offset + len) (ground arith) (omega arith) in
      check_buffer-grow heap b len c v small t q le ge
  | inr t ↦ inr (
    b,
    rw (wrap, t),
    record {
      more = [];
      bytes = sym (append-nil b.bytes);
      filled = v.filled;
      room = ltb→le b.capacity (b.back_offset + len) t;
      back = refl;
      front = refl;
    },
  )
]
  where
    wrap : (b.back_offset + len) % size_t_mod ≡ b.back_offset + len
    wrap = omega arith
