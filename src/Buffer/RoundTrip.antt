-- ===== src/Buffer/RoundTrip.antt =====
-- otl_baseclass.cpp: what an overload of `push_back` stored, `pop` and `pop_front` give back.
use otl.Common.{
  ℕ, ◌+◌, ◌-◌, ◌^◌, ◌≤◌, ◌<◌, ◌≡◌, refl, sym, ap, ap₂, subst, ◌∙◌, inl, inr, none, some, List, ◌++◌,
  arith, length, take, drop, take-length_append, drop-length_append, length-append,
}
use otl.Common.Int.{ℤ, pos, negsuc, pos_part, ◌≤ℤ◌}
use otl.Buffer.{Popped, Heap, ByteBuffer, done, push_internal, pop_internal, pop_front_internal}
use otl.Buffer.Words.{
  le_bytes, le_value, htons, htonl, bm_htonll, bm_ntohll, to_word, of_word, le_value-bytes_1,
  le_value-bytes_2, le_value-bytes_4, le_value-bytes_8, htons-htons, htons-lt, htonl-htonl,
  htonl-lt, bm_ntohll-bm_htonll, bm_htonll-lt, of_word-to_word, to_word-lt,
}
use otl.Buffer.Typed.{
  Kind, i8, u8, i16, u16, i32, u32, i64, u64, f32, f64, width, load, push_back, pop, pop_front,
  Fits,
}
use otl.Buffer.Typed
use otl.Buffer.Invariant.{IsValid, contents}
use otl.Buffer.Refine.{Pushes, push_refines, pop_refines, pop_front_refines}

-- The bytes that `push_back` stores, and the value that the pops read from bytes.
pub encode : Kind → ℤ → List ℕ
encode i8 z = le_bytes 1 (to_word (2 ^ 8) z)
encode u8 z = le_bytes 1 (pos_part z)
encode i16 z = le_bytes 2 (htons (to_word (2 ^ 16) z))
encode u16 z = le_bytes 2 (htons (pos_part z))
encode i32 z = le_bytes 4 (htonl (to_word (2 ^ 32) z))
encode u32 z = le_bytes 4 (htonl (pos_part z))
encode i64 z = le_bytes 8 (bm_htonll (to_word (2 ^ 64) z))
encode u64 z = le_bytes 8 (bm_htonll (pos_part z))
encode f32 z = le_bytes 4 (pos_part z)
encode f64 z = le_bytes 8 (pos_part z)

pub decode : Kind → List ℕ → ℤ
decode i8 p = of_word (2 ^ 8) (le_value p)
decode u8 p = pos (le_value p)
decode i16 p = of_word (2 ^ 16) (htons (le_value p))
decode u16 p = pos (htons (le_value p))
decode i32 p = of_word (2 ^ 32) (htonl (le_value p))
decode u32 p = pos (htonl (le_value p))
decode i64 p = of_word (2 ^ 64) (bm_ntohll (le_value p))
decode u64 p = pos (bm_ntohll (le_value p))
decode f32 p = pos (le_value p)
decode f64 p = pos (le_value p)

pub length-encode : (k : Kind) (z : ℤ) → length (encode k z) ≡ width k
unfolding encode
length-encode i8 z = refl
length-encode u8 z = refl
length-encode i16 z = refl
length-encode u16 z = refl
length-encode i32 z = refl
length-encode u32 z = refl
length-encode i64 z = refl
length-encode u64 z = refl
length-encode f32 z = refl
length-encode f64 z = refl

unsigned_part : (z : ℤ) → pos 0 ≤ℤ z → pos (pos_part z) ≡ z
unsigned_part (pos n) h = refl
unsigned_part (negsuc n) h = absurd (omega arith)

unsigned_lt : (z : ℤ) (m : ℕ) → pos 0 ≤ℤ z → z ≤ℤ pos (m - 1) → 0 < m → pos_part z < m
unsigned_lt (pos n) m h k p = omega arith
unsigned_lt (negsuc n) m h k p = absurd (omega arith)

decode-encode : (k : Kind) (z : ℤ) → Fits k z → decode k (encode k z) ≡ z
unfolding encode decode
decode-encode i8 z h =
    rw (le_value-bytes_1 (to_word (2 ^ 8) z) (to_word-lt (2 ^ 8) z (omega arith)))
      (of_word-to_word (2 ^ 7) z (omega arith) h.0 h.1)
decode-encode u8 z h =
    rw (le_value-bytes_1 (pos_part z) (unsigned_lt z (2 ^ 8) h.0 h.1 (omega arith)))
      (unsigned_part z h.0)
decode-encode i16 z h =
    rw
      (
        le_value-bytes_2 (htons (to_word (2 ^ 16) z)) (htons-lt (to_word (2 ^ 16) z)),
        htons-htons (to_word (2 ^ 16) z) (to_word-lt (2 ^ 16) z (omega arith)),
      )
      (of_word-to_word (2 ^ 15) z (omega arith) h.0 h.1)
decode-encode u16 z h =
    rw
      (
        le_value-bytes_2 (htons (pos_part z)) (htons-lt (pos_part z)),
        htons-htons (pos_part z) (unsigned_lt z (2 ^ 16) h.0 h.1 (omega arith)),
      )
      (unsigned_part z h.0)
decode-encode i32 z h =
    rw
      (
        le_value-bytes_4 (htonl (to_word (2 ^ 32) z)) (htonl-lt (to_word (2 ^ 32) z)),
        htonl-htonl (to_word (2 ^ 32) z) (to_word-lt (2 ^ 32) z (omega arith)),
      )
      (of_word-to_word (2 ^ 31) z (omega arith) h.0 h.1)
decode-encode u32 z h =
    rw
      (
        le_value-bytes_4 (htonl (pos_part z)) (htonl-lt (pos_part z)),
        htonl-htonl (pos_part z) (unsigned_lt z (2 ^ 32) h.0 h.1 (omega arith)),
      )
      (unsigned_part z h.0)
decode-encode i64 z h =
    rw
      (
        le_value-bytes_8 (bm_htonll (to_word (2 ^ 64) z)) (bm_htonll-lt (to_word (2 ^ 64) z)),
        bm_ntohll-bm_htonll (to_word (2 ^ 64) z) (to_word-lt (2 ^ 64) z (omega arith)),
      )
      (of_word-to_word (2 ^ 63) z (omega arith) h.0 h.1)
decode-encode u64 z h =
    rw
      (
        le_value-bytes_8 (bm_htonll (pos_part z)) (bm_htonll-lt (pos_part z)),
        bm_ntohll-bm_htonll (pos_part z) (unsigned_lt z (2 ^ 64) h.0 h.1 (omega arith)),
      )
      (unsigned_part z h.0)
decode-encode f32 z h =
    rw (le_value-bytes_4 (pos_part z) (unsigned_lt z (2 ^ 32) h.0 h.1 (omega arith)))
      (unsigned_part z h.0)
decode-encode f64 z h =
    rw (le_value-bytes_8 (pos_part z) (unsigned_lt z (2 ^ 64) h.0 h.1 (omega arith)))
      (unsigned_part z h.0)

pub push_back-encode :
    (k : Kind) (heap : Heap) (b : ByteBuffer) (z : ℤ)
    → push_back k heap b z ≡ push_internal heap b (encode k z)
unfolding encode push_back Typed.push_back_i8 Typed.push_back_u8 Typed.push_back_i16
    Typed.push_back_u16 Typed.push_back_i32 Typed.push_back_u32 Typed.push_back_i64
    Typed.push_back_u64 Typed.push_back_f32 Typed.push_back_f64
push_back-encode i8 heap b z = refl
push_back-encode u8 heap b z = refl
push_back-encode i16 heap b z = refl
push_back-encode u16 heap b z = refl
push_back-encode i32 heap b z = refl
push_back-encode u32 heap b z = refl
push_back-encode i64 heap b z = refl
push_back-encode u64 heap b z = refl
push_back-encode f32 heap b z = refl
push_back-encode f64 heap b z = refl

load-unsigned : (f : List ℕ → ℕ) (r : Popped) → Typed.unsigned (load f r) ≡ load (λ p. pos (f p)) r
load-unsigned f none = refl
load-unsigned f (some (p, b)) = refl

pop-decode : (k : Kind) (b : ByteBuffer) → pop k b ≡ load (decode k) (pop_internal b (width k))
unfolding decode pop Typed.pop_i8 Typed.pop_u8 Typed.pop_i16 Typed.pop_u16 Typed.pop_i32
    Typed.pop_u32 Typed.pop_i64 Typed.pop_u64 Typed.pop_f32 Typed.pop_f64
pop-decode i8 b = refl
pop-decode u8 b = load-unsigned _ (pop_internal b (width u8))
pop-decode i16 b = refl
pop-decode u16 b = load-unsigned _ (pop_internal b (width u16))
pop-decode i32 b = refl
pop-decode u32 b = load-unsigned _ (pop_internal b (width u32))
pop-decode i64 b = refl
pop-decode u64 b = load-unsigned _ (pop_internal b (width u64))
pop-decode f32 b = load-unsigned _ (pop_internal b (width f32))
pop-decode f64 b = load-unsigned _ (pop_internal b (width f64))

pop_front-decode :
    (k : Kind) (b : ByteBuffer) → pop_front k b ≡ load (decode k) (pop_front_internal b (width k))
unfolding decode pop_front Typed.pop_front_i8 Typed.pop_front_u8 Typed.pop_front_i16
    Typed.pop_front_u16 Typed.pop_front_i32 Typed.pop_front_u32 Typed.pop_front_i64
    Typed.pop_front_u64 Typed.pop_front_f32 Typed.pop_front_f64
pop_front-decode i8 b = refl
pop_front-decode u8 b = load-unsigned _ (pop_front_internal b (width u8))
pop_front-decode i16 b = refl
pop_front-decode u16 b = load-unsigned _ (pop_front_internal b (width u16))
pop_front-decode i32 b = refl
pop_front-decode u32 b = load-unsigned _ (pop_front_internal b (width u32))
pop_front-decode i64 b = refl
pop_front-decode u64 b = load-unsigned _ (pop_front_internal b (width u64))
pop_front-decode f32 b = load-unsigned _ (pop_front_internal b (width f32))
pop_front-decode f64 b = load-unsigned _ (pop_front_internal b (width f64))

pop_front_decoded :
    (k : Kind) (b d : ByteBuffer) (z : ℤ) (p : List ℕ)
    → Fits k z
    → p ≡ encode k z
    → pop_front_internal b (width k) ≡ some (p, d)
    → pop_front k b ≡ some (z, d)
pop_front_decoded k b d z p h e q =
    pop_front-decode k b
    ∙ ap (load (decode k)) q
    ∙ ap (λ y. some (y, d)) (ap (decode k) e ∙ decode-encode k z h)

-- If a value's bytes stand at the front of a valid buffer, `pop_front` gives that value and leaves
-- the rest.
pub pop_front_encoded :
    (k : Kind) (b : ByteBuffer) (z : ℤ) (rest : List ℕ)
    → IsValid b
    → Fits k z
    → contents b ≡ encode k z ++ rest
    → (d : ByteBuffer) × (pop_front k b ≡ some (z, d))
      × IsValid d
      × (contents d ≡ rest)
      × (d.back_offset ≡ b.back_offset)
pop_front_encoded k b z rest v h e = elim (pop_front_refines b (width k) v) [
  | inl (short, _) ↦ absurd (omega (arith, wide))
  | inr (_, (d, q, w, c, back)) ↦ (
    d,
    pop_front_decoded k b d z _ h
        (rw (e, ← length-encode k z) (take-length_append (encode k z) rest)) q,
    w,
    c ∙ rw (e, ← length-encode k z) (drop-length_append (encode k z) rest),
    back,
  )
]
  where
    wide : length (contents b) ≡ width k + length rest
    wide =
        ap length e
        ∙ length-append (encode k z) rest
        ∙ ap (λ n. n + length rest) (length-encode k z)

-- What a push that succeeds does to a valid buffer.
pub record Appends (b : ByteBuffer) (p : List ℕ) (c : ByteBuffer) : Type 0 where
  pub valid : IsValid c
  pub stored : contents c ≡ contents b ++ p
  pub back : c.back_offset ≡ b.back_offset + length p

Appends-of_Pushes :
    (heap : Heap) (b c : ByteBuffer) (p : List ℕ) → Pushes heap b p (done, c) → Appends b p c
Appends-of_Pushes heap b c p (inl (e, _)) = absurd (cc e)
Appends-of_Pushes heap b c p (inr (d, e, v, s, back, _)) =
    subst (Appends b p) (sym (ap (λ r. r.1) e)) (record { valid = v; stored = s; back = back })

push_back-Appends :
    (k : Kind) (heap : Heap) (b c : ByteBuffer) (z : ℤ)
    → IsValid b
    → b.back_offset + width k < 2 ^ 31
    → push_back k heap b z ≡ (done, c)
    → Appends b (encode k z) c
push_back-Appends k heap b c z v small e = Appends-of_Pushes heap b c (encode k z) (
    subst (Pushes heap b (encode k z)) (sym (push_back-encode k heap b z) ∙ e)
      (push_refines heap b (encode k z) v (omega (arith, length-encode k z))))

-- The value of an overload of `push_back` that returned 0 is what `pop` of the same type gives next,
-- and the bytes that were there before are there again.
pub pop-push_back :
    (k : Kind) (heap : Heap) (b c : ByteBuffer) (z : ℤ)
    → IsValid b
    → b.back_offset + width k < 2 ^ 31
    → Fits k z
    → push_back k heap b z ≡ (done, c)
    → (d : ByteBuffer) × (pop k c ≡ some (z, d)) × IsValid d × (contents d ≡ contents b)
pop-push_back k heap b c z v small h e =
    let (d, q, w, s) = pop_refines c (width k) a.valid wide in
    (
      d,
      pop-decode k c
          ∙ ap (load (decode k)) (q ∙ ap (λ p. some (p, d)) last)
          ∙ ap (λ y. some (y, d)) (decode-encode k z h),
      w,
      s ∙ rest,
    )
  where
    a : Appends b (encode k z) c
    a = push_back-Appends k heap b c z v small e

    total : length (contents c) ≡ length (contents b) + width k
    total =
        ap length a.stored
        ∙ length-append (contents b) (encode k z)
        ∙ ap (λ n. length (contents b) + n) (length-encode k z)

    wide : width k ≤ length (contents c)
    wide = omega (arith, total)

    before : length (contents c) - width k ≡ length (contents b)
    before = omega (arith, total)

    last : drop (length (contents c) - width k) (contents c) ≡ encode k z
    last = ap₂ drop before a.stored ∙ drop-length_append (contents b) (encode k z)

    rest : take (length (contents c) - width k) (contents c) ≡ contents b
    rest = ap₂ take before a.stored ∙ take-length_append (contents b) (encode k z)
