-- ===== src/Detection/RoundTrip.antt =====
-- otl_baseclass.h: `fromByteBuffer` undoes `toByteBuffer`.
use otl.Common.{
  ℕ, ◌+◌, ◌*◌, ◌%◌, ◌^◌, ◌<◌, ◌≡◌, refl, sym, ap, subst, ◌∙◌, inl, inr, Option, none, some, List,
  [], ◌∷◌, ◌++◌, append_assoc, append-nil, arith, length, All,
}
use otl.Common.Int.{ℤ, pos}
use otl.Buffer.{Heap, ByteBuffer}
use otl.Buffer.Typed.{
  Kind, i32, u32, f32, width, push_back, pop_front, Fits, pop_front_i32, pop_front_u32,
  pop_front_f32, unsigned,
}
use otl.Buffer.Invariant.{IsValid, contents}
use otl.Buffer.Refine.{push_refines}
use otl.Buffer.Create.{IsGenerous, create-IsFresh}
use otl.Buffer.RoundTrip.{encode, length-encode, push_back-encode, Appends, pop_front_encoded}
use otl.Detection.{
  Bbox, Detection, empty, write_box, write_boxes, to_byte_buffer, pop_into, read_box, read_boxes,
  from_byte_buffer,
}

-- With memory, a push succeeds, and appends the value's bytes.
pub push_back_generous :
    (k : Kind) (heap : Heap) (b : ByteBuffer) (z : ℤ)
    → IsGenerous heap
    → IsValid b
    → b.back_offset + width k < 2 ^ 31
    → Appends b (encode k z) (push_back k heap b z).1
push_back_generous k heap b z g v small =
    rw push_back-encode
      (elim (push_refines heap b (encode k z) v (omega (arith, length-encode k z))) [
        | inl (_, (n, e)) ↦ absurd (g n e)
        | inr (c, e, w, s, back, _) ↦
            subst (Appends b (encode k z)) (sym (ap (λ r. r.1) e))
              (record { valid = w; stored = s; back = back })
      ])

-- The bytes of a box, with what follows.
pub box_bytes : Bbox → List ℕ → List ℕ
box_bytes o rest =
    encode f32 (pos o.x1)
    ++ (encode f32 (pos o.y1)
        ++ (encode f32 (pos o.x2)
            ++ (encode f32 (pos o.y2)
                ++ (encode f32 (pos o.confidence) ++ (encode i32 o.class_id ++ rest)))))

-- `f rest` is what was written with `rest` behind it; `n` is how much.
record Writes (b : ByteBuffer) (f : List ℕ → List ℕ) (n : ℕ) (c : ByteBuffer) : Type 0 where
  valid : IsValid c
  stored : (rest : List ℕ) → contents c ++ rest ≡ contents b ++ f rest
  back : c.back_offset ≡ b.back_offset + n

Writes-trans :
    {b c d : ByteBuffer} {f g : List ℕ → List ℕ} {m n : ℕ}
    → Writes b f m c
    → Writes c g n d
    → Writes b (λ rest. f (g rest)) (m + n) d
Writes-trans {f} {g} h k = record {
  valid = k.valid;
  stored = λ rest. k.stored rest ∙ h.stored (g rest);
  back = let x = h.back in let y = k.back in omega arith;
}

push-Writes :
    (k : Kind) (heap : Heap) (b : ByteBuffer) (z : ℤ)
    → IsGenerous heap
    → IsValid b
    → b.back_offset + width k < 2 ^ 31
    → Writes b (λ rest. encode k z ++ rest) (width k) (push_back k heap b z).1
push-Writes k heap b z g v small = record {
  valid = a.valid;
  stored = λ rest. ap (λ p. p ++ rest) a.stored ∙ append_assoc (contents b) (encode k z) rest;
  back = a.back ∙ ap (λ n. b.back_offset + n) (length-encode k z);
}
  where
    a : Appends b (encode k z) (push_back k heap b z).1
    a = push_back_generous k heap b z g v small

write_box-Writes :
    (heap : Heap) (b : ByteBuffer) (o : Bbox)
    → IsGenerous heap
    → IsValid b
    → b.back_offset + 24 < 2 ^ 31
    → Writes b (box_bytes o) 24 (write_box heap b o)
unfolding write_box box_bytes push_back
write_box-Writes heap b o g v small =
    let w1 = push-Writes f32 heap b (pos o.x1) g v (omega arith) in
    let e1 = w1.back in
    let w2 = push-Writes f32 heap _ (pos o.y1) g w1.valid (omega arith) in
    let e2 = w2.back in
    let w3 = push-Writes f32 heap _ (pos o.x2) g w2.valid (omega arith) in
    let e3 = w3.back in
    let w4 = push-Writes f32 heap _ (pos o.y2) g w3.valid (omega arith) in
    let e4 = w4.back in
    let w5 = push-Writes f32 heap _ (pos o.confidence) g w4.valid (omega arith) in
    let e5 = w5.back in
    let w6 = push-Writes i32 heap _ o.class_id g w5.valid (omega arith) in
    Writes-trans w1 (Writes-trans w2 (Writes-trans w3 (Writes-trans w4 (Writes-trans w5 w6))))

abbrev onto_boxes : List Bbox → List ℕ → List ℕ
onto_boxes [] rest = rest
onto_boxes (o ∷ os) rest = box_bytes o (onto_boxes os rest)

write_boxes-Writes :
    (heap : Heap) (b : ByteBuffer) (os : List Bbox)
    → IsGenerous heap
    → IsValid b
    → b.back_offset + 24 * length os < 2 ^ 31
    → Writes b (onto_boxes os) (24 * length os) (write_boxes heap b os)
unfolding write_boxes
write_boxes-Writes heap b [] g v small = record {
  valid = v;
  stored = λ rest. refl;
  back = omega arith;
}
write_boxes-Writes heap b (o ∷ os) g v small =
    let w = write_box-Writes heap b o g v (omega arith) in
    let back = w.back in
    subst (λ n. Writes b (onto_boxes (o ∷ os)) n (write_boxes heap (write_box heap b o) os))
      (omega arith)
      (Writes-trans w (write_boxes-Writes heap (write_box heap b o) os g w.valid (omega arith)))

unsigned_inv :
    (r : Option (ℕ × ByteBuffer)) (x : ℕ) (d : ByteBuffer)
    → unsigned r ≡ some (pos x, d)
    → r ≡ some (x, d)
unsigned_inv none x d e = cc
unsigned_inv (some (v, b)) x d e = ground arith

-- `r` is a read of `z` with `rest` left.
abbrev Reads {ℓ} : {A : Type ℓ} → A × ByteBuffer → A → List ℕ → Type ℓ
Reads r z rest = (d : ByteBuffer) × (r ≡ (z, d)) × IsValid d × (contents d ≡ rest)

read_f32 :
    (old : ℕ) (b : ByteBuffer) (x : ℕ) (rest : List ℕ)
    → IsValid b
    → x < 2 ^ 32
    → contents b ≡ encode f32 (pos x) ++ rest
    → Reads (pop_into old b (pop_front_f32 b)) x rest
unfolding pop_front
read_f32 old b x rest v h e =
    let (d, q, w, c, _) = pop_front_encoded f32 b (pos x) rest v (omega arith, omega arith) e in
    (d, ap (pop_into old b) (unsigned_inv (pop_front_f32 b) x d q), w, c)

read_u32 :
    (old : ℕ) (b : ByteBuffer) (x : ℕ) (rest : List ℕ)
    → IsValid b
    → x < 2 ^ 32
    → contents b ≡ encode u32 (pos x) ++ rest
    → Reads (pop_into old b (pop_front_u32 b)) x rest
unfolding pop_front
read_u32 old b x rest v h e =
    let (d, q, w, c, _) = pop_front_encoded u32 b (pos x) rest v (omega arith, omega arith) e in
    (d, ap (pop_into old b) (unsigned_inv (pop_front_u32 b) x d q), w, c)

read_i32 :
    (old : ℤ) (b : ByteBuffer) (z : ℤ) (rest : List ℕ)
    → IsValid b
    → Fits i32 z
    → contents b ≡ encode i32 z ++ rest
    → Reads (pop_into old b (pop_front_i32 b)) z rest
unfolding pop_front
read_i32 old b z rest v h e =
    let (d, q, w, c, _) = pop_front_encoded i32 b z rest v h e in (d, ap (pop_into old b) q, w, c)

-- The values of a box are those of its types.
pub record BoxFits (o : Bbox) : Type 0 where
  pub class_fits : Fits i32 o.class_id
  pub confidence_fits : o.confidence < 2 ^ 32
  pub x1_fits : o.x1 < 2 ^ 32
  pub y1_fits : o.y1 < 2 ^ 32
  pub x2_fits : o.x2 < 2 ^ 32
  pub y2_fits : o.y2 < 2 ^ 32

read_box-Reads :
    (g : Bbox) (b : ByteBuffer) (o : Bbox) (rest : List ℕ)
    → IsValid b
    → BoxFits o
    → contents b ≡ box_bytes o rest
    → Reads (read_box g b) o rest
unfolding read_box box_bytes
read_box-Reads g b o rest v h e =
    let (b1, e1, v1, c1) = read_f32 g.x1 b o.x1 _ v h.x1_fits e in
    let (b2, e2, v2, c2) = read_f32 g.y1 b1 o.y1 _ v1 h.y1_fits c1 in
    let (b3, e3, v3, c3) = read_f32 g.x2 b2 o.x2 _ v2 h.x2_fits c2 in
    let (b4, e4, v4, c4) = read_f32 g.y2 b3 o.y2 _ v3 h.y2_fits c3 in
    let (b5, e5, v5, c5) = read_f32 g.confidence b4 o.confidence _ v4 h.confidence_fits c4 in
    let (b6, e6, v6, c6) = read_i32 g.class_id b5 o.class_id rest v5 h.class_fits c5 in
    (b6, rw (e1, e2, e3, e4, e5, e6), v6, c6)

read_boxes-Reads :
    (g : Bbox) (os : List Bbox) (b : ByteBuffer) (boxes : List Bbox) (rest : List ℕ)
    → IsValid b
    → All BoxFits os
    → contents b ≡ onto_boxes os rest
    → Reads (read_boxes g (length os) b boxes) (boxes ++ os) rest
unfolding read_boxes
read_boxes-Reads g [] b boxes rest v h e = (b, rw append-nil, v, e)
read_boxes-Reads g (o ∷ os) b boxes rest v h e =
    let (c, q, w, k) = read_box-Reads g b o (onto_boxes os rest) v h.0 e in
    let (d, r, x, l) = read_boxes-Reads g os c (boxes ++ (o ∷ [])) rest w h.1 k in
    (d, rw (q, read_boxes) (r ∙ ap (λ y. (y, d)) (append_assoc boxes (o ∷ []) os)), x, l)

-- The bytes on the wire.
abbrev wire : Detection → List ℕ
wire d = encode i32 d.type ++ (encode u32 (pos (length d.bboxes)) ++ onto_boxes d.bboxes [])

abbrev WritesAll : Detection → ByteBuffer → Type 0
WritesAll d c = IsValid c × (contents c ≡ wire d)

to_byte_buffer-Writes :
    (heap : Heap) (d : Detection)
    → IsGenerous heap
    → 8 + 24 * length d.bboxes < 2 ^ 31
    → (c : ByteBuffer) × (to_byte_buffer heap d ≡ some c) × WritesAll d c
unfolding to_byte_buffer push_back
to_byte_buffer-Writes heap d g small =
    let (b, e, f) = create-IsFresh heap g in
    let z = f.back in
    let w1 = push-Writes i32 heap b d.type g f.valid (omega arith) in
    let e1 = w1.back in
    let w2 = push-Writes u32 heap _ (pos (length d.bboxes)) g w1.valid (omega arith) in
    let e2 = w2.back in
    let w3 = write_boxes-Writes heap _ d.bboxes g w2.valid (omega arith) in
    let w = Writes-trans w1 (Writes-trans w2 w3) in
    (
      write_boxes heap _ d.bboxes,
      rw (e, to_byte_buffer, fits),
      (w.valid, sym (append-nil _) ∙ w.stored [] ∙ ap (λ p. p ++ wire d) f.stored),
    )
  where
    fits : length d.bboxes % 2 ^ 32 ≡ length d.bboxes
    fits = omega arith

-- If the heap never refuses, a `Detection` of values of its types that takes less than 2^31 bytes is
-- written by `toByteBuffer` to a buffer from which `fromByteBuffer` reads the same `Detection` into
-- an empty one, whatever stood in its uninitialised variables, with nothing left in the buffer.
pub from_byte_buffer-to_byte_buffer :
    (heap : Heap) (d : Detection) (junk_type : ℤ) (junk : Bbox)
    → IsGenerous heap
    → Fits i32 d.type
    → All BoxFits d.bboxes
    → 8 + 24 * length d.bboxes < 2 ^ 31
    → (b c : ByteBuffer) × (to_byte_buffer heap d ≡ some b)
      × (from_byte_buffer junk_type junk b empty ≡ (d, c))
      × (contents c ≡ [])
unfolding from_byte_buffer empty
from_byte_buffer-to_byte_buffer heap d junk_type junk g t boxes small =
    let (b, e, k') = to_byte_buffer-Writes heap d g small in
    let (v, k) = k' in
    let (b1, e1, v1, k1) = read_i32 junk_type b d.type _ v t k in
    let (b2, e2, v2, k2) = read_u32 0 b1 (length d.bboxes) _ v1 (omega arith) k1 in
    let (c, e3, v3, k3) = read_boxes-Reads junk d.bboxes b2 [] [] v2 boxes k2 in
    (b, c, e, rw (e1, e2, e3), k3)
