-- ===== src/Detection.antt =====
-- otl_baseclass.h: `Bbox` and `Detection`, with their form in a `ByteBuffer`.
pub mod RoundTrip
mod Tests
use otl.Common.{ℕ, zero, suc, ◌%◌, ◌^◌, Option, none, some, List, [], ◌∷◌, ◌++◌, length}
use otl.Common.Int.{ℤ, pos}
use otl.Buffer.{Heap, ByteBuffer, create}
use otl.Buffer.Typed.{
  push_back_i32, push_back_u32, push_back_f32, pop_front_i32, pop_front_u32, pop_front_f32,
}

-- A `float` is its bit pattern.
pub record Bbox : Type 0 where
  pub class_id : ℤ
  pub confidence : ℕ
  pub x1 : ℕ
  pub y1 : ℕ
  pub x2 : ℕ
  pub y2 : ℕ

pub record Detection : Type 0 where
  pub type : ℤ
  pub bboxes : List Bbox

pub empty : Detection
empty = record { type = pos 0; bboxes = [] }

pub push_back : Detection → Bbox → Detection
push_back d box = record d { bboxes = d.bboxes ++ (box ∷ []) }

pub clear : Detection → Detection
clear d = record d { bboxes = [] }

pub size : Detection → ℕ
size d = length d.bboxes

-- One round of the loop of `toByteBuffer`. The results of the pushes are not looked at.
pub write_box : Heap → ByteBuffer → Bbox → ByteBuffer
write_box heap b o =
    let b1 = (push_back_f32 heap b o.x1).1 in
    let b2 = (push_back_f32 heap b1 o.y1).1 in
    let b3 = (push_back_f32 heap b2 o.x2).1 in
    let b4 = (push_back_f32 heap b3 o.y2).1 in
    let b5 = (push_back_f32 heap b4 o.confidence).1 in (push_back_i32 heap b5 o.class_id).1

pub write_boxes : Heap → ByteBuffer → List Bbox → ByteBuffer
write_boxes heap b [] = b
write_boxes heap b (o ∷ os) = write_boxes heap (write_box heap b o) os

-- `toByteBuffer`; `none` is the failed assertion of `ByteBuffer()`, whose size is 1024.
pub to_byte_buffer : Heap → Detection → Option ByteBuffer
to_byte_buffer heap d = elim (create heap 1024) [
  | none ↦ none
  | some b ↦
      let b1 = (push_back_i32 heap b d.type).1 in
      let b2 = (push_back_u32 heap b1 (length d.bboxes % 2 ^ 32)).1 in
      some (write_boxes heap b2 d.bboxes)
]

-- A pop into a variable: where the pop fails, the variable keeps its value.
abbrev pub pop_into {ℓ} : {A : Type ℓ} → A → ByteBuffer → Option (A × ByteBuffer) → A × ByteBuffer
pop_into old b none = (old, b)
pop_into old b (some r) = r

-- One round of the loop of `fromByteBuffer`. `o` is the box as it is declared, uninitialised.
pub read_box : Bbox → ByteBuffer → Bbox × ByteBuffer
read_box o b =
    let (x1, b1) = pop_into o.x1 b (pop_front_f32 b) in
    let (y1, b2) = pop_into o.y1 b1 (pop_front_f32 b1) in
    let (x2, b3) = pop_into o.x2 b2 (pop_front_f32 b2) in
    let (y2, b4) = pop_into o.y2 b3 (pop_front_f32 b3) in
    let (confidence, b5) = pop_into o.confidence b4 (pop_front_f32 b4) in
    let (class_id, b6) = pop_into o.class_id b5 (pop_front_i32 b5) in
    (
      record { class_id = class_id; confidence = confidence; x1 = x1; y1 = y1; x2 = x2; y2 = y2 },
      b6,
    )

pub read_boxes : Bbox → ℕ → ByteBuffer → List Bbox → List Bbox × ByteBuffer
read_boxes o zero b boxes = (boxes, b)
read_boxes o (suc n) b boxes = let (box, c) = read_box o b in read_boxes o n c (boxes ++ (box ∷ []))

-- `fromByteBuffer` into `d`. The first arguments are what stands in `type` and in the boxes before
-- they are read.
pub from_byte_buffer : ℤ → Bbox → ByteBuffer → Detection → Detection × ByteBuffer
from_byte_buffer type o b d =
    let (t, b1) = pop_into type b (pop_front_i32 b) in
    let (n, b2) = pop_into 0 b1 (pop_front_u32 b1) in
    let (boxes, b3) = read_boxes o n b2 d.bboxes in (record { type = t; bboxes = boxes }, b3)
