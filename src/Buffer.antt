-- ===== src/Buffer.antt =====
-- otl_baseclass.h and otl_baseclass.cpp: `ByteBuffer`, a growable block of bytes with a front and a
-- back offset. The block is the list of its bytes; `malloc` is a parameter, since its bytes are
-- indeterminate and it may fail. Offsets are the source's `int`s; `IsValid` keeps them below 2^31.
pub mod Words
pub mod Typed
pub mod Invariant
pub mod Create
pub mod Refine
pub mod RoundTrip
pub mod Overrun
pub mod Tests
use otl.Common.{
  ℕ, zero, suc, ◌+◌, ◌-◌, ◌*◌, ◌%◌, ◌^◌, ◌≤◌, ◌≡◌, Option, none, some, List, [], ◌++◌, ltb, leb,
  ◌==◌, if◌then◌else◌, length, take, drop,
}
use otl.Common.Int.{ℤ, pos, negsuc, sub_ℕ}

-- What the buffer needs of the heap: a fresh block has the size that was asked for.
pub record Heap : Type 0 where
  pub malloc : ℕ → Option (List ℕ)
  pub length-malloc : (n : ℕ) (block : List ℕ) → malloc n ≡ some block → length block ≡ n

pub record ByteBuffer : Type 0 where
  pub bytes : List ℕ
  pub back_offset : ℕ
  pub front_offset : ℕ
  pub capacity : ℕ

-- The result of an operation that returns 0 or -1.
pub data Status : Type 0 where
  done failed : Status

abbrev pub size_t_mod : ℕ
size_t_mod = 2 ^ 64

-- A conversion to `size_t`.
abbrev pub to_size_t : ℤ → ℕ
to_size_t (pos n) = n % size_t_mod
to_size_t (negsuc n) = size_t_mod - 1 - n % size_t_mod

-- `memcpy(block + offset, p, len)` inside the block.
abbrev pub write_at : List ℕ → ℕ → List ℕ → List ℕ
write_at block offset p = take offset block ++ (p ++ drop (offset + length p) block)

-- `memcpy(p, block + offset, len)` inside the block.
abbrev pub read_at : List ℕ → ℕ → ℕ → List ℕ
read_at block offset len = take len (drop offset block)

-- `realloc` to a larger size: the old bytes, then indeterminate ones.
pub realloc : Heap → List ℕ → ℕ → Option (List ℕ)
realloc heap block n = elim (heap.malloc n) [
  | none ↦ none
  | some fresh ↦ some (block ++ drop (length block) fresh)
]

-- `while (newCap < need) newCap *= 2;`. Without fuel there is no result.
pub grow : ℕ → ℕ → ℕ → Option ℕ
grow zero new_cap need = none
grow (suc fuel) new_cap need =
    let rest = grow fuel (new_cap * 2 % size_t_mod) need in
    if ltb new_cap need then rest else some new_cap

-- Sixty-five tests of the loop: the capacity doubles at most 64 times.
abbrev pub grow_fuel : ℕ
grow_fuel = 65

-- `none` is `false`: no memory.
pub check_buffer : Heap → ByteBuffer → ℕ → Option ByteBuffer
check_buffer heap b len =
    let need = (b.back_offset + len) % size_t_mod in
    let first = if b.capacity == 0 then 1024 else b.capacity in
    if ltb b.capacity need
    then elim (grow grow_fuel first need) [
      | none ↦ none
      | some new_cap ↦ elim (realloc heap b.bytes new_cap) [
        | none ↦ none
        | some block ↦ some (record b { bytes = block; capacity = new_cap })
      ]
    ]
    else some b

pub push_internal : Heap → ByteBuffer → List ℕ → Status × ByteBuffer
push_internal heap b p = elim (check_buffer heap b (length p)) [
  | none ↦ (failed, b)
  | some c ↦ (
    done,
    record c { bytes = write_at c.bytes c.back_offset p; back_offset = c.back_offset + length p },
  )
]

-- The bytes that a pop stores through its pointer, with the buffer after it; `none` is -1, and then
-- nothing is stored and the buffer is as it was.
abbrev pub Popped : Type 0
Popped = Option (List ℕ × ByteBuffer)

pub pop_internal : ByteBuffer → ℕ → Popped
pop_internal b len =
    if leb len b.back_offset
    then some
        (read_at b.bytes (b.back_offset - len) len, record b { back_offset = b.back_offset - len })
    else none

pub pop_front_internal : ByteBuffer → ℕ → Popped
pop_front_internal b len =
    if ltb (to_size_t (sub_ℕ b.back_offset b.front_offset)) len
    then none
    else some (read_at b.bytes b.front_offset len, record b { front_offset = b.front_offset + len })

-- `size()`, an `int`.
pub size : ByteBuffer → ℤ
size b = sub_ℕ b.back_offset b.front_offset

-- `ByteBuffer(size_t size)`; `none` is the failed assertion.
pub create : Heap → ℕ → Option ByteBuffer
create heap size =
    let wanted = if size == 0 then 1024 else size in
    elim (heap.malloc wanted) [
      | none ↦ none
      | some block ↦
          some (record { bytes = block; back_offset = 0; front_offset = 0; capacity = wanted })
    ]

-- `ByteBuffer(char* buf, int size, free_func)`: the buffer takes the block over.
pub adopt : List ℕ → ByteBuffer
adopt buf = record {
  bytes = buf;
  back_offset = length buf;
  front_offset = 0;
  capacity = length buf;
}

-- `ByteBuffer(const char* buf, size_t size)` and `ByteBuffer(const std::string&)`: a copy.
pub copy : Heap → List ℕ → Option ByteBuffer
copy heap buf =
    if length buf == 0
    then some (record { bytes = []; back_offset = 0; front_offset = 0; capacity = 0 })
    else elim (heap.malloc (length buf)) [
      | none ↦ none
      | some block ↦ some (record {
        bytes = write_at block 0 buf;
        back_offset = length buf;
        front_offset = 0;
        capacity = length buf;
      })
    ]
