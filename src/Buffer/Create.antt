-- ===== src/Buffer/Create.antt =====
-- otl_baseclass.cpp: the constructors of `ByteBuffer`.
use otl.Common.{
  ℕ, ◌+◌, ◌-◌, ◌^◌, ◌<◌, ◌≡◌, refl, ap, ◌∙◌, take, inl, inr, none, some, true, List, [], ◌∷◌, arith,
  length, Option-cases, Bool-cases, ◌==◌, take_all, take-length_append, drop,
}
use otl.Buffer.{Heap, ByteBuffer, create, adopt, copy, write_at}
use otl.Buffer.Invariant.{IsValid, contents, length-write_at}

-- A heap that never refuses.
abbrev pub IsGenerous : Heap → Type 0
IsGenerous heap = (n : ℕ) → ¬ (heap.malloc n ≡ none)

-- A buffer as a constructor leaves it.
pub record IsFresh (b : ByteBuffer) (buf : List ℕ) : Type 0 where
  pub valid : IsValid b
  pub stored : contents b ≡ buf
  pub back : b.back_offset ≡ length buf

-- `ByteBuffer()` gives a valid buffer with nothing in it.
pub create-IsFresh :
    (heap : Heap) → IsGenerous heap → (b : ByteBuffer) × (create heap 1024 ≡ some b) × IsFresh b []
unfolding create
create-IsFresh heap g = elim (Option-cases (heap.malloc 1024)) [
  | inl e ↦ absurd (g 1024 e)
  | inr (block, e) ↦ (
    record { bytes = block; back_offset = 0; front_offset = 0; capacity = 1024 },
    rw (e, create),
    record {
      valid = record {
        filled = heap.length-malloc 1024 block e;
        front_in = omega arith;
        back_in = omega arith;
        small = omega arith;
      };
      stored = refl;
      back = refl;
    },
  )
]

-- Taking a block over gives a valid buffer that holds the block.
pub adopt-IsFresh : (buf : List ℕ) → length buf < 2 ^ 31 → IsFresh (adopt buf) buf
unfolding adopt
adopt-IsFresh buf h = record {
  valid = record { filled = refl; front_in = omega arith; back_in = omega arith; small = h };
  stored = take_all (length buf - 0) buf (omega arith);
  back = refl;
}

copied :
    (block buf : List ℕ)
    → length block ≡ length buf
    → length buf < 2 ^ 31
    → IsFresh
        (record {
          bytes = write_at block 0 buf;
          back_offset = length buf;
          front_offset = 0;
          capacity = length buf;
        })
        buf
copied block buf l h = record {
  valid = record {
    filled = rw (length-write_at block 0 buf (omega arith)) l;
    front_in = omega arith;
    back_in = omega arith;
    small = h;
  };
  stored =
      ap (λ n. take n (write_at block 0 buf)) (omega arith)
      ∙ take-length_append buf (drop (0 + length buf) block);
  back = refl;
}

nil_of_length : (buf : List ℕ) → (length buf == 0) ≡ true → [] ≡ buf
nil_of_length [] e = refl
nil_of_length (x ∷ xs) e = absurd (ground arith)

-- Copying a block of less than 2^31 bytes, or a string, gives a valid buffer that holds the same bytes.
pub copy-IsFresh :
    (heap : Heap) (buf : List ℕ)
    → IsGenerous heap
    → length buf < 2 ^ 31
    → (b : ByteBuffer) × (copy heap buf ≡ some b) × IsFresh b buf
unfolding copy
copy-IsFresh heap buf g h = elim (Bool-cases (length buf == 0)) [
  | inl e ↦ (
    record { bytes = []; back_offset = 0; front_offset = 0; capacity = 0 },
    rw (e, copy),
    record {
      valid = record {
        filled = refl;
        front_in = omega arith;
        back_in = omega arith;
        small = omega arith;
      };
      stored = nil_of_length buf e;
      back = ground arith;
    },
  )
  | inr e ↦ elim (Option-cases (heap.malloc (length buf))) [
    | inl f ↦ absurd (g (length buf) f)
    | inr (block, f) ↦ (
      record {
        bytes = write_at block 0 buf;
        back_offset = length buf;
        front_offset = 0;
        capacity = length buf;
      },
      rw (e, f, copy),
      copied block buf (heap.length-malloc (length buf) block f) h,
    )
  ]
]
