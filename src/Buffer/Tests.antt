-- ===== src/Buffer/Tests.antt =====
-- Tests of the byte buffer, and its theorems at concrete inputs.
use otl.Common.{
  ℕ, ◌≡◌, refl, sym, ap, ◌∙◌, some, List, [], ◌∷◌, arith, length, replicate, length-replicate,
}
use otl.Common.Int.{pos, negsuc}
use otl.Buffer.{
  Heap, ByteBuffer, done, grow, push_internal, pop_internal, pop_front_internal, check_buffer,
  realloc, size,
}
use otl.Buffer.Words.{htonl}
use otl.Buffer.Typed.{i32, push_back, pop, push_back_i32, pop_i32}
use otl.Buffer.Invariant.{IsValid, contents}
use otl.Buffer.Create.{IsGenerous}
use otl.Buffer.Refine.{Pushes, PopsFront, push_refines, pop_front_refines}
use otl.Buffer.RoundTrip.{pop-push_back}
use otl.Buffer.Overrun.{pop_past_front}

of_some : (x y : List ℕ) → some x ≡ some y → x ≡ y
of_some x y e = cc

pub length-zeros : (n : ℕ) (b : List ℕ) → some (replicate n 0) ≡ some b → length b ≡ n
length-zeros n b e = ap length (sym (of_some (replicate n 0) b e)) ∙ length-replicate n 0

-- A heap that gives out zeros.
abbrev pub zeros : Heap
zeros = record { malloc = λ n. some (replicate n 0); length-malloc = length-zeros }

pub zeros-IsGenerous : IsGenerous zeros
zeros-IsGenerous n e = cc

abbrev four : ByteBuffer
four = record { bytes = 7 ∷ 8 ∷ 9 ∷ 10 ∷ []; back_offset = 4; front_offset = 3; capacity = 4 }

four-IsValid : IsValid four
four-IsValid = record {
  filled = refl;
  front_in = omega arith;
  back_in = omega arith;
  small = omega arith;
}

abbrev grown : ByteBuffer
grown = record {
  bytes = 7 ∷ 8 ∷ 9 ∷ 10 ∷ 0 ∷ 0 ∷ 1 ∷ 44 ∷ [];
  back_offset = 8;
  front_offset = 3;
  capacity = 8;
}

push_grows : push_back i32 zeros four (pos 300) ≡ (done, grown)
unfolding push_back push_back_i32 push_internal check_buffer grow realloc htonl
push_grows = refl

pop_gives_back : pop_i32 grown ≡ some (pos 300, record grown { back_offset = 4 })
unfolding pop_i32 pop_internal htonl
pop_gives_back = refl

push_refines_example : Pushes zeros four (1 ∷ 2 ∷ []) (push_internal zeros four (1 ∷ 2 ∷ []))
push_refines_example = push_refines zeros four (1 ∷ 2 ∷ []) four-IsValid (omega arith)

pop_front_refines_example : PopsFront four 1 (pop_front_internal four 1)
pop_front_refines_example = pop_front_refines four 1 four-IsValid

pop-push_back_example :
    (d : ByteBuffer) × (pop i32 grown ≡ some (pos 300, d)) × IsValid d × (contents d ≡ 10 ∷ [])
pop-push_back_example =
    pop-push_back i32 zeros four grown (pos 300) four-IsValid (omega arith)
      (omega arith, omega arith) push_grows

pop_past_front_example :
    (c : ByteBuffer) × (pop_internal four 2 ≡ some (9 ∷ 10 ∷ [], c)) × (size c ≡ negsuc 0)
pop_past_front_example = pop_past_front four 2 four-IsValid (omega arith) (omega arith)
