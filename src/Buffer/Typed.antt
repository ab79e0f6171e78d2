-- ===== src/Buffer/Typed.antt =====
-- otl_baseclass.h and otl_baseclass.cpp: the typed overloads of `push_back`, `pop` and `pop_front`,
-- and the templates. An integer is stored in network order. A `float` or `double` is its bit
-- pattern, stored in host order. `ntohs` and `ntohl` are `htons` and `htonl`.
use otl.Common.{ℕ, ◌-◌, ◌^◌, Option, none, some, List}
use otl.Common.Int.{ℤ, pos, negsuc, pos_part, ◌≤ℤ◌}
use otl.Buffer.{Heap, ByteBuffer, Status, Popped, push_internal, pop_internal, pop_front_internal}
use otl.Buffer.Words.{le_bytes, le_value, htons, htonl, bm_htonll, bm_ntohll, to_word, of_word}

-- What an overload stores through its reference; `none` is -1, and then nothing is stored.
abbrev pub load {ℓ} : {A : Type ℓ} → (List ℕ → A) → Popped → Option (A × ByteBuffer)
load f none = none
load f (some (p, b)) = some (f p, b)

-- The overloads by the type of their argument.
pub data Kind : Type 0 where
  i8 u8 i16 u16 i32 u32 i64 u64 f32 f64 : Kind

abbrev pub width : Kind → ℕ
width i8 = 1
width u8 = 1
width i16 = 2
width u16 = 2
width i32 = 4
width u32 = 4
width i64 = 8
width u64 = 8
width f32 = 4
width f64 = 8

unfoldable pub push_back_i8 : Heap → ByteBuffer → ℤ → Status × ByteBuffer
push_back_i8 heap b v = push_internal heap b (le_bytes 1 (to_word (2 ^ 8) v))

unfoldable pub push_back_u8 : Heap → ByteBuffer → ℕ → Status × ByteBuffer
push_back_u8 heap b v = push_internal heap b (le_bytes 1 v)

unfoldable pub push_back_i16 : Heap → ByteBuffer → ℤ → Status × ByteBuffer
push_back_i16 heap b v = push_internal heap b (le_bytes 2 (htons (to_word (2 ^ 16) v)))

unfoldable pub push_back_u16 : Heap → ByteBuffer → ℕ → Status × ByteBuffer
push_back_u16 heap b v = push_internal heap b (le_bytes 2 (htons v))

unfoldable pub push_back_i32 : Heap → ByteBuffer → ℤ → Status × ByteBuffer
push_back_i32 heap b v = push_internal heap b (le_bytes 4 (htonl (to_word (2 ^ 32) v)))

unfoldable pub push_back_u32 : Heap → ByteBuffer → ℕ → Status × ByteBuffer
push_back_u32 heap b v = push_internal heap b (le_bytes 4 (htonl v))

unfoldable pub push_back_i64 : Heap → ByteBuffer → ℤ → Status × ByteBuffer
push_back_i64 heap b v = push_internal heap b (le_bytes 8 (bm_htonll (to_word (2 ^ 64) v)))

unfoldable pub push_back_u64 : Heap → ByteBuffer → ℕ → Status × ByteBuffer
push_back_u64 heap b v = push_internal heap b (le_bytes 8 (bm_htonll v))

unfoldable pub push_back_f32 : Heap → ByteBuffer → ℕ → Status × ByteBuffer
push_back_f32 heap b v = push_internal heap b (le_bytes 4 v)

unfoldable pub push_back_f64 : Heap → ByteBuffer → ℕ → Status × ByteBuffer
push_back_f64 heap b v = push_internal heap b (le_bytes 8 v)

unfoldable pub pop_i8 : ByteBuffer → Option (ℤ × ByteBuffer)
pop_i8 b = load (λ p. of_word (2 ^ 8) (le_value p)) (pop_internal b 1)

unfoldable pub pop_u8 : ByteBuffer → Option (ℕ × ByteBuffer)
pop_u8 b = load (λ p. le_value p) (pop_internal b 1)

unfoldable pub pop_i16 : ByteBuffer → Option (ℤ × ByteBuffer)
pop_i16 b = load (λ p. of_word (2 ^ 16) (htons (le_value p))) (pop_internal b 2)

unfoldable pub pop_u16 : ByteBuffer → Option (ℕ × ByteBuffer)
pop_u16 b = load (λ p. htons (le_value p)) (pop_internal b 2)

unfoldable pub pop_i32 : ByteBuffer → Option (ℤ × ByteBuffer)
pop_i32 b = load (λ p. of_word (2 ^ 32) (htonl (le_value p))) (pop_internal b 4)

unfoldable pub pop_u32 : ByteBuffer → Option (ℕ × ByteBuffer)
pop_u32 b = load (λ p. htonl (le_value p)) (pop_internal b 4)

unfoldable pub pop_i64 : ByteBuffer → Option (ℤ × ByteBuffer)
pop_i64 b = load (λ p. of_word (2 ^ 64) (bm_ntohll (le_value p))) (pop_internal b 8)

unfoldable pub pop_u64 : ByteBuffer → Option (ℕ × ByteBuffer)
pop_u64 b = load (λ p. bm_ntohll (le_value p)) (pop_internal b 8)

unfoldable pub pop_f32 : ByteBuffer → Option (ℕ × ByteBuffer)
pop_f32 b = load (λ p. le_value p) (pop_internal b 4)

unfoldable pub pop_f64 : ByteBuffer → Option (ℕ × ByteBuffer)
pop_f64 b = load (λ p. le_value p) (pop_internal b 8)

unfoldable pub pop_front_i8 : ByteBuffer → Option (ℤ × ByteBuffer)
pop_front_i8 b = load (λ p. of_word (2 ^ 8) (le_value p)) (pop_front_internal b 1)

unfoldable pub pop_front_u8 : ByteBuffer → Option (ℕ × ByteBuffer)
pop_front_u8 b = load (λ p. le_value p) (pop_front_internal b 1)

unfoldable pub pop_front_i16 : ByteBuffer → Option (ℤ × ByteBuffer)
pop_front_i16 b = load (λ p. of_word (2 ^ 16) (htons (le_value p))) (pop_front_internal b 2)

unfoldable pub pop_front_u16 : ByteBuffer → Option (ℕ × ByteBuffer)
pop_front_u16 b = load (λ p. htons (le_value p)) (pop_front_internal b 2)

unfoldable pub pop_front_i32 : ByteBuffer → Option (ℤ × ByteBuffer)
pop_front_i32 b = load (λ p. of_word (2 ^ 32) (htonl (le_value p))) (pop_front_internal b 4)

unfoldable pub pop_front_u32 : ByteBuffer → Option (ℕ × ByteBuffer)
pop_front_u32 b = load (λ p. htonl (le_value p)) (pop_front_internal b 4)

unfoldable pub pop_front_i64 : ByteBuffer → Option (ℤ × ByteBuffer)
pop_front_i64 b = load (λ p. of_word (2 ^ 64) (bm_ntohll (le_value p))) (pop_front_internal b 8)

unfoldable pub pop_front_u64 : ByteBuffer → Option (ℕ × ByteBuffer)
pop_front_u64 b = load (λ p. bm_ntohll (le_value p)) (pop_front_internal b 8)

unfoldable pub pop_front_f32 : ByteBuffer → Option (ℕ × ByteBuffer)
pop_front_f32 b = load (λ p. le_value p) (pop_front_internal b 4)

unfoldable pub pop_front_f64 : ByteBuffer → Option (ℕ × ByteBuffer)
pop_front_f64 b = load (λ p. le_value p) (pop_front_internal b 8)

-- The templates' conversions, by the size of the integer: `tmp`, the bit pattern of the value.
abbrev pub to_network : Kind → ℕ → ℕ
to_network i8 tmp = tmp
to_network u8 tmp = tmp
to_network i16 tmp = htons tmp
to_network u16 tmp = htons tmp
to_network i32 tmp = htonl tmp
to_network u32 tmp = htonl tmp
to_network i64 tmp = bm_htonll tmp
to_network u64 tmp = bm_htonll tmp
to_network f32 tmp = tmp
to_network f64 tmp = tmp

abbrev pub from_network : Kind → ℕ → ℕ
from_network i8 tmp = tmp
from_network u8 tmp = tmp
from_network i16 tmp = htons tmp
from_network u16 tmp = htons tmp
from_network i32 tmp = htonl tmp
from_network u32 tmp = htonl tmp
from_network i64 tmp = bm_ntohll tmp
from_network u64 tmp = bm_ntohll tmp
from_network f32 tmp = tmp
from_network f64 tmp = tmp

-- `template <typename T> int push_back(const T& v)`, on the bit pattern of `v`.
unfoldable pub push_back_t : Kind → Heap → ByteBuffer → ℕ → Status × ByteBuffer
push_back_t k heap b v = push_internal heap b (le_bytes (width k) (to_network k v))

-- `template <typename T> int pop(T& val)`: the bit pattern of `val`.
unfoldable pub pop_t : Kind → ByteBuffer → Option (ℕ × ByteBuffer)
pop_t k b = load (λ p. from_network k (le_value p)) (pop_internal b (width k))

-- `template <typename T> int pop_front(T& val)`.
unfoldable pub pop_front_t : Kind → ByteBuffer → Option (ℕ × ByteBuffer)
pop_front_t k b = load (λ p. from_network k (le_value p)) (pop_front_internal b (width k))

-- Overload resolution, with every value as an integer and a float as its bit pattern.
unfoldable pub push_back : Kind → Heap → ByteBuffer → ℤ → Status × ByteBuffer
push_back i8 heap b z = push_back_i8 heap b z
push_back u8 heap b z = push_back_u8 heap b (pos_part z)
push_back i16 heap b z = push_back_i16 heap b z
push_back u16 heap b z = push_back_u16 heap b (pos_part z)
push_back i32 heap b z = push_back_i32 heap b z
push_back u32 heap b z = push_back_u32 heap b (pos_part z)
push_back i64 heap b z = push_back_i64 heap b z
push_back u64 heap b z = push_back_u64 heap b (pos_part z)
push_back f32 heap b z = push_back_f32 heap b (pos_part z)
push_back f64 heap b z = push_back_f64 heap b (pos_part z)

abbrev pub unsigned : Option (ℕ × ByteBuffer) → Option (ℤ × ByteBuffer)
unsigned none = none
unsigned (some (v, b)) = some (pos v, b)

unfoldable pub pop : Kind → ByteBuffer → Option (ℤ × ByteBuffer)
pop i8 b = pop_i8 b
pop u8 b = unsigned (pop_u8 b)
pop i16 b = pop_i16 b
pop u16 b = unsigned (pop_u16 b)
pop i32 b = pop_i32 b
pop u32 b = unsigned (pop_u32 b)
pop i64 b = pop_i64 b
pop u64 b = unsigned (pop_u64 b)
pop f32 b = unsigned (pop_f32 b)
pop f64 b = unsigned (pop_f64 b)

unfoldable pub pop_front : Kind → ByteBuffer → Option (ℤ × ByteBuffer)
pop_front i8 b = pop_front_i8 b
pop_front u8 b = unsigned (pop_front_u8 b)
pop_front i16 b = pop_front_i16 b
pop_front u16 b = unsigned (pop_front_u16 b)
pop_front i32 b = pop_front_i32 b
pop_front u32 b = unsigned (pop_front_u32 b)
pop_front i64 b = pop_front_i64 b
pop_front u64 b = unsigned (pop_front_u64 b)
pop_front f32 b = unsigned (pop_front_f32 b)
pop_front f64 b = unsigned (pop_front_f64 b)

-- The values that the type of the overload holds.
abbrev pub Fits : Kind → ℤ → Type 0
Fits i8 z = (negsuc (2 ^ 7 - 1) ≤ℤ z) × (z ≤ℤ pos (2 ^ 7 - 1))
Fits u8 z = (pos 0 ≤ℤ z) × (z ≤ℤ pos (2 ^ 8 - 1))
Fits i16 z = (negsuc (2 ^ 15 - 1) ≤ℤ z) × (z ≤ℤ pos (2 ^ 15 - 1))
Fits u16 z = (pos 0 ≤ℤ z) × (z ≤ℤ pos (2 ^ 16 - 1))
Fits i32 z = (negsuc (2 ^ 31 - 1) ≤ℤ z) × (z ≤ℤ pos (2 ^ 31 - 1))
Fits u32 z = (pos 0 ≤ℤ z) × (z ≤ℤ pos (2 ^ 32 - 1))
Fits i64 z = (negsuc (2 ^ 63 - 1) ≤ℤ z) × (z ≤ℤ pos (2 ^ 63 - 1))
Fits u64 z = (pos 0 ≤ℤ z) × (z ≤ℤ pos (2 ^ 64 - 1))
Fits f32 z = (pos 0 ≤ℤ z) × (z ≤ℤ pos (2 ^ 32 - 1))
Fits f64 z = (pos 0 ≤ℤ z) × (z ≤ℤ pos (2 ^ 64 - 1))
