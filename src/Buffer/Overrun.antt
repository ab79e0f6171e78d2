-- ===== src/Buffer/Overrun.antt =====
-- otl_baseclass.cpp: `check_underflow` compares with the back offset alone, so bytes that were taken
-- from the front can be popped from the back once more.
use otl.Common.{ℕ, ◌-◌, ◌≤◌, ◌<◌, ◌≡◌, some, arith, length, le→leb, leb, false}
use otl.Common.Int.{negsuc}
use otl.Buffer.{ByteBuffer, read_at, pop_internal, size}
use otl.Buffer.Invariant.{IsValid, contents, length-contents}

-- On a valid buffer, a `pop` of more bytes than it holds, but no more than its back offset, succeeds
-- with the bytes in front of the back offset, some of which `pop_front` has taken already, and
-- `size()` is negative afterwards.
pub pop_past_front :
    (b : ByteBuffer) (len : ℕ)
    → IsValid b
    → length (contents b) < len
    → len ≤ b.back_offset
    → (c : ByteBuffer) × (pop_internal b len ≡ some (read_at b.bytes (b.back_offset - len) len, c))
      × (size c ≡ negsuc (len - length (contents b) - 1))
unfolding pop_internal size
pop_past_front b len v h k =
    let l = length-contents v in
    let f = v.front_in in
    let s = v.small in (after, rw (le→leb len b.back_offset k), rw (l, negative) (ground arith))
  where
    after : ByteBuffer
    after = record b { back_offset = b.back_offset - len }

    negative : leb b.front_offset (b.back_offset - len) ≡ false
    negative = let l = length-contents v in ground arith
