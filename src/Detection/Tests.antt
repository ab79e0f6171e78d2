-- ===== src/Detection/Tests.antt =====
-- `Detection` at a concrete input.
use otl.Common.{◌≡◌, some, [], ◌∷◌, arith}
use otl.Common.Int.{pos, negsuc}
use otl.Buffer.{ByteBuffer}
use otl.Buffer.Invariant.{contents}
use otl.Buffer.Tests.{zeros, zeros-IsGenerous}
use otl.Detection.{Bbox, Detection, empty, to_byte_buffer, from_byte_buffer}
use otl.Detection.RoundTrip.{from_byte_buffer-to_byte_buffer}

abbrev cat_box : Bbox
cat_box = record {
  class_id = negsuc 0;
  confidence = 0x3f000000;
  x1 = 0;
  y1 = 0;
  x2 = 0x3f800000;
  y2 = 0x40000000;
}

abbrev one_cat : Detection
one_cat = record { type = pos 2; bboxes = cat_box ∷ [] }

from_byte_buffer-to_byte_buffer_example :
    (b c : ByteBuffer) × (to_byte_buffer zeros one_cat ≡ some b)
    × (from_byte_buffer (pos 9) cat_box b empty ≡ (one_cat, c))
    × (contents c ≡ [])
from_byte_buffer-to_byte_buffer_example =
    from_byte_buffer-to_byte_buffer zeros one_cat (pos 9) cat_box zeros-IsGenerous (omega arith)
      (omega arith) (omega arith)
