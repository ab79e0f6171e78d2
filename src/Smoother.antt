-- ===== src/Smoother.antt =====
-- timestamp_smoother.h: `TimestampSmoother`. `AV_NOPTS_VALUE` is `none`. The weighted mean of two
-- increments, computed in `double`, is a parameter, as are the factor and its clamping; the other
-- sums are those of the integers, so a stamp is taken to stay inside 64 bits.
pub mod Order
use otl.Common.{
  ℕ, zero, suc, ◌+◌, ◌-◌, ◌/◌, ◌%◌, ◌^◌, Bool, true, false, ◌||◌, List, [], ◌∷◌, ◌++◌, Option, none,
  some, ltb, if◌then◌else◌, length,
}
use otl.Common.Int.{ℤ, pos, negsuc, ◌+ℤ◌, ◌-ℤ◌, ◌*ℤ◌, ltb_ℤ}

-- The `double` arithmetic: the clamped factor, and the mean cast to an integer.
pub record Blend (F : Type 0) : Type 0 where
  pub clamp : F → F
  pub blend : F → ℤ → ℤ → ℤ

pub record AvPacket : Type 0 where
  pub pts : Option ℤ
  pub dts : Option ℤ

pub record TimestampSmoother (F : Type 0) : Type 0 where
  pub timestamp_history : List ℤ
  pub last_output_pts : Option ℤ
  pub last_output_dts : Option ℤ
  pub base_timestamp : Option ℤ
  pub timestamp_offset : ℤ
  pub smoothing_factor : F
  pub max_jump_threshold : ℤ
  pub min_increment : ℤ
  pub total_packets : ℕ
  pub corrected_packets : ℕ

abbrev pub max_history_size : ℕ
max_history_size = 10

-- The number that stands for a missing stamp.
abbrev pub stamp : Option ℤ → ℤ
stamp none = negsuc (2 ^ 63 - 1)
stamp (some t) = t

abbrev pub max_ℤ : ℤ → ℤ → ℤ
max_ℤ a b = if ltb_ℤ a b then b else a

-- `int64_t` divided by `size_t`: the dividend is read as 64 bits without a sign, and the quotient
-- goes back.
abbrev pub as_u64 : ℤ → ℕ
as_u64 (pos n) = n % 2 ^ 64
as_u64 (negsuc n) = 2 ^ 64 - 1 - n % 2 ^ 64

abbrev pub as_i64 : ℕ → ℤ
as_i64 n = if ltb n (2 ^ 63) then pos n else negsuc (2 ^ 64 - 1 - n)

-- The loop that sums the differences of neighbours.
unfoldable pub sum_increments : ℤ → List ℤ → ℤ
sum_increments prev [] = pos 0
sum_increments prev (t ∷ ts) = (t -ℤ prev) +ℤ sum_increments t ts

abbrev pub last_of : ℤ → List ℤ → ℤ
last_of d [] = d
last_of d (t ∷ ts) = last_of t ts

-- The mean increment of the history, of which the oldest two entries are given.
abbrev pub average : ℤ → List ℤ → ℤ → ℤ
average t [] min_increment = min_increment
average t (u ∷ ts) min_increment = as_i64 (as_u64 (sum_increments t (u ∷ ts)) / length (u ∷ ts))

abbrev pub pop_front : List ℤ → List ℤ
pop_front [] = []
pop_front (t ∷ ts) = ts

unfoldable pub update_history : List ℤ → ℤ → List ℤ
update_history history timestamp =
    let longer = history ++ (timestamp ∷ []) in
    if ltb max_history_size (length longer) then pop_front longer else longer

module _ {F : Type 0} where
  -- A default object with the factor 0.1 as `factor`.
  unfoldable pub create : F → TimestampSmoother F
  create factor = record {
    timestamp_history = [];
    last_output_pts = none;
    last_output_dts = none;
    base_timestamp = none;
    timestamp_offset = pos 0;
    smoothing_factor = factor;
    max_jump_threshold = pos 90000;
    min_increment = pos 3000;
    total_packets = 0;
    corrected_packets = 0;
  }

  unfoldable pub set_smoothing_parameters :
      Blend F → TimestampSmoother F → F → ℤ → ℤ → TimestampSmoother F
  set_smoothing_parameters f s factor max_jump_threshold min_increment = record s {
    smoothing_factor = f.clamp factor;
    max_jump_threshold = max_jump_threshold;
    min_increment = min_increment;
  }

  unfoldable pub reset : TimestampSmoother F → TimestampSmoother F
  reset s = record s {
    timestamp_history = [];
    last_output_pts = none;
    last_output_dts = none;
    base_timestamp = none;
    timestamp_offset = pos 0;
    total_packets = 0;
    corrected_packets = 0;
  }

  unfoldable pub detect_timestamp_wrap : TimestampSmoother F → ℤ → Option ℤ → Bool
  detect_timestamp_wrap s current_pts none = false
  detect_timestamp_wrap s current_pts (some last_pts) =
      let diff = current_pts -ℤ last_pts in
      ltb_ℤ diff (pos 0 -ℤ s.max_jump_threshold) || ltb_ℤ (s.max_jump_threshold *ℤ pos 2) diff

  abbrev pub smooth_increment : Blend F → TimestampSmoother F → ℤ → List ℤ → ℤ
  smooth_increment f s raw_increment [] = max_ℤ raw_increment s.min_increment
  smooth_increment f s raw_increment (t ∷ ts) =
      max_ℤ (f.blend s.smoothing_factor raw_increment (average t ts s.min_increment))
        s.min_increment

  unfoldable pub calculate_smooth_increment : Blend F → TimestampSmoother F → ℤ → ℤ
  calculate_smooth_increment f s raw_increment =
      smooth_increment f s raw_increment s.timestamp_history

  -- The stamp that follows an output, from the one computed, with the number of corrections.
  abbrev pub advance : Blend F → TimestampSmoother F → Option ℤ → ℤ → ℤ × ℕ
  advance f s none relative_pts = (relative_pts, 0)
  advance f s (some last) relative_pts =
      if ltb_ℤ last relative_pts
      then if ltb_ℤ s.max_jump_threshold (relative_pts -ℤ last)
        then (last +ℤ calculate_smooth_increment f s (relative_pts -ℤ last), 1)
        else (relative_pts, 0)
      else (last +ℤ s.min_increment, 1)

  -- What every branch does with its stamp: the packet and the state get it.
  abbrev pub output : TimestampSmoother F → ℤ → TimestampSmoother F × AvPacket
  output s t = (
    record s {
      last_output_pts = some t;
      last_output_dts = some t;
      timestamp_history = update_history s.timestamp_history t;
    },
    record { pts = some t; dts = some t },
  )

  abbrev pub correct : TimestampSmoother F → ℕ → TimestampSmoother F
  correct s n = record s { corrected_packets = s.corrected_packets + n }

  -- A packet without a stamp.
  abbrev pub generate : TimestampSmoother F → Option ℤ → TimestampSmoother F × AvPacket
  generate s none = output (correct (record s { base_timestamp = some (pos 0) }) 1) (pos 0)
  generate s (some last) = output (correct s 1) (last +ℤ s.min_increment)

  -- The stamp that a jump is measured from.
  abbrev pub reference : TimestampSmoother F → ℤ → Option ℤ
  reference s base = some (last_of base s.timestamp_history)

  abbrev pub rebase : TimestampSmoother F → ℤ → TimestampSmoother F
  rebase s original_pts =
      correct
        (record s {
          timestamp_offset = s.timestamp_offset +ℤ (stamp s.last_output_pts +ℤ s.min_increment);
          base_timestamp = some original_pts;
        })
        1

  -- After the test for a jump.
  abbrev pub follow : Blend F → TimestampSmoother F → ℤ → TimestampSmoother F × AvPacket
  follow f s original_pts =
      let relative_pts = original_pts -ℤ stamp s.base_timestamp +ℤ s.timestamp_offset in
      let (t, n) = advance f s s.last_output_pts relative_pts in output (correct s n) t

  abbrev pub start : Blend F → TimestampSmoother F → ℤ → Option ℤ → TimestampSmoother F × AvPacket
  start f s original_pts none =
      output (record s { base_timestamp = some original_pts; timestamp_offset = pos 0 }) (pos 0)
  start f s original_pts (some base) =
      follow f
        (if detect_timestamp_wrap s original_pts (reference s base)
          then rebase s original_pts
          else s)
        original_pts

  abbrev pub dispatch : Blend F → TimestampSmoother F → Option ℤ → TimestampSmoother F × AvPacket
  dispatch f s none = generate s s.last_output_pts
  dispatch f s (some original_pts) = start f s original_pts s.base_timestamp

  -- `none` is the result false for a null pointer, where nothing changes.
  unfoldable pub smooth_timestamp :
      Blend F → TimestampSmoother F → Option AvPacket → Option (TimestampSmoother F × AvPacket)
  smooth_timestamp f s none = none
  smooth_timestamp f s (some pkt) =
      some (dispatch f (record s { total_packets = s.total_packets + 1 }) pkt.pts)
