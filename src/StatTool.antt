-- ===== src/StatTool.antt =====
-- otl_timer.cpp: `StatTool`, the ring of its last records. Times and counts are 64 bits wide; the
-- number of layers is below 2^31.
mod Ring
pub mod Speed
mod Tests
use otl.Common.{
  ℕ, zero, suc, ◌+◌, ◌-◌, ◌%◌, ◌^◌, Bool, true, false, ◌&&◌, List, [], ◌∷◌, ◌++◌, ltb,
  if◌then◌else◌, set, get_or, replicate,
}

pub record StatisLayer : Type 0 where
  pub bytes : ℕ
  pub time_msec : ℕ

-- `update_last_time` is the 64 bits of the signed member, which has no initial value.
pub record StatTool : Type 0 where
  pub layers : List StatisLayer
  pub current_index : ℕ
  pub total_layers : ℕ
  pub record_count : ℕ
  pub statis_count : ℕ
  pub update_last_time : ℕ

abbrev pub no_layer : StatisLayer
no_layer = record { bytes = 0; time_msec = 0 }

pub create : ℕ → ℕ → StatTool
create range garbage = record {
  layers = replicate range no_layer;
  current_index = 0;
  total_layers = range;
  record_count = 0;
  statis_count = 0;
  update_last_time = garbage;
}

-- The last record is less than a second old.
abbrev pub is_recent : ℕ → ℕ → Bool
is_recent last now = (ltb 0 last && ltb last (2 ^ 63)) && ltb ((now + 2 ^ 64 - last) % 2 ^ 64) 1000

-- The record is written, and the index and the count move on.
abbrev pub write : StatTool → StatisLayer → StatTool
write s layer = record s {
  update_last_time = layer.time_msec;
  statis_count = layer.bytes;
  layers = set s.layers s.current_index layer;
  current_index = (s.current_index + 1) % s.total_layers;
  record_count = if ltb s.record_count s.total_layers then s.record_count + 1 else s.record_count;
}

-- `now` is what `getTimeMsec` gives.
pub update : StatTool → ℕ → ℕ → StatTool
update s now current =
    let count = (s.statis_count + current) % 2 ^ 64 in
    if is_recent s.update_last_time now
    then record s { statis_count = count }
    else write s (record { bytes = count; time_msec = now })

pub reset : StatTool → StatTool
reset s = record s {
  current_index = 0;
  record_count = 0;
  layers = replicate s.total_layers no_layer;
}

-- The indices that `getSpeed` reads, in 32 bits.
pub newest : StatTool → ℕ
newest s =
    if ltb s.record_count s.total_layers
    then if ltb 0 s.current_index then s.current_index - 1 else 0
    else (s.total_layers + (s.current_index + 2 ^ 32 - 1) % 2 ^ 32) % 2 ^ 32 % s.total_layers

pub oldest : StatTool → ℕ
oldest s = if ltb s.record_count s.total_layers then 0 else s.current_index

-- The differences that the speed is computed from, in 64 bits; their quotient is a `double`.
pub speed_parts : StatTool → ℕ × ℕ
speed_parts s =
    let new = get_or s.layers (newest s) no_layer in
    let old = get_or s.layers (oldest s) no_layer in
    ((new.bytes + 2 ^ 64 - old.bytes) % 2 ^ 64, (new.time_msec + 2 ^ 64 - old.time_msec) % 2 ^ 64)
