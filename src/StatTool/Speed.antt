-- ===== src/StatTool/Speed.antt =====
-- otl_timer.cpp: `StatTool` refines a list of its last records.
use otl.Common.{
  ℕ, zero, suc, ◌+◌, ◌-◌, ◌%◌, ◌^◌, ◌<◌, ◌≡◌, refl, sym, ap, ap₂, subst, ◌∙◌, arith, Bool,
  Bool-cases, inl, inr, true, false, List, [], ◌∷◌, if◌then◌else◌, set, get_or,
}
use otl.StatTool.{
  StatisLayer, no_layer, StatTool, create, is_recent, write, update, newest, oldest, speed_parts,
}
use otl.StatTool.Ring.{
  Holds, filling, keep, last_or, first_or, write_step, ends_lem, newest_at, oldest_at, counted,
}

-- What is asked for: the last records, the sum of all that was counted, and the time of the last
-- record.
pub record Recent : Type 0 where
  pub records : List StatisLayer
  pub sum : ℕ
  pub time : ℕ

abbrev pub record_if : Bool → ℕ → Recent → StatisLayer → Recent
record_if true n r layer = record r { sum = layer.bytes }
record_if false n r layer = record {
  records = keep n r.records layer;
  sum = layer.bytes;
  time = layer.time_msec;
}

-- A call of `update` at a time, with what it counts.
abbrev pub note : ℕ → Recent → ℕ × ℕ → Recent
note n r (now, current) =
    record_if (is_recent r.time now) n r
      (record { bytes = (r.sum + current) % 2 ^ 64; time_msec = now })

unfoldable pub notes : ℕ → Recent → List (ℕ × ℕ) → Recent
notes n r [] = r
notes n r (c ∷ cs) = notes n (note n r c) cs

unfoldable pub updates : StatTool → List (ℕ × ℕ) → StatTool
updates s [] = s
updates s ((now, current) ∷ cs) = updates (update s now current) cs

-- The differences of two records in 64 bits, and those of the newest and the oldest record.
abbrev pub parts : StatisLayer → StatisLayer → ℕ × ℕ
parts new old =
    ((new.bytes + 2 ^ 64 - old.bytes) % 2 ^ 64, (new.time_msec + 2 ^ 64 - old.time_msec) % 2 ^ 64)

abbrev pub differences : List StatisLayer → ℕ × ℕ
differences w = parts (last_or no_layer w) (first_or no_layer w)

record Refines (n : ℕ) (s : StatTool) (r : Recent) : Type 0 where
  size : s.total_layers ≡ n
  ring : Holds n s.layers s.current_index s.record_count r.records
  counts : s.statis_count ≡ r.sum
  times : s.update_last_time ≡ r.time

update-Refines :
    (n : ℕ) (s : StatTool) (r : Recent) (c : ℕ × ℕ)
    → Refines n s r
    → Refines n (update s c.0 c.1) (note n r c)
unfolding update
update-Refines n s r c v = elim (Bool-cases (is_recent r.time c.0)) [
  | inl e ↦
      subst (λ b. Refines n (branch b) (record_if (is_recent r.time c.0) n r layer'))
        (sym (same ∙ e))
        (subst (λ b. Refines n (branch true) (record_if b n r layer')) (sym e)
          (record { size = v.size; ring = v.ring; counts = sums; times = v.times }))
  | inr e ↦
      subst (λ b. Refines n (branch b) (record_if (is_recent r.time c.0) n r layer'))
        (sym (same ∙ e))
        (subst (λ b. Refines n (branch false) (record_if b n r layer')) (sym e)
          (record { size = v.size; ring = written; counts = sums; times = refl }))
]
  where
    layer : StatisLayer
    layer = record { bytes = (s.statis_count + c.1) % 2 ^ 64; time_msec = c.0 }

    layer' : StatisLayer
    layer' = record { bytes = (r.sum + c.1) % 2 ^ 64; time_msec = c.0 }

    branch : Bool → StatTool
    branch b =
        if b then record s { statis_count = (s.statis_count + c.1) % 2 ^ 64 } else write s layer

    same : is_recent s.update_last_time c.0 ≡ is_recent r.time c.0
    same = ap (λ t. is_recent t c.0) v.times

    sums : (s.statis_count + c.1) % 2 ^ 64 ≡ (r.sum + c.1) % 2 ^ 64
    sums = ap (λ t. (t + c.1) % 2 ^ 64) v.counts

    layers_same : layer ≡ layer'
    layers_same = ap (λ b. record { bytes = b; time_msec = c.0 }) sums

    written :
        Holds n
          (set s.layers s.current_index layer)
          ((s.current_index + 1) % s.total_layers)
          (counted s.total_layers s.record_count)
          (keep n r.records layer')
    written =
        subst
          (λ t.
            Holds n (set s.layers s.current_index layer) ((s.current_index + 1) % t)
              (counted t s.record_count) (keep n r.records layer'))
          (sym v.size)
          (subst
            (λ x.
              Holds n (set s.layers s.current_index layer) ((s.current_index + 1) % n)
                (counted n s.record_count) (keep n r.records x))
            layers_same
            (write_step n s.current_index s.record_count s.layers r.records layer v.ring))

updates-Refines :
    (n : ℕ) (s : StatTool) (r : Recent) (cs : List (ℕ × ℕ))
    → Refines n s r
    → Refines n (updates s cs) (notes n r cs)
unfolding updates notes
updates-Refines n s r [] v = v
updates-Refines n s r (c ∷ cs) v =
    updates-Refines n (update s c.0 c.1) (note n r c) cs (update-Refines n s r c v)

speed_parts_lem :
    (n : ℕ) (s : StatTool) (r : Recent)
    → n < 2 ^ 31
    → Refines n s r
    → speed_parts s ≡ differences r.records
unfolding speed_parts newest oldest
speed_parts_lem n s r b v =
    let e = ends_lem n s.current_index s.record_count s.layers r.records b v.ring in
    ap₂ parts
      (ap (λ t. get_or s.layers (newest_at t s.current_index s.record_count) no_layer) v.size ∙ e.0)
      (ap (λ t. get_or s.layers (oldest_at t s.current_index s.record_count) no_layer) v.size ∙ e.1)

create-Refines :
    (n garbage : ℕ)
    → 0 < n
    → Refines n (create n garbage) (record { records = []; sum = 0; time = garbage })
unfolding create
create-Refines zero garbage p = absurd (omega arith)
create-Refines (suc k) garbage p = record {
  size = refl;
  ring = filling k refl refl refl (omega arith);
  counts = refl;
  times = refl;
}

-- For a ring of at least one and fewer than 2^31 layers, and whatever stands in the time that is not
-- initialised: after any calls of `update` the parts of the speed are the differences of the newest
-- and the oldest of the last records, as many as there are layers, where a call leaves a record
-- unless the last one is less than a second old.
pub speed_parts-updates :
    (n garbage : ℕ) (cs : List (ℕ × ℕ))
    → 0 < n
    → n < 2 ^ 31
    → speed_parts (updates (create n garbage) cs)
      ≡ differences (notes n (record { records = []; sum = 0; time = garbage }) cs).records
speed_parts-updates n garbage cs p b = speed_parts_lem n (updates (create n garbage) cs) _ b (
    updates-Refines n (create n garbage) (record { records = []; sum = 0; time = garbage }) cs
      (create-Refines n garbage p))
