-- ===== src/StatTool/Tests.antt =====
-- otl_timer.cpp: a ring of two layers.
use otl.Common.{ℕ, ◌≡◌, refl, arith, List, [], ◌∷◌}
use otl.StatTool.{create, update, newest, oldest, speed_parts}
use otl.StatTool.Speed.{differences, notes, updates, speed_parts-updates}

-- Three records and a call that leaves none.
abbrev calls : List (ℕ × ℕ)
calls = (1000, 10) ∷ (2000, 20) ∷ (2500, 5) ∷ (3500, 40) ∷ []

-- From 2 s to 3.5 s, 45 more.
speed_of_calls : speed_parts (updates (create 2 0) calls) ≡ (45, 1500)
unfolding speed_parts updates create update newest oldest
speed_of_calls = refl

speed_parts-updates_example :
    speed_parts (updates (create 2 0) calls)
    ≡ differences (notes 2 (record { records = []; sum = 0; time = 0 }) calls).records
speed_parts-updates_example = speed_parts-updates 2 0 calls (omega arith) (omega arith)
