-- ===== src/Sei/Field.antt =====
-- stream_sei.cpp: the payload size, as it is written and read back.
use otl.Common.{
  ℕ, zero, suc, ◌+◌, ◌-◌, ◌*◌, ◌%◌, ◌^◌, ◌<◌, ◌≡◌, refl, ap, ◌∙◌, some, List, [], ◌∷◌, ◌++◌, arith,
  length, lt→ltb, le→ltb, ne→==,
}
use otl.Sei.{write_size, read_size}

-- `n` as 255s and a last byte below 255.
abbrev pub size_field : ℕ → ℕ → List ℕ
size_field zero last = last ∷ []
size_field (suc k) last = 255 ∷ size_field k last

pub length-size_field : (k last : ℕ) → length (size_field k last) ≡ k + 1
length-size_field zero last = refl
length-size_field (suc k) last = omega (arith, length-size_field k last)

-- The loop ends after one round more than there are full 255s.
pub write_size_lem :
    (k last : ℕ) → last < 255 → write_size (suc k) (255 * k + last) ≡ some (size_field k last)
unfolding write_size
write_size_lem zero last h =
    rw (lt→ltb (255 * zero + last) 255 (omega arith)) (ap (λ n. some (n ∷ [])) (omega arith))
write_size_lem (suc k) last h =
    rw (le→ltb (255 * suc k + last) 255 (omega arith), step, write_size_lem k last h)
  where
    step : 255 * suc k + last - 255 ≡ 255 * k + last
    step = omega arith

pub read_size_lem :
    (k last acc : ℕ) (r : List ℕ)
    → last < 255
    → acc + (255 * k + last) < 2 ^ 32
    → read_size acc (size_field k last ++ r) ≡ some (acc + (255 * k + last), r)
unfolding read_size
read_size_lem zero last acc r h m =
    rw (ne→== last 255 (omega arith)) (ap (λ n. some (n, r)) (omega arith))
read_size_lem (suc k) last acc r h m =
    rw wrap
      (read_size_lem k last (acc + 255) r h (omega arith) ∙ ap (λ n. some (n, r)) (omega arith))
  where
    wrap : (acc + 255) % 2 ^ 32 ≡ acc + 255
    wrap = omega arith
