-- ===== src/HwDecoder/Ends.antt =====
-- stream_decode_hw.cpp: `isKeyFrame` ends on every packet.
use otl.Common.{
  ℕ, zero, suc, ◌+◌, ◌-◌, ◌≤◌, ◌<◌, ◌≡◌, refl, arith, Bool, true, false, not, ◌&&◌, ◌||◌, List, [],
  ◌∷◌, Option, none, some, ltb, leb, ◌==◌, if◌then◌else◌, length, length-drop, drop, get_or, leb→le,
}
use otl.HwDecoder.{
  Codec, h264, h265, other, has_start_code, skip, with_unit, parse_annexb, big_endian, parse_avcc,
  found_key, parse, is_key_frame, on_h264, on_h265,
}

-- There is a result.
abbrev pub IsDone {ℓ} : {A : Type ℓ} → Option A → Type 0
IsDone none = ⊥
IsDone (some x) = Unit

if-IsDone {ℓ} :
    {A : Type ℓ} (b : Bool) (x y : Option A)
    → (b ≡ true → IsDone x)
    → (b ≡ false → IsDone y)
    → IsDone (if b then x else y)
if-IsDone true x y h k = h refl
if-IsDone false x y h k = k refl

with_unit-IsDone : (u : List ℕ) (o : Option (List (List ℕ))) → IsDone o → IsDone (with_unit u o)
with_unit-IsDone u none h = h
with_unit-IsDone u (some us) h = tt

length-skip : (p : List ℕ) → length (skip p) ≤ length p
unfolding skip
length-skip [] = omega arith
length-skip (c ∷ p) = go (ltb 3 (length (c ∷ p)) && not (has_start_code (c ∷ p))) (length-skip p)
  where
    go :
        (b : Bool)
        → length (skip p) ≤ length p
        → length (if b then skip p else c ∷ p) ≤ length (c ∷ p)
    go true h = omega (arith, h)
    go false h = omega arith

annexb_ends : (fuel : ℕ) (p : List ℕ) → length p < fuel → IsDone (parse_annexb fuel p)
unfolding parse_annexb
annexb_ends zero p h = absurd (omega (arith, h))
annexb_ends (suc fuel) p h =
    if-IsDone (ltb 3 (length p) && has_start_code p) _ _
      (λ a.
        if-IsDone (leb (length p) sc) _ _ (λ e. tt)
          λ e.
            if-IsDone (ltb 0 (length (drop sc p) - length (skip (drop sc p)))) _ _
              (λ k.
                with_unit-IsDone _ _
                  (annexb_ends fuel (skip (drop sc p)) (shorter sc (choice (get_or p 2 0 == 1)) e)))
              (λ k.
                annexb_ends fuel (skip (drop sc p)) (shorter sc (choice (get_or p 2 0 == 1)) e)))
      (λ a. tt)
  where
    sc : ℕ
    sc = if get_or p 2 0 == 1 then 3 else 4

    choice : (b : Bool) → 0 < (if b then 3 else 4)
    choice true = omega arith
    choice false = omega arith

    shorter : (k : ℕ) → 0 < k → leb (length p) k ≡ false → length (skip (drop k p)) < fuel
    shorter k pos e = ground (arith, length-skip (drop k p), length-drop k p, h)

avcc_ends :
    (fuel nalu_hdr_bytes : ℕ) (p : List ℕ)
    → length p < fuel
    → IsDone (parse_avcc fuel nalu_hdr_bytes p)
unfolding parse_avcc
avcc_ends zero hdr p h = absurd (omega (arith, h))
avcc_ends (suc fuel) hdr p h =
    if-IsDone (leb 4 (length p)) _ _
      (λ a.
        if-IsDone (be_len == 0 || ltb (length (drop 4 p)) be_len) _ _ (λ e. tt)
          λ e.
            if-IsDone (ltb hdr be_len) _ _
              (λ k. with_unit-IsDone _ _ (avcc_ends fuel hdr (drop be_len (drop 4 p)) (shorter a)))
              (λ k. avcc_ends fuel hdr (drop be_len (drop 4 p)) (shorter a)))
      (λ a. tt)
  where
    be_len : ℕ
    be_len = big_endian (get_or p 0 0) (get_or p 1 0) (get_or p 2 0) (get_or p 3 0)

    shorter : leb 4 (length p) ≡ true → length (drop be_len (drop 4 p)) < fuel
    shorter a =
        omega (arith, leb→le 4 (length p) a, length-drop be_len (drop 4 p), length-drop 4 p, h)

found-IsDone :
    (test : List ℕ → Bool) (o : Option (List (List ℕ))) → IsDone o → IsDone (found_key test o)
found-IsDone test none h = h
found-IsDone test (some us) h = tt

parse-IsDone : (nalu_hdr_bytes : ℕ) (p : List ℕ) → IsDone (parse nalu_hdr_bytes p)
unfolding parse
parse-IsDone hdr p =
    if-IsDone (has_start_code p) _ _
      (λ e. annexb_ends (length p + 1) (skip p) (omega (arith, length-skip p)))
      (λ e. avcc_ends (length p + 1) hdr p (omega arith))

-- `isKeyFrame` ends on every packet, whatever is in it: the fuel is enough for both kinds of packet.
pub is_key_frame-IsDone :
    (ctx : Option Codec) (flagged : Bool) (p : List ℕ) → IsDone (is_key_frame ctx flagged p)
unfolding is_key_frame
is_key_frame-IsDone none flagged p = tt
is_key_frame-IsDone (some codec) flagged [] = tt
is_key_frame-IsDone (some h264) flagged (c ∷ p) =
    found-IsDone on_h264 (parse 1 (c ∷ p)) (parse-IsDone 1 (c ∷ p))
is_key_frame-IsDone (some h265) flagged (c ∷ p) =
    found-IsDone on_h265 (parse 2 (c ∷ p)) (parse-IsDone 2 (c ∷ p))
is_key_frame-IsDone (some other) flagged (c ∷ p) = tt
