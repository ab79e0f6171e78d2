-- ===== src/Base64/Groups.antt =====
-- otl_string.cpp: the table of base64, and the groups that `base64Dec` takes off a text.
use otl.Common.{
  ℕ, zero, suc, ◌+◌, ◌-◌, ◌*◌, ◌/◌, ◌%◌, ◌^◌, ◌<◌, ◌≡◌, inl, inr, refl, subst, arith, Bool,
  Bool-cases, true, false, not, ◌&&◌, ◌||◌, List, [], ◌∷◌, ◌++◌, Option, none, some, ◌==◌,
}
use otl.Base64.{encode_char, decode_char, decode_group, decode_loop}

-- What the round trip needs of the character for a value: it is decoded again, and is neither `=` nor
-- a line end.
pub record Good (n : ℕ) : Type 0 where
  pub code : decode_char (encode_char n) ≡ some n
  pub not_pad : (encode_char n == 61) ≡ false
  pub not_break : (encode_char n == 13 || encode_char n == 10) ≡ false

abbrev is_value : ℕ → Option ℕ → Bool
is_value n none = false
is_value n (some v) = v == n

is_good : ℕ → Bool
is_good n =
    is_value n (decode_char (encode_char n))
    && (not (encode_char n == 61) && not (encode_char n == 13 || encode_char n == 10))

all_good : ℕ → Bool
all_good zero = true
all_good (suc n) = is_good n && all_good n

table_good : all_good 64 ≡ true
unfolding all_good is_good encode_char decode_char
table_good = refl

and_left : (a b : Bool) → a && b ≡ true → a ≡ true
and_left true b h = refl
and_left false b h = absurd (cc h)

and_right : (a b : Bool) → a && b ≡ true → b ≡ true
and_right true b h = h
and_right false b h = absurd (cc h)

not_elim : (a : Bool) → not a ≡ true → a ≡ false
not_elim true h = absurd (cc h)
not_elim false h = refl

value_of : (n : ℕ) (o : Option ℕ) → is_value n o ≡ true → o ≡ some n
value_of n none h = absurd (cc h)
value_of n (some v) h = ground arith

is_good-Good : (n : ℕ) → is_good n ≡ true → Good n
unfolding is_good
is_good-Good n h = record {
  code = value_of n (decode_char (encode_char n)) (and_left _ _ h);
  not_pad = not_elim _ (and_left _ _ (and_right _ _ h));
  not_break = not_elim _ (and_right _ _ (and_right _ _ h));
}

good_below : (k n : ℕ) → all_good k ≡ true → n < k → is_good n ≡ true
unfolding all_good
good_below zero n h l = absurd (omega arith)
good_below (suc k) n h l = elim (Bool-cases (n == k)) [
  | inl e ↦ subst (λ m. is_good m ≡ true) (same e) (and_left _ _ h)
  | inr e ↦ good_below k n (and_right (is_good k) (all_good k) h) (below e)
]
  where
    same : (n == k) ≡ true → k ≡ n
    same e = ground arith

    below : (n == k) ≡ false → n < k
    below e = ground arith

pub good : (n : ℕ) → n < 64 → Good n
good n h = is_good-Good n (good_below 64 n table_good h)

-- Four values are three bytes.
pub decode_four :
    (v w x y c d e f : ℕ) (p : List ℕ)
    → decode_char c ≡ some v
    → decode_char d ≡ some w
    → decode_char e ≡ some x
    → decode_char f ≡ some y
    → (e == 61) ≡ false
    → (f == 61) ≡ false
    → decode_group (c ∷ d ∷ e ∷ f ∷ p)
      ≡ some (
        (v * 2 ^ 18 + w * 2 ^ 12) / 2 ^ 16 % 256
            ∷ (v * 2 ^ 18 + w * 2 ^ 12 + x * 2 ^ 6) / 2 ^ 8 % 256
            ∷ (v * 2 ^ 18 + w * 2 ^ 12 + x * 2 ^ 6 + y) % 256
            ∷ [],
        p,
      )
unfolding decode_group
decode_four v w x y c d e f p hc hd he hf ne nf = rw (hc, hd, ne, he, nf, hf) refl

pub decode_three :
    (v w x c d e : ℕ) (p : List ℕ)
    → decode_char c ≡ some v
    → decode_char d ≡ some w
    → decode_char e ≡ some x
    → (e == 61) ≡ false
    → decode_group (c ∷ d ∷ e ∷ 61 ∷ p)
      ≡ some (
        (v * 2 ^ 18 + w * 2 ^ 12) / 2 ^ 16 % 256
            ∷ (v * 2 ^ 18 + w * 2 ^ 12 + x * 2 ^ 6) / 2 ^ 8 % 256
            ∷ [],
        61 ∷ p,
      )
unfolding decode_group
decode_three v w x c d e p hc hd he ne = rw (hc, hd, ne, he) refl

pub decode_two :
    (v w c d : ℕ) (p : List ℕ)
    → decode_char c ≡ some v
    → decode_char d ≡ some w
    → decode_group (c ∷ d ∷ 61 ∷ p) ≡ some ((v * 2 ^ 18 + w * 2 ^ 12) / 2 ^ 16 % 256 ∷ [], 61 ∷ p)
unfolding decode_group
decode_two v w c d p hc hd = rw (hc, hd) refl

-- A round of the loop at a group.
pub loop_group :
    (fuel c left rest : ℕ) (p out q more : List ℕ)
    → (c == 13 || c == 10) ≡ false
    → decode_group (c ∷ p) ≡ some (out, q)
    → suc left - 4 ≡ rest
    → decode_loop fuel q rest ≡ some more
    → decode_loop (suc fuel) (c ∷ p) (suc left) ≡ some (out ++ more)
unfolding decode_loop
loop_group fuel c left rest p out q more hb hg e hl = rw (hb, hg, e, hl) refl

pub loop_break :
    (fuel c left : ℕ) (p more : List ℕ)
    → (c == 13 || c == 10) ≡ true
    → decode_loop fuel p left ≡ some more
    → decode_loop (suc fuel) (c ∷ p) (suc left) ≡ some more
unfolding decode_loop
loop_break fuel c left p more hb hl = rw (hb, hl) refl

pub loop_end : (fuel : ℕ) (p : List ℕ) → 0 < fuel → decode_loop fuel p 0 ≡ some []
unfolding decode_loop
loop_end zero p h = absurd (omega arith)
loop_end (suc fuel) p h = refl
