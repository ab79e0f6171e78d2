-- ===== src/Strings/Split.antt =====
-- otl_string.cpp: `splitString` cuts a text at a pattern.
use otl.Common.{
  ℕ, zero, suc, ◌+◌, ◌<◌, ◌≡◌, inl, inr, refl, sym, ap, subst, ◌∙◌, arith, Bool-cases, true, false,
  List, [], ◌∷◌, ◌++◌, append_assoc, Option, none, some, Option-cases, if◌then◌else◌, length, take,
  drop, length-append, length-drop, All,
}
use otl.Strings.{begins, shift, find, cons_part, split_found, split_loop, split_string}

-- Each part with the pattern behind it.
abbrev pub ended_by : List ℕ → List (List ℕ) → List ℕ
ended_by p [] = []
ended_by p (x ∷ xs) = x ++ p ++ ended_by p xs

begins-take : (p s : List ℕ) → begins p s ≡ true → s ≡ p ++ drop (length p) s
unfolding begins
begins-take [] s h = refl
begins-take (p ∷ ps) [] h = absurd (cc h)
begins-take (p ∷ ps) (c ∷ s) h = ground (arith, begins-take ps s)

-- The pattern has no occurrence in the text.
abbrev pub Lacks : List ℕ → List ℕ → Type 0
Lacks p s = find p s ≡ none

Lacks-tail : (p s : List ℕ) (c : ℕ) → Lacks p (c ∷ s) → Lacks p s
unfolding find
Lacks-tail p s c h = elim (Option-cases (find p s)) [
  | inl n ↦ n
  | inr (j, f) ↦ elim (Bool-cases (begins p (c ∷ s))) [
    | inl e ↦ absurd (cc (sym (ap (λ b. if b then some 0 else shift (find p s)) e) ∙ h))
    | inr e ↦
        absurd (cc (sym (ap (λ b. if b then some 0 else shift (find p s)) e ∙ ap shift f) ∙ h))
  ]
]

begins-append : (p s t : List ℕ) → begins p s ≡ true → begins p (s ++ t) ≡ true
unfolding begins
begins-append [] s t h = refl
begins-append (p ∷ ps) [] t h = absurd (cc h)
begins-append (p ∷ ps) (c ∷ s) t h = ground (arith, begins-append ps s t)

-- The text cut at the position `k`: what is before the pattern, and what is behind it; no occurrence
-- starts and ends before it.
record Cut (p s : List ℕ) (k : ℕ) : Type 0 where
  before : List ℕ
  behind : List ℕ
  cut : s ≡ before ++ (p ++ behind)
  taken : take k s ≡ before
  left : drop (k + length p) s ≡ behind
  first : Lacks p before

some-injective : (j k : ℕ) → some j ≡ some k → j ≡ k
some-injective j k e = cc

module _ (a : ℕ) (ps : List ℕ) where
  abbrev p : List ℕ
  p = a ∷ ps

  Cut-here : (s : List ℕ) → begins p s ≡ true → Cut p s 0
  unfolding find begins
  Cut-here s h = record {
    before = [];
    behind = drop (length p) s;
    cut = begins-take p s h;
    taken = refl;
    left = ap (λ n. drop n s) zero_left;
    first = refl;
  }
    where
      zero_left : 0 + length p ≡ length p
      zero_left = omega arith

  Cut-later : (s : List ℕ) (c k : ℕ) → begins p (c ∷ s) ≡ false → Cut p s k → Cut p (c ∷ s) (suc k)
  unfolding find
  Cut-later s c k e h = record {
    before = c ∷ h.before;
    behind = h.behind;
    cut = ap (λ l. c ∷ l) h.cut;
    taken = ap (λ l. c ∷ l) h.taken;
    left = ap (λ n. drop n (c ∷ s)) suc_left ∙ h.left;
    first = elim (Bool-cases (begins p (c ∷ h.before))) [
      | inl d ↦ absurd (
          cc (
            sym e
            ∙ ap (λ l. begins p (c ∷ l)) h.cut
            ∙ begins-append p (c ∷ h.before) (p ++ h.behind) d))
      | inr d ↦ ap (λ b. if b then some 0 else shift (find p h.before)) d ∙ ap shift h.first
    ];
  }
    where
      suc_left : suc k + length p ≡ suc (k + length p)
      suc_left = omega arith

  -- Where the pattern is found it stands.
  find-Cut : (s : List ℕ) (k : ℕ) → find p s ≡ some k → Cut p s k
  unfolding find begins
  find-Cut [] k h = absurd (cc h)
  find-Cut (c ∷ s) k h = elim (Bool-cases (begins p (c ∷ s))) [
    | inl e ↦
        subst (Cut p (c ∷ s))
          (some-injective 0 k (sym (ap (λ b. if b then some 0 else shift (find p s)) e) ∙ h))
          (Cut-here (c ∷ s) e)
    | inr e ↦ elim (Option-cases (find p s)) [
      | inl n ↦
          absurd (cc (sym (ap (λ b. if b then some 0 else shift (find p s)) e ∙ ap shift n) ∙ h))
      | inr (j, f) ↦
          subst (Cut p (c ∷ s))
            (some-injective (suc j) k
              (sym (ap (λ b. if b then some 0 else shift (find p s)) e ∙ ap shift f) ∙ h))
            (Cut-later s c j e (find-Cut s j f))
    ]
  ]

  -- A text without the pattern has no parts.
  split_lacks :
      (fuel : ℕ) (s : List ℕ) → length s < fuel → Lacks p s → split_loop fuel p s ≡ some []
  unfolding split_loop
  split_lacks zero s h l = absurd (omega arith)
  split_lacks (suc fuel) [] h l = refl
  split_lacks (suc fuel) (c ∷ s) h l =
      ap (split_found (split_loop fuel p) p c s) l
      ∙ split_lacks fuel s (omega arith) (Lacks-tail p s c l)

-- What the split gives: the parts, in which the pattern does not stand, and the end of the text
-- behind the last pattern, which it drops and in which the pattern does not stand either.
pub record Parts (p s : List ℕ) (r : Option (List (List ℕ))) : Type 0 where
  pub parts : List (List ℕ)
  pub rest : List ℕ
  pub result : r ≡ some parts
  pub whole : s ≡ ended_by p parts ++ rest
  pub parts_lack : All (Lacks p) parts
  pub rest_lacks : Lacks p rest

module _ (a : ℕ) (ps : List ℕ) where
  split_loop-Parts :
      (fuel : ℕ) (s : List ℕ) → length s < fuel → Parts (a ∷ ps) s (split_loop fuel (a ∷ ps) s)
  unfolding split_loop find begins
  split_loop-Parts zero s h = absurd (omega arith)
  split_loop-Parts (suc fuel) [] h = record {
    parts = [];
    rest = [];
    result = refl;
    whole = refl;
    parts_lack = tt;
    rest_lacks = refl;
  }
  split_loop-Parts (suc fuel) (c ∷ s) h = elim (Option-cases (find (a ∷ ps) (c ∷ s))) [
    | inl l ↦ record {
      parts = [];
      rest = c ∷ s;
      result =
          ap (split_found (split_loop fuel (a ∷ ps)) (a ∷ ps) c s) l
          ∙ split_lacks a ps fuel s (omega arith) (Lacks-tail (a ∷ ps) s c l);
      whole = refl;
      parts_lack = tt;
      rest_lacks = l;
    }
    | inr (k, f) ↦
        let t = find-Cut a ps (c ∷ s) k f in
        let r =
          split_loop-Parts fuel (drop (k + length (a ∷ ps)) (c ∷ s))
            (omega (arith, length-drop (k + length (a ∷ ps)) (c ∷ s))) in
        record {
          parts = t.before ∷ r.parts;
          rest = r.rest;
          result =
              ap (split_found (split_loop fuel (a ∷ ps)) (a ∷ ps) c s) f
              ∙ ap (cons_part (take k (c ∷ s))) r.result
              ∙ ap (λ x. some (x ∷ r.parts)) t.taken;
          whole =
              t.cut
              ∙ ap (λ l. t.before ++ ((a ∷ ps) ++ l)) (sym t.left ∙ r.whole)
              ∙ regroup t.before (a ∷ ps) (ended_by (a ∷ ps) r.parts) r.rest;
          parts_lack = (t.first, r.parts_lack);
          rest_lacks = r.rest_lacks;
        }
  ]
    where
      regroup : (x p e r : List ℕ) → x ++ (p ++ (e ++ r)) ≡ (x ++ p ++ e) ++ r
      regroup x p e r = simp append_assoc

  -- For a pattern that is not empty the loop ends, and the text with the pattern behind it is the
  -- parts, each followed by the pattern, and then a rest, which is dropped; the pattern stands
  -- neither in a part nor in the rest.
  pub split_string-Parts :
      (str : List ℕ) → Parts (a ∷ ps) (str ++ (a ∷ ps)) (split_string str (a ∷ ps))
  unfolding split_string
  split_string-Parts str =
      split_loop-Parts (length str + length (a ∷ ps) + 1) (str ++ (a ∷ ps))
        (omega (arith, length-append str (a ∷ ps)))
