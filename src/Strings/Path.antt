-- ===== src/Strings/Path.antt =====
-- otl_string.cpp: the parts of a path.
use otl.Common.{
  ℕ, ◌≡◌, ◌⊎◌, inl, inr, sym, ap, ap₂, append_assoc, ◌∙◌, arith, Bool-cases, true, false, List, [],
  ◌∷◌, ◌++◌, Option, none, some, Option-cases, ◌==◌, if◌then◌else◌,
}
use otl.Strings.{
  last_found, last_of, behind_or, before_or, file_name_from_path, file_extension_from_path,
}

pair-injective :
    (a b c d : List ℕ)
    → ◌≡◌ {A = Option (List ℕ × List ℕ)} (some (a, b)) (some (c, d))
    → (a ≡ c) × (b ≡ d)
pair-injective a b c d e = (cc, cc)

-- The last occurrence stands where the text is cut.
last_of_cut :
    (c : ℕ) (s before behind : List ℕ)
    → last_of c s ≡ some (before, behind)
    → s ≡ before ++ (c ∷ behind)
unfolding last_of
last_of_cut c [] before behind h = absurd (cc h)
last_of_cut c (x ∷ xs) before behind h = elim (Option-cases (last_of c xs)) [
  | inl n ↦ elim (Bool-cases (x == c)) [
    | inl e ↦
        let p =
          pair-injective [] xs before behind
            (sym (ap (last_found c x xs) n ∙ ap (λ b. if b then some ([], xs) else none) e) ∙ h) in
        ap (λ k. k ∷ xs) (same e) ∙ ap₂ (λ l m. l ++ (c ∷ m)) p.0 p.1
    | inr e ↦
        absurd
          (cc (sym (ap (last_found c x xs) n ∙ ap (λ b. if b then some ([], xs) else none) e) ∙ h))
  ]
  | inr ((b, d), f) ↦
      let p = pair-injective (x ∷ b) d before behind (sym (ap (last_found c x xs) f) ∙ h) in
      ap (λ l. x ∷ l) (last_of_cut c xs b d f) ∙ ap₂ (λ l m. l ++ (c ∷ m)) p.0 p.1
]
  where
    same : (x == c) ≡ true → x ≡ c
    same e = ground arith

last_of-append :
    (c : ℕ) (u s before behind : List ℕ)
    → last_of c s ≡ some (before, behind)
    → last_of c (u ++ s) ≡ some (u ++ before, behind)
unfolding last_of
last_of-append c [] s before behind h = h
last_of-append c (x ∷ u) s before behind h =
    ap (last_found c x (u ++ s)) (last_of-append c u s before behind h)

-- The part of a path behind its last slash is the end of the path.
name_suffix : (path : List ℕ) → (dir : List ℕ) × (path ≡ dir ++ behind_or path (last_of 47 path))
name_suffix path = elim (Option-cases (last_of 47 path)) [
  | inl n ↦ ([], sym (ap (behind_or path) n))
  | inr ((b, d), f) ↦ (
    b ++ (47 ∷ []),
    last_of_cut 47 path b d f
        ∙ sym (append_assoc b (47 ∷ []) d)
        ∙ ap (λ l. (b ++ (47 ∷ [])) ++ l) (sym (ap (behind_or path) f)),
  )
]

-- The name of a file without its extension, a dot and the extension that
-- `fileExtensionFromPath` gives are together its name with the extension. Only a name without a dot
-- is the same with and without the extension.
pub file_name_from_path_lem :
    (path : List ℕ)
    → ((last_of 46 (file_name_from_path path true) ≡ none)
        × (file_name_from_path path false ≡ file_name_from_path path true))
      ⊎ (file_name_from_path path true
          ≡ file_name_from_path path false ++ (46 ∷ file_extension_from_path path))
unfolding file_name_from_path file_extension_from_path
file_name_from_path_lem path = elim (Option-cases (last_of 46 name)) [
  | inl n ↦ inl (n, ap (before_or name) n)
  | inr ((b, d), f) ↦ inr (
      last_of_cut 46 name b d f
      ∙ ap₂ (λ l m. l ++ (46 ∷ m)) (sym (ap (before_or name) f)) (sym (extension b d f)))
]
  where
    name : List ℕ
    name = behind_or path (last_of 47 path)

    extension : (b d : List ℕ) → last_of 46 name ≡ some (b, d) → behind_or [] (last_of 46 path) ≡ d
    extension b d f =
        let (dir, whole) = name_suffix path in
        ap (λ l. behind_or [] (last_of 46 l)) whole
        ∙ ap (behind_or []) (last_of-append 46 dir name b d f)
