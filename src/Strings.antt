-- ===== src/Strings.antt =====
-- otl_string.cpp: splitting texts, and the parts of a path. Texts are lists of character codes.
pub mod Split
pub mod Path
mod Tests
use otl.Common.{
  ℕ, zero, suc, ◌+◌, Bool, true, false, ◌&&◌, List, [], ◌∷◌, ◌++◌, Option, none, some, ◌==◌, leb,
  if◌then◌else◌, length, take, drop, bytes_eq,
}

-- The text begins with the pattern.
unfoldable pub begins : List ℕ → List ℕ → Bool
begins [] s = true
begins (p ∷ ps) [] = false
begins (p ∷ ps) (c ∷ s) = p == c && begins ps s

abbrev pub shift : Option ℕ → Option ℕ
shift none = none
shift (some k) = some (suc k)

-- `find`, from the start of the text that is left.
unfoldable pub find : List ℕ → List ℕ → Option ℕ
find p [] = if begins p [] then some 0 else none
find p (c ∷ s) = if begins p (c ∷ s) then some 0 else shift (find p s)

abbrev pub cons_part : List ℕ → Option (List (List ℕ)) → Option (List (List ℕ))
cons_part x none = none
cons_part x (some xs) = some (x ∷ xs)

-- What a round of the loop does; `more` is the loop on the text that is left.
abbrev pub split_found :
    (List ℕ → Option (List (List ℕ))) → List ℕ → ℕ → List ℕ → Option ℕ → Option (List (List ℕ))
split_found more pattern' c s none = more s
split_found more pattern' c s (some k) =
    cons_part (take k (c ∷ s)) (more (drop (k + length pattern') (c ∷ s)))

-- The loop over `i`, with the text from `i` on. `none` means that the fuel ran out: for an empty
-- pattern `i` stays where it is.
pub split_loop : ℕ → List ℕ → List ℕ → Option (List (List ℕ))
split_loop zero pattern' s = none
split_loop (suc fuel) pattern' [] = some []
split_loop (suc fuel) pattern' (c ∷ s) =
    split_found (split_loop fuel pattern') pattern' c s (find pattern' (c ∷ s))

-- `str += pattern`, and the loop.
pub split_string : List ℕ → List ℕ → Option (List (List ℕ))
split_string str pattern' = split_loop (length str + length pattern' + 1) pattern' (str ++ pattern')

pub start_with : List ℕ → List ℕ → Bool
start_with str head = bytes_eq (take (length head) str) head

abbrev pub last_found : ℕ → ℕ → List ℕ → Option (List ℕ × List ℕ) → Option (List ℕ × List ℕ)
last_found c x xs none = if x == c then some ([], xs) else none
last_found c x xs (some (before, behind)) = some (x ∷ before, behind)

-- `find_last_of` a character: the text before it and the text behind it.
pub last_of : ℕ → List ℕ → Option (List ℕ × List ℕ)
last_of c [] = none
last_of c (x ∷ xs) = last_found c x xs (last_of c xs)

abbrev pub behind_or : List ℕ → Option (List ℕ × List ℕ) → List ℕ
behind_or s none = s
behind_or s (some (before, behind)) = behind

abbrev pub before_or : List ℕ → Option (List ℕ × List ℕ) → List ℕ
before_or s none = s
before_or s (some (before, behind)) = before

-- Slashes are 47 and dots are 46.
pub file_name_from_path : List ℕ → Bool → List ℕ
file_name_from_path path has_ext =
    let str = behind_or path (last_of 47 path) in
    if has_ext then str else before_or str (last_of 46 str)

pub file_extension_from_path : List ℕ → List ℕ
file_extension_from_path str = behind_or [] (last_of 46 str)

abbrev pub starts_home : List ℕ → Bool
starts_home (a ∷ b ∷ path) = a == 126 && b == 47
starts_home path = false

-- `home` is what the environment says, `none` for nothing.
pub replace_home_directory : Option (List ℕ) → List ℕ → List ℕ
replace_home_directory none path = path
replace_home_directory (some home) path = if starts_home path then home ++ drop 1 path else path
