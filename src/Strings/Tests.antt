-- ===== src/Strings/Tests.antt =====
-- otl_string.cpp: splitting and paths at concrete texts.
use otl.Common.{◌≡◌, refl, [], ◌∷◌, some}
use otl.Strings.{
  split_loop, split_string, find, begins, last_of, file_extension_from_path, replace_home_directory,
}
use otl.Strings.Split.{Parts, split_string-Parts}

-- "a,b,,c" at commas.
split_commas :
    split_string (97 ∷ 44 ∷ 98 ∷ 44 ∷ 44 ∷ 99 ∷ []) (44 ∷ [])
    ≡ some ((97 ∷ []) ∷ (98 ∷ []) ∷ [] ∷ (99 ∷ []) ∷ [])
unfolding split_string split_loop find begins
split_commas = refl

-- "a" at "aa" is a part that is empty: the appended pattern is found a place too early.
split_overlap : split_string (97 ∷ []) (97 ∷ 97 ∷ []) ≡ some ([] ∷ [])
unfolding split_string split_loop find begins
split_overlap = refl

split_string-Parts_example :
    Parts (44 ∷ []) (97 ∷ 44 ∷ 98 ∷ 44 ∷ []) (split_string (97 ∷ 44 ∷ 98 ∷ []) (44 ∷ []))
split_string-Parts_example = split_string-Parts 44 [] (97 ∷ 44 ∷ 98 ∷ [])

-- "/a.b/cd" has no dot in its name, but an "extension".
extension_of_directory :
    file_extension_from_path (47 ∷ 97 ∷ 46 ∷ 98 ∷ 47 ∷ 99 ∷ 100 ∷ []) ≡ 98 ∷ 47 ∷ 99 ∷ 100 ∷ []
unfolding file_extension_from_path last_of
extension_of_directory = refl

-- "~/a" at home "/h".
home_example :
    replace_home_directory (some (47 ∷ 104 ∷ [])) (126 ∷ 47 ∷ 97 ∷ []) ≡ 47 ∷ 104 ∷ 47 ∷ 97 ∷ []
unfolding replace_home_directory
home_example = refl
