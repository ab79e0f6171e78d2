-- ===== src/Log/Args/Spellings.antt =====
-- otl_log.cpp: the two spellings of an option for the logger.
use otl.Common.{ℕ, ◌≡◌, refl, sym, ◌∙◌, List, [], ◌∷◌, ◌++◌}
use otl.Strings.{begins}
use otl.Log.{LogConfig}
use otl.Log.Args.{
  LogOption, level, file, console, telnet, telnet_port, option_name, apply, exact, assigned, assign,
  parse_args,
}

-- An argument that assigns a value.
abbrev pub assignment : LogOption → List ℕ → List ℕ
assignment o v = option_name o ++ (61 ∷ v)

parse_assignment :
    (o : LogOption) (v : List ℕ) (rest : List (List ℕ)) (c : LogConfig)
    → parse_args (assignment o v ∷ rest) c ≡ parse_args rest (apply o v c)
unfolding parse_args exact assigned assign begins
parse_assignment level v [] c = refl
parse_assignment level v (r ∷ rest) c = refl
parse_assignment file v [] c = refl
parse_assignment file v (r ∷ rest) c = refl
parse_assignment console v [] c = refl
parse_assignment console v (r ∷ rest) c = refl
parse_assignment telnet v [] c = refl
parse_assignment telnet v (r ∷ rest) c = refl
parse_assignment telnet_port v [] c = refl
parse_assignment telnet_port v (r ∷ rest) c = refl

parse_separate :
    (o : LogOption) (v : List ℕ) (rest : List (List ℕ)) (c : LogConfig)
    → parse_args (option_name o ∷ v ∷ rest) c ≡ parse_args rest (apply o v c)
unfolding parse_args exact
parse_separate level v rest c = refl
parse_separate file v rest c = refl
parse_separate console v rest c = refl
parse_separate telnet v rest c = refl
parse_separate telnet_port v rest c = refl

-- For each of the five options, whatever its value, the options before it and the arguments behind
-- it: the value as an argument of its own and the value behind `=` give the same configuration.
pub parse_args_lem :
    (o : LogOption) (v : List ℕ) (rest : List (List ℕ)) (c : LogConfig)
    → parse_args (option_name o ∷ v ∷ rest) c ≡ parse_args (assignment o v ∷ rest) c
parse_args_lem o v rest c = parse_separate o v rest c ∙ sym (parse_assignment o v rest c)
