-- ===== src/Log/Level.antt =====
-- otl_log.cpp: the levels and their names.
use Prim.Native.Char.{code}
use Prim.Native.String.{String}
use otl.Common.{
  ℕ, ◌+◌, ◌-◌, ◌≡◌, ◌⊎◌, inl, inr, ap, ◌&&◌, ◌||◌, List, [], ◌∷◌, map, leb, bytes_eq, if◌then◌else◌,
}

pub data LogLevel : Type 0 where
  trace debug info warning error fatal : LogLevel

abbrev pub level_num : LogLevel → ℕ
level_num trace = 0
level_num debug = 1
level_num info = 2
level_num warning = 3
level_num error = 4
level_num fatal = 5

-- The codes of a text.
abbrev pub codes : String → List ℕ
codes String.[] = []
codes (String.◌∷◌ c s) = code c ∷ codes s

unfoldable pub to_upper : ℕ → ℕ
to_upper c = if leb 97 c && leb c 122 then c - 32 else c

unfoldable pub to_lower : ℕ → ℕ
to_lower c = if leb 65 c && leb c 90 then c + 32 else c

-- `LogLevelToString`
unfoldable pub level_to_string : LogLevel → List ℕ
level_to_string trace = codes "TRACE"
level_to_string debug = codes "DEBUG"
level_to_string info = codes "INFO"
level_to_string warning = codes "WARNING"
level_to_string error = codes "ERROR"
level_to_string fatal = codes "FATAL"

-- The letter in a log line.
pub level_letter : LogLevel → List ℕ
level_letter trace = codes "T"
level_letter debug = codes "D"
level_letter info = codes "I"
level_letter warning = codes "W"
level_letter error = codes "E"
level_letter fatal = codes "F"

abbrev pub upper_level : List ℕ → LogLevel
upper_level upper =
    if bytes_eq upper (codes "TRACE") || bytes_eq upper (codes "T")
    then trace
    else if bytes_eq upper (codes "DEBUG") || bytes_eq upper (codes "D")
    then debug
    else if bytes_eq upper (codes "INFO") || bytes_eq upper (codes "I")
    then info
    else if bytes_eq upper (codes "WARNING")
        || (bytes_eq upper (codes "W") || bytes_eq upper (codes "WARN"))
    then warning
    else if bytes_eq upper (codes "ERROR")
        || (bytes_eq upper (codes "E") || bytes_eq upper (codes "ERR"))
    then error
    else if bytes_eq upper (codes "FATAL") || bytes_eq upper (codes "F")
    then fatal
    else info

-- `LogLevelFromString`
unfoldable pub level_from_string : List ℕ → LogLevel
level_from_string str = upper_level (map to_upper str)

-- In any mixture of upper and lower case, the name of a level and its letter in the log lines are
-- read as that level.
pub level_from_string-level_to_string :
    (l : LogLevel) (str : List ℕ)
    → (map to_upper str ≡ level_to_string l) ⊎ (map to_upper str ≡ level_letter l)
    → level_from_string str ≡ l
unfolding level_from_string level_to_string level_letter
level_from_string-level_to_string trace str (inl h) = ap upper_level h
level_from_string-level_to_string trace str (inr h) = ap upper_level h
level_from_string-level_to_string debug str (inl h) = ap upper_level h
level_from_string-level_to_string debug str (inr h) = ap upper_level h
level_from_string-level_to_string info str (inl h) = ap upper_level h
level_from_string-level_to_string info str (inr h) = ap upper_level h
level_from_string-level_to_string warning str (inl h) = ap upper_level h
level_from_string-level_to_string warning str (inr h) = ap upper_level h
level_from_string-level_to_string error str (inl h) = ap upper_level h
level_from_string-level_to_string error str (inr h) = ap upper_level h
level_from_string-level_to_string fatal str (inl h) = ap upper_level h
level_from_string-level_to_string fatal str (inr h) = ap upper_level h
