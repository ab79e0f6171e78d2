-- ===== src/Log/Args.antt =====
-- otl_log.cpp: `init(argc, argv)`, which reads the options for the logger.
pub mod Spellings
use Prim.Native.String.{String}
use otl.Common.{
  ℕ, zero, suc, ◌+◌, ◌-◌, ◌*◌, ◌%◌, ◌^◌, Bool, true, false, not, ◌&&◌, ◌||◌, List, [], ◌∷◌, ◌++◌,
  Option, none, some, leb, ◌==◌, bytes_eq, drop, length, if◌then◌else◌,
}
use otl.Common.Int.{ℤ, pos, negsuc, sub_ℕ}
use otl.Strings.{begins}
use otl.Log.Level.{codes, level_from_string}
use otl.Log.{LogConfig, Targets, TelnetConfig, Logger, default_config, init}

-- `atoi`, for numbers that fit.
pub digits : List ℕ → ℕ → ℕ
digits [] n = n
digits (c ∷ s) n =
    let more = digits s (n * 10 + (c - 48)) in if leb 48 c && leb c 57 then more else n

abbrev pub signed : List ℕ → ℤ
signed [] = pos 0
signed (c ∷ s) =
    if c == 45
    then sub_ℕ 0 (digits s 0)
    else if c == 43
    then pos (digits s 0)
    else pos (digits (c ∷ s) 0)

pub atoi : List ℕ → ℤ
atoi [] = pos 0
atoi (c ∷ s) =
    let rest = atoi s in if c == 32 || (leb 9 c && leb c 13) then rest else signed (c ∷ s)

-- `v != 0`
abbrev pub is_nonzero : ℤ → Bool
is_nonzero (pos zero) = false
is_nonzero (pos (suc n)) = true
is_nonzero (negsuc n) = true

-- The cast to `uint16_t`.
abbrev pub as_u16 : ℤ → ℕ
as_u16 (pos n) = n % 2 ^ 16
as_u16 (negsuc n) = 2 ^ 16 - 1 - n % 2 ^ 16

pub data LogOption : Type 0 where
  level file console telnet telnet_port : LogOption

abbrev pub option_name : LogOption → List ℕ
option_name level = codes "--log-level"
option_name file = codes "--log-file"
option_name console = codes "--log-console"
option_name telnet = codes "--log-telnet"
option_name telnet_port = codes "--log-telnet-port"

-- What an option does with its value.
pub apply : LogOption → List ℕ → LogConfig → LogConfig
apply level v c = record c { level = level_from_string v }
apply file v c = record c { path = v; targets = record c.targets { file = true } }
apply console v c = record c {
  enable_console = is_nonzero (atoi v);
  targets = record c.targets { console = is_nonzero (atoi v) };
}
apply telnet v c = record c {
  telnet_config = record c.telnet_config { enable = is_nonzero (atoi v) };
  targets = record c.targets { telnet = is_nonzero (atoi v) };
}
apply telnet_port v c = record c {
  telnet_config = record c.telnet_config { port = as_u16 (atoi v); enable = true };
  targets = record c.targets { telnet = true };
}

abbrev pub first_of : (LogOption → Bool) → Option LogOption
first_of test =
    if test level
    then some level
    else if test file
    then some file
    else if test console
    then some console
    else if test telnet
    then some telnet
    else if test telnet_port
    then some telnet_port
    else none

-- An argument that is the name of an option.
pub exact : List ℕ → Option LogOption
exact arg = first_of (λ o. bytes_eq arg (option_name o))

-- An argument that begins with the name of an option and `=`.
pub assigned : List ℕ → Option LogOption
assigned arg = first_of (λ o. begins (option_name o ++ (61 ∷ [])) arg)

pub assign : List ℕ → Option LogOption → LogConfig → LogConfig
assign arg none c = c
assign arg (some o) c = apply o (drop (length (option_name o) + 1) arg) c

-- The loop over the arguments behind the program's name.
pub parse_args : List (List ℕ) → LogConfig → LogConfig
parse_args [] c = c
parse_args (arg ∷ []) c = assign arg (assigned arg) c
parse_args (arg ∷ v ∷ rest) c = elim (exact arg) [
  | none ↦ parse_args (v ∷ rest) (assign arg (assigned arg) c)
  | some o ↦ parse_args rest (apply o v c)
]

pub init_args : Logger → List (List ℕ) → Logger
init_args g args = init g (parse_args args default_config)
