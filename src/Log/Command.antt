-- ===== src/Log/Command.antt =====
-- otl_log.cpp: the telnet commands. Of a response only what it says is kept, not its
-- words. The sockets of the clients are left out.
pub mod Misuse
use Prim.Native.String.{String}
use otl.Common.{
  ℕ, zero, suc, ◌+◌, Bool, true, false, not, ◌&&◌, ◌||◌, List, [], ◌∷◌, ◌++◌, map, Option, none,
  some, leb, ◌==◌, bytes_eq, if◌then◌else◌,
}
use otl.Log.Level.{
  LogLevel, info, fatal, level_num, codes, to_upper, to_lower, level_from_string, level_to_string,
}
use otl.Log.{Targets, LogConfig, LogMessage, Logger, update_config, log_printf}

-- The functions that are registered, `null` for a null pointer: those of `init`, and the one for
-- `log` that the server thread puts in its place.
pub data Handler : Type 0 where
  null status level enable disable log log_words : Handler

pub data Response : Type 0 where
  shows_help shows_commands shows_status usage goodbye no_command : Response
  current_level level_set logged : LogLevel → Response
  invalid_level enabled disabled unknown_target unknown_command : List ℕ → Response

abbrev pub Commands : Type 0
Commands = List (List ℕ × Handler)

pub register : List ℕ → Handler → Commands → Commands
register name h [] = (name, h) ∷ []
register name h ((n, k) ∷ cmds) =
    if bytes_eq n name then (name, h) ∷ cmds else (n, k) ∷ register name h cmds

unfoldable pub lookup : List ℕ → Commands → Option Handler
lookup name [] = none
lookup name ((n, k) ∷ cmds) = if bytes_eq n name then some k else lookup name cmds

-- What `init` registers.
pub builtin_commands : Commands
builtin_commands = register (codes "quit") null (
    register (codes "log") log (
      register (codes "disable") disable (
        register (codes "enable") enable (
          register (codes "level") level (
            register (codes "status") status
              (register (codes "cmdshow") null (register (codes "help") null [])))))))

-- A target by its name, set or cleared.
pub set_target : List ℕ → Bool → Targets → Option Targets
set_target name on t =
    if bytes_eq name (codes "console")
    then some (record t { console = on })
    else if bytes_eq name (codes "file")
    then some (record t { file = on })
    else if bytes_eq name (codes "telnet")
    then some (record t { telnet = on })
    else none

abbrev pub retarget : Logger → Response → List ℕ → Option Targets → Logger × Response
retarget g r name none = (g, unknown_target name)
retarget g r name (some t) = (update_config g (record g.config { targets = t }), r)

pub message : List ℕ → LogLevel → List ℕ → LogMessage
message tag l text = record { level = l; module_tag = tag; content = text }

abbrev pub level_or_info : List (List ℕ) → LogLevel
level_or_info [] = info
level_or_info (l ∷ rest) = level_from_string l

-- The registered functions count the command as the first argument.
abbrev pub run_level : Logger → List (List ℕ) → Logger × Response
run_level g (cmd ∷ x ∷ rest) =
    let l = level_from_string x in
    if level_num l == level_num fatal && not (bytes_eq x (codes "fatal"))
    then (g, invalid_level x)
    else (update_config g (record g.config { level = l }), level_set l)
run_level g args = (g, current_level g.config.level)

abbrev pub run_enable : Logger → List (List ℕ) → Logger × Response
run_enable g (cmd ∷ x ∷ rest) =
    let target = map to_lower x in
    retarget g (enabled target) target (set_target target true g.config.targets)
run_enable g args = (g, usage)

abbrev pub run_disable : Logger → List (List ℕ) → Logger × Response
run_disable g (cmd ∷ x ∷ rest) =
    let target = map to_lower x in
    retarget g (disabled target) target (set_target target false g.config.targets)
run_disable g args = (g, usage)

abbrev pub run_log : Logger → List (List ℕ) → Logger × Response
run_log g (cmd ∷ x ∷ rest) =
    let l = level_or_info rest in (log_printf g (message (codes "TelnetCmd") l x), logged l)
run_log g args = (g, usage)

abbrev pub is_level_name : List ℕ → Bool
is_level_name s =
    bytes_eq s (codes "TRACE")
    || (bytes_eq s (codes "DEBUG")
        || (bytes_eq s (codes "INFO")
            || (bytes_eq s (codes "WARNING")
                || (bytes_eq s (codes "ERROR") || bytes_eq s (codes "FATAL")))))

-- The words with a space between them.
pub join : List (List ℕ) → List ℕ
join [] = []
join (x ∷ []) = x
join (x ∷ y ∷ ys) = x ++ (32 ∷ join (y ∷ ys))

-- The words but the last, and the last.
abbrev pub unsnoc : List ℕ → List (List ℕ) → List (List ℕ) × List ℕ
unsnoc x [] = ([], x)
unsnoc x (y ∷ ys) = let (front, last) = unsnoc y ys in (x ∷ front, last)

abbrev pub run_log_words : Logger → List (List ℕ) → Logger × Response
run_log_words g [] = (g, usage)
run_log_words g (x ∷ []) = (log_printf g (message (codes "Telnet") info x), logged info)
run_log_words g (x ∷ y ∷ ys) =
    let (front, last) = unsnoc x (y ∷ ys) in
    let l = level_from_string (map to_upper last) in
    if is_level_name (map to_upper last)
    then (log_printf g (message (codes "Telnet") l (join front)), logged l)
    else (log_printf g (message (codes "Telnet") info (join (x ∷ y ∷ ys))), logged info)

-- A call of what is registered; `none` is the failed assertion.
pub run_handler : Handler → Logger → List (List ℕ) → Option (Logger × Response)
run_handler null g args = none
run_handler status g args = some (g, shows_status)
run_handler level g args = some (run_level g args)
run_handler enable g args = some (run_enable g args)
run_handler disable g args = some (run_disable g args)
run_handler log g args = some (run_log g args)
run_handler log_words g args = some (run_log_words g args)

-- The commands behind the table, with their arguments; `console` is another flag here, and the
-- configuration is put in place also for a target that is not known.
abbrev pub builtin_level : Logger → List (List ℕ) → Logger × Response
builtin_level g [] = (g, current_level g.config.level)
builtin_level g (x ∷ rest) =
    let l = level_from_string x in (update_config g (record g.config { level = l }), level_set l)

abbrev pub switch_target : List ℕ → Bool → LogConfig → LogConfig
switch_target name on c =
    if bytes_eq name (codes "console")
    then record c { enable_console = on }
    else if bytes_eq name (codes "file")
    then record c { targets = record c.targets { file = on } }
    else if bytes_eq name (codes "telnet")
    then record c { targets = record c.targets { telnet = on } }
    else c

abbrev pub is_target : List ℕ → Bool
is_target name =
    bytes_eq name (codes "console")
    || (bytes_eq name (codes "file") || bytes_eq name (codes "telnet"))

abbrev pub builtin_target : Logger → Bool → List (List ℕ) → Logger × Response
builtin_target g on [] = (g, usage)
builtin_target g on (x ∷ rest) =
    let target = map to_lower x in
    (
      update_config g (switch_target target on g.config),
      if is_target target
          then if on then enabled target else disabled target
          else unknown_target target,
    )

abbrev pub is_quit : List ℕ → Bool
is_quit cmd =
    bytes_eq cmd (codes "quit") || (bytes_eq cmd (codes "exit") || bytes_eq cmd (codes "bye"))

unfoldable pub run_builtin : Logger → List ℕ → List (List ℕ) → Logger × Response
run_builtin g cmd args =
    if bytes_eq cmd (codes "help")
    then (g, shows_help)
    else if bytes_eq cmd (codes "cmdshow")
    then (g, shows_commands)
    else if is_quit cmd
    then (g, goodbye)
    else if bytes_eq cmd (codes "status")
    then (g, shows_status)
    else if bytes_eq cmd (codes "level")
    then builtin_level g args
    else if bytes_eq cmd (codes "enable")
    then builtin_target g true args
    else if bytes_eq cmd (codes "disable")
    then builtin_target g false args
    else (g, unknown_command cmd)

abbrev pub answer :
    Logger → List ℕ → List (List ℕ) → List (List ℕ) → Option Handler → Option (Logger × Response)
answer g cmd handler_args args none = some (run_builtin g cmd args)
answer g cmd handler_args args (some h) = run_handler h g handler_args

abbrev pub is_space : ℕ → Bool
is_space c = c == 32 || (leb 9 c && leb c 13)

abbrev pub end_word : List ℕ → List (List ℕ) → List (List ℕ)
end_word [] rest = rest
end_word (c ∷ w) rest = (c ∷ w) ∷ rest

-- `iss >> word`, to the end.
unfoldable pub words_from : List ℕ → List ℕ → List (List ℕ)
words_from word [] = end_word word []
words_from word (c ∷ cs) =
    let skipped = end_word word (words_from [] cs) in
    let taken = words_from (word ++ (c ∷ [])) cs in if is_space c then skipped else taken

unfoldable pub words : List ℕ → List (List ℕ)
words line = words_from [] line

abbrev pub dispatch : Logger → Commands → List (List ℕ) → Option (Logger × Response)
dispatch g cmds [] = answer g [] [] [] (lookup [] cmds)
dispatch g cmds (cmd ∷ args) =
    let name = map to_lower cmd in answer g name args args (lookup name cmds)

-- `none` is the failed assertion.
unfoldable pub process_telnet_command : Logger → Commands → List ℕ → Option (Logger × Response)
process_telnet_command g cmds line = dispatch g cmds (words line)

-- The same for tests: the command is the first argument, also for the registered functions, and its
-- letters stay as they are.
abbrev pub test_target : Logger → Bool → List (List ℕ) → Logger × Response
test_target g on [] = (g, usage)
test_target g on (x ∷ rest) =
    let target = map to_lower x in
    if is_target target
    then (
      update_config g (switch_target target on g.config),
      if on then enabled target else disabled target,
    )
    else (g, unknown_target target)

pub test_builtin : Logger → List ℕ → List (List ℕ) → Logger × Response
test_builtin g cmd args =
    if bytes_eq cmd (codes "enable")
    then test_target g true args
    else if bytes_eq cmd (codes "disable")
    then test_target g false args
    else if bytes_eq cmd (codes "log")
    then run_log g (cmd ∷ args)
    else run_builtin g cmd args

abbrev pub test_answer :
    Logger → List ℕ → List (List ℕ) → Option Handler → Option (Logger × Response)
test_answer g cmd args none = some (test_builtin g cmd args)
test_answer g cmd args (some h) = run_handler h g (cmd ∷ args)

pub process_telnet_command_for_test : Logger → Commands → List (List ℕ) → Option (Logger × Response)
process_telnet_command_for_test g cmds [] = some (g, no_command)
process_telnet_command_for_test g cmds (cmd ∷ args) = test_answer g cmd args (lookup cmd cmds)
