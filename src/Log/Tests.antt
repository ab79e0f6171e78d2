-- ===== src/Log/Tests.antt =====
-- otl_log.cpp: the logger at concrete messages, commands and arguments.
use mathlib.Core.List.{Perm}
use otl.Common.{ℕ, ◌≡◌, inl, refl, false, List, [], ◌∷◌, ◌++◌, none}
use otl.Log.{
  LogConfig, LogMessage, Logger, default_config, push, passes, log_printf, write, deliver,
  write_all, deinit, init, update_config,
}
use otl.Log.Level.{debug, error, codes, to_lower}
use otl.Log.Delivery.{System, logs, Reach, here, next, started, deinit-Perm}
use otl.Log.Command.{builtin_commands, words, words_from, process_telnet_command}
use otl.Log.Command.Misuse.{process_telnet_command_fails}

abbrev off : Logger
off = record {
  config = default_config;
  queue = none;
  running = false;
  file_open = false;
  telnet_running = false;
  written = record { file = []; console = []; telnet = [] };
  aborted = false;
}

-- A queue for one message.
abbrev small : LogConfig
small = record default_config { queue_size = 1 }

abbrev first : LogMessage
first = record { level = error; module_tag = codes "t"; content = codes "first" }

abbrev second : LogMessage
second = record first { content = codes "second" }

abbrev hidden : LogMessage
hidden = record first { level = debug }

abbrev after_two : System
after_two =
    let g = (started off small).log in
    record {
      log = log_printf (log_printf (log_printf g first) hidden) second;
      accepted = first ∷ second ∷ [];
    }

after_two-Reach : Reach (started off small) after_two
unfolding log_printf passes started init deinit push deliver write write_all
after_two-Reach = next (next (next here (logs first refl)) (logs hidden refl)) (logs second refl)

-- The second message finds the queue full and is written first.
deinit_written : (deinit after_two.log).written.console ≡ second ∷ first ∷ []
unfolding log_printf passes started init deinit push deliver write write_all
deinit_written = refl

deinit-Perm_example : Perm (deinit after_two.log).written.console (first ∷ second ∷ [])
deinit-Perm_example = deinit-Perm off small after_two refl after_two-Reach

-- A command in two pieces, an empty line, and the beginning of another command.
abbrev pieces : List (List ℕ)
pieces = codes "lev" ∷ (codes "el debug" ++ (13 ∷ 10 ∷ 10 ∷ codes "st")) ∷ []

abbrev at_debug : Logger
at_debug = update_config off (record default_config { level = debug })

help_words : words (codes " Help now") ≡ codes "Help" ∷ codes "now" ∷ []
unfolding words words_from
help_words = refl

process_telnet_command_fails_example :
    process_telnet_command off builtin_commands (codes " Help now") ≡ none
unfolding to_lower
process_telnet_command_fails_example =
    process_telnet_command_fails off (codes " Help now") (codes "Help") (codes "now" ∷ [])
      help_words (inl refl)

level_words : words (codes "level DEBUG") ≡ codes "level" ∷ codes "DEBUG" ∷ []
unfolding words words_from
level_words = refl
