-- ===== src/Log/Command/Misuse.antt =====
-- otl_log.cpp: what the commands that `init` registers do when they come from a telnet client.
use otl.Common.{ℕ, ◌≡◌, ◌⊎◌, inl, inr, ap, ◌∙◌, List, [], ◌∷◌, map, none, some}
use otl.Log.{Logger}
use otl.Log.Level.{codes, to_lower}
use otl.Log.Command.{
  current_level, usage, register, lookup, builtin_commands, run_handler, answer, words, dispatch,
  process_telnet_command,
}

by_name :
    (g : Logger) (line cmd name : List ℕ) (args : List (List ℕ))
    → words line ≡ cmd ∷ args
    → map to_lower cmd ≡ name
    → process_telnet_command g builtin_commands line
      ≡ answer g name args args (lookup name builtin_commands)
unfolding process_telnet_command
by_name g line cmd name args e h =
    ap (dispatch g builtin_commands) e
    ∙ ap (λ n. answer g n args args (lookup n builtin_commands)) h

-- With the commands that `init` registers, in whatever case they are written and whatever follows
-- them: `help`, `cmdshow` and `quit` from a telnet client fail the assertion that there is a
-- function, and never reach the code that answers them.
pub process_telnet_command_fails :
    (g : Logger) (line cmd : List ℕ) (args : List (List ℕ))
    → words line ≡ cmd ∷ args
    → (map to_lower cmd ≡ codes "help")
      ⊎ ((map to_lower cmd ≡ codes "cmdshow") ⊎ (map to_lower cmd ≡ codes "quit"))
    → process_telnet_command g builtin_commands line ≡ none
unfolding builtin_commands register lookup run_handler
process_telnet_command_fails g line cmd args e (inl h) = by_name g line cmd (codes "help") args e h
process_telnet_command_fails g line cmd args e (inr (inl h)) =
    by_name g line cmd (codes "cmdshow") args e h
process_telnet_command_fails g line cmd args e (inr (inr h)) =
    by_name g line cmd (codes "quit") args e h

-- With the commands that `init` registers, `level`, `enable` and `disable` with one argument change
-- nothing when they come from a telnet client, whatever the argument is: the first answers with the
-- level that is set, the others with how they are used.
pub process_telnet_command_ignores :
    (g : Logger) (line cmd x : List ℕ)
    → words line ≡ cmd ∷ x ∷ []
    → (map to_lower cmd ≡ codes "level")
      ⊎ ((map to_lower cmd ≡ codes "enable") ⊎ (map to_lower cmd ≡ codes "disable"))
    → (process_telnet_command g builtin_commands line ≡ some (g, current_level g.config.level))
      ⊎ (process_telnet_command g builtin_commands line ≡ some (g, usage))
unfolding builtin_commands register lookup run_handler
process_telnet_command_ignores g line cmd x e (inl h) =
    inl (by_name g line cmd (codes "level") (x ∷ []) e h)
process_telnet_command_ignores g line cmd x e (inr (inl h)) =
    inr (by_name g line cmd (codes "enable") (x ∷ []) e h)
process_telnet_command_ignores g line cmd x e (inr (inr h)) =
    inr (by_name g line cmd (codes "disable") (x ∷ []) e h)
