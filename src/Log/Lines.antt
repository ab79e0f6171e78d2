-- ===== src/Log/Lines.antt =====
-- otl_log.cpp: `telnetClientHandler` cuts what it receives into command lines.
use otl.Common.{
  ℕ, ◌≡◌, Bool, true, false, not, ◌&&◌, ◌||◌, List, [], ◌∷◌, ◌++◌, Option, none, some, ◌==◌,
  if◌then◌else◌, All,
}
use otl.Log.{Logger}
use otl.Log.Command.{Commands, Response, goodbye, process_telnet_command}

-- `cmdBuffer`, and the lines that were processed, oldest first; the logger that their commands set;
-- whether the socket is open, and whether the process has ended itself.
pub record Client : Type 0 where
  pub cmd_buffer : List ℕ
  pub lines : List (List ℕ)
  pub log : Logger
  pub is_open : Bool
  pub is_aborted : Bool

-- With this answer `processTelnetCommand` closes the socket.
abbrev pub leaves : Response → Bool
leaves goodbye = true
leaves r = false

abbrev pub after_command : Client → Option (Logger × Response) → Client
after_command k none = record k { is_open = false; is_aborted = true }
after_command k (some (g, r)) = record k {
  log = g;
  is_open = k.is_open && not (leaves r);
  is_aborted = g.aborted;
}

pub connected : Logger → Client
connected g = record { cmd_buffer = []; lines = []; log = g; is_open = true; is_aborted = false }

unfoldable pub without_cr : List ℕ → List ℕ
without_cr [] = []
without_cr (c ∷ cs) = if c == 13 then without_cr cs else c ∷ without_cr cs

-- No line feed.
abbrev pub IsLine : List ℕ → Type 0
IsLine = All (λ c. (c == 10) ≡ false)

-- Each line with a line feed behind it.
abbrev pub terminated : List (List ℕ) → List ℕ
terminated [] = []
terminated (l ∷ ls) = l ++ (10 ∷ terminated ls)

abbrev pub not_empty : List (List ℕ) → List (List ℕ)
not_empty [] = []
not_empty ([] ∷ ls) = not_empty ls
not_empty ((c ∷ l) ∷ ls) = (c ∷ l) ∷ not_empty ls

module _ (cmds : Commands) where
  -- An empty line is not processed.
  abbrev pub process_line : List ℕ → Client → Client
  process_line [] k = k
  process_line (c ∷ line) k =
      if k.is_aborted
      then k
      else after_command (record k { cmd_buffer = []; lines = k.lines ++ ((c ∷ line) ∷ []) })
          (process_telnet_command k.log cmds (c ∷ line))

  -- 13 is CR and 10 is LF.
  pub receive_char : Client → ℕ → Client
  receive_char k c =
      if c == 13
      then k
      else if c == 10
      then process_line k.cmd_buffer k
      else record k { cmd_buffer = k.cmd_buffer ++ (c ∷ []) }

  -- The loop over the bytes that one `recv` has given.
  pub receive : Client → List ℕ → Client
  receive k [] = k
  receive k (c ∷ buffer) = receive (receive_char k c) buffer

  -- On a closed socket `recv` fails, and the loop ends.
  pub receive_all : Client → List (List ℕ) → Client
  receive_all k [] = k
  receive_all k (buffer ∷ buffers) =
      let rest = receive_all (receive k buffer) buffers in if k.is_open then rest else k

  abbrev goes_on : Option (Logger × Response) → Option Logger
  goes_on none = none
  goes_on (some (g, r)) = if leaves r || g.aborted then none else some g

  abbrev with_log : Option Logger → (Logger → Option Logger) → Option Logger
  with_log none f = none
  with_log (some g) f = f g

  -- The commands of some lines one after the other, unless one of them ends the process or closes the
  -- socket.
  unfoldable pub run_lines : Logger → List (List ℕ) → Option Logger
  run_lines g [] = some g
  run_lines g (l ∷ ls) = with_log (goes_on (process_telnet_command g cmds l)) (λ h. run_lines h ls)

  -- The same without the test for CR.
  plain_char : Client → ℕ → Client
  plain_char k c =
      if c == 10
      then process_line k.cmd_buffer k
      else record k { cmd_buffer = k.cmd_buffer ++ (c ∷ []) }

  plain : Client → List ℕ → Client
  plain k [] = k
  plain k (c ∷ cs) = plain (plain_char k c) cs

  -- A client that has not been left, with a buffer and lines that were processed.
  abbrev waiting : Logger → List ℕ → List (List ℕ) → Client
  waiting g buf done = record {
    cmd_buffer = buf;
    lines = done;
    log = g;
    is_open = true;
    is_aborted = false;
  }

  -- What is known of a command whose line is not the last.
  record Passed (g' : Logger) (buf : List ℕ) (done rest : List (List ℕ)) (k : Client) : Type 0 where
    passed : Logger
    client : k ≡ waiting passed buf done
    remains : run_lines passed rest ≡ some g'
