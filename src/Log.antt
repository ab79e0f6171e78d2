-- ===== src/Log.antt =====
-- otl_log.cpp and otl_log.h: the logger. The texts of log lines are left to the targets: what is
-- written is the message. The clients of the telnet server are one target.
pub mod Level
pub mod Args
pub mod Command
pub mod Lines
pub mod Delivery
mod Tests
use otl.Common.{
  ℕ, zero, suc, ◌+◌, ◌<◌, Bool, true, false, not, ◌&&◌, ◌||◌, List, [], ◌∷◌, ◌++◌, Option, none,
  some, ltb, leb, ◌==◌, if◌then◌else◌, length,
}
use otl.Log.Level.{LogLevel, trace, debug, info, warning, error, fatal, level_num}

-- The bits of `OutputTarget`.
pub record Targets : Type 0 where
  pub file : Bool
  pub console : Bool
  pub telnet : Bool

pub record TelnetConfig : Type 0 where
  pub port : ℕ
  pub max_connections : ℕ
  pub enable : Bool

pub record LogConfig : Type 0 where
  pub targets : Targets
  pub level : LogLevel
  pub path : List ℕ
  pub telnet_config : TelnetConfig
  pub enable_console : Bool
  pub abort_on_fatal : Bool
  pub queue_size : ℕ

abbrev pub default_config : LogConfig
default_config = record {
  targets = record { file = false; console = true; telnet = false };
  level = info;
  path = [];
  telnet_config = record { port = 2323; max_connections = 5; enable = false };
  enable_console = true;
  abort_on_fatal = false;
  queue_size = 4096;
}

pub record LogMessage : Type 0 where
  pub level : LogLevel
  pub module_tag : List ℕ
  pub content : List ℕ

pub record LogQueue : Type 0 where
  pub messages : List LogMessage
  pub max_size : ℕ
  pub stopped : Bool

-- What each target was given, oldest first.
pub record Written : Type 0 where
  pub file : List LogMessage
  pub console : List LogMessage
  pub telnet : List LogMessage

-- `written` is what the targets were given, and `aborted` says that the process has ended itself. The open file and the telnet
-- server are flags.
pub record Logger : Type 0 where
  pub config : LogConfig
  pub queue : Option LogQueue
  pub running : Bool
  pub file_open : Bool
  pub telnet_running : Bool
  pub written : Written
  pub aborted : Bool

pub push : LogQueue → LogMessage → Option LogQueue
push q m =
    if leb q.max_size (length q.messages)
    then none
    else some (record q { messages = q.messages ++ (m ∷ []) })

-- What a pop comes to: a wait, false, or a message.
pub data Popped : Type 0 where
  waits refused : Popped
  popped : LogMessage → LogQueue → Popped

abbrev pub pop_from : List LogMessage → LogQueue → Popped
pop_from [] q = if q.stopped then refused else waits
pop_from (m ∷ ms) q = popped m (record q { messages = ms })

pub pop : LogQueue → Popped
pop q = pop_from q.messages q

abbrev pub stop : LogQueue → LogQueue
stop q = record q { stopped = true }

-- The messages that the level lets through.
pub passes : LogConfig → LogMessage → Bool
passes c m =
    not (ltb (level_num m.level) (level_num c.level) && not (level_num m.level == level_num fatal))

abbrev pub aborts : LogConfig → LogMessage → Bool
aborts c m = level_num m.level == level_num fatal && c.abort_on_fatal

abbrev pub add : Bool → LogMessage → List LogMessage → List LogMessage
add test m ms = if test then ms ++ (m ∷ []) else ms

abbrev pub shows : LogConfig → Bool
shows c = c.targets.console && c.enable_console

-- A message goes to the targets that are enabled, to telnet only from the worker.
pub write : Bool → Logger → LogMessage → Logger
write by_worker g m = record g {
  written = record {
    file = add (g.config.targets.file && g.file_open) m g.written.file;
    console = add (shows g.config) m g.written.console;
    telnet = add (by_worker && (g.config.targets.telnet && g.telnet_running)) m g.written.telnet;
  };
}

-- By the worker, or by the thread that logs the message.
pub deliver : Bool → Logger → LogMessage → Logger
deliver by_worker g m = record (write by_worker g m) { aborted = aborts g.config m }

-- With the queue's answer to the push.
abbrev pub enqueue : Logger → LogMessage → Option LogQueue → Logger
enqueue g m none = deliver false g m
enqueue g m (some q) = record g { queue = some q }

abbrev pub push_to : Option LogQueue → LogMessage → Option LogQueue
push_to none m = none
push_to (some q) m = push q m

-- `LogPrintf`, and the destructor of `LogStream`.
pub log_printf : Logger → LogMessage → Logger
log_printf g m = if passes g.config m then enqueue g m (push_to g.queue m) else g

-- One round of the worker's first loop, which runs while the logger does: `none` when it waits or
-- the loop ends.
abbrev pub work : Logger → Popped → Option Logger
work g waits = none
work g refused = none
work g (popped m q) = some (deliver true (record g { queue = some q }) m)

pub pop_of : Option LogQueue → Popped
pop_of none = waits
pop_of (some q) = pop q

pub work_round : Logger → Option Logger
work_round g = if g.running then work g (pop_of g.queue) else none

-- The loop that flushes what is left, without the test for fatal messages.
pub write_all : Logger → List LogMessage → Logger
write_all g [] = g
write_all g (m ∷ ms) = write_all (write true g m) ms

abbrev pub flush : Logger → Option LogQueue → Logger
flush g none = g
flush g (some q) = record (write_all g q.messages) { queue = some (record q { messages = [] }) }

abbrev pub stop_queue : Option LogQueue → Option LogQueue
stop_queue none = none
stop_queue (some q) = some (stop q)

-- `deinit` with the worker, which it joins, and the telnet server, which it stops.
pub deinit : Logger → Logger
deinit g =
    if g.running
    then record (flush (record g { running = false }) (stop_queue g.queue)) {
      file_open = false;
      telnet_running = false;
    }
    else g

-- Without the registration of the commands, which is in `Command`.
pub init : Logger → LogConfig → Logger
init g c = record (deinit g) {
  config = c;
  queue = some (record { messages = []; max_size = c.queue_size; stopped = false });
  running = true;
  file_open = if c.targets.file then true else (deinit g).file_open;
  telnet_running = if c.telnet_config.enable then true else (deinit g).telnet_running;
}

pub update_config : Logger → LogConfig → Logger
update_config g c = record g {
  config = c;
  file_open = c.targets.file;
  telnet_running = if c.targets.telnet then c.telnet_config.enable else false;
}

pub set_level : Logger → LogLevel → Logger
set_level g l = update_config g (record g.config { level = l })
