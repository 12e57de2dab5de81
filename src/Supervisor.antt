-- ===== src/Supervisor.antt =====
-- start_gateway.py: the supervisor of the gateway's processes, as a machine whose turns are the turns
-- of its loops. A stop signal is taken between two turns. What the operating system answers in a turn
-- is an argument; a process is named by the number of loop turns before the one that started it.
pub mod Custody
pub mod Shutdown
pub mod Fresh
pub mod Orphans
pub mod Restarts
pub mod Idle
use bbjsensescada.Common.{
  ℕ, suc, ◌+◌, Bool, true, false, List, [], ◌∷◌, ◌++◌, Option, none, some, String, if◌then◌else◌,
}
use bbjsensescada.Common.Int.{ℤ}
use bbjsensescada.Python.{Error}

pub record Component : Type 0 where
  pub name : String
  pub script : String
  pub process : Option ℕ
  pub restart_count : ℕ

-- What was done to processes: `Popen`, an exit code of `poll`, a call of `terminate`.
pub data Event : Type 0 where
  started exited terminated : ℕ → Event

pub data Phase : Type 0 where
  starting waiting checking stopped : Phase
  crashed : Error → Phase

-- The list `components` is split where the loop of the phase is; the trace is newest first.
pub record Manager : Type 0 where
  pub phase : Phase
  pub running : Bool
  pub passed : List Component
  pub ahead : List Component
  pub next_process : ℕ
  pub trace : List Event

-- What a turn meets: `script.exists()`, an exception of `Popen`, and `process.poll()`.
pub record Answers : Type 0 where
  pub script_exists : Bool
  pub popen_error : Option Error
  pub exit_code : Option ℤ

-- What a loop's turn does to its component.
pub record Visit : Type 0 where
  pub component : Component
  pub events : List Event
  pub raised : Option Error

abbrev pub untouched : Component → Visit
untouched c = record { component = c; events = []; raised = none }

abbrev pub opened : ℕ → Component → Option Error → Visit
opened n c none = record {
  component = record c { process = some n };
  events = started n ∷ [];
  raised = none;
}
opened n c (some e) = record { component = c; events = []; raised = some e }

unfoldable pub start_process : Answers → ℕ → Component → Visit
start_process A n c = if A.script_exists then opened n c A.popen_error else untouched c

abbrev pub counted : Component → Component
counted c = record c { restart_count = c.restart_count + 1 }

abbrev pub after_exit : ℕ → Visit → Visit
after_exit p v = record v { events = v.events ++ exited p ∷ [] }

-- What the watchdog does with a process, given its exit code.
abbrev pub restarted : Answers → ℕ → Component → ℕ → Option ℤ → Visit
restarted A n c p none = untouched c
restarted A n c p (some exit_code) = after_exit p (start_process A n (counted c))

abbrev pub watched : Answers → ℕ → Component → Option ℕ → Visit
watched A n c none = untouched c
watched A n c (some p) = restarted A n c p A.exit_code

-- One turn of the loop of `check_components`.
unfoldable pub check_component : Answers → ℕ → Component → Visit
check_component A n c = watched A n c c.process

-- An exception of `Popen` leaves `main`.
abbrev pub phase_after : Phase → Option Error → Phase
phase_after f none = f
phase_after f (some e) = crashed e

abbrev pub visited : Manager → List Component → Visit → Manager
visited g later v = record g {
  phase = phase_after g.phase v.raised;
  passed = g.passed ++ v.component ∷ [];
  ahead = later;
  next_process = suc g.next_process;
  trace = v.events ++ g.trace;
}

-- A loop over all components begins or has ended.
abbrev pub rewound : Phase → Manager → Manager
rewound f g = record g { phase = f; passed = []; ahead = g.passed ++ g.ahead }

abbrev pub loop_turn : (Component → Visit) → List Component → Manager → Manager
loop_turn visit [] g = rewound waiting g
loop_turn visit (c ∷ later) g = visited g later (visit c)

abbrev pub turn_in : Phase → Answers → Manager → Manager
turn_in starting A g = loop_turn (start_process A g.next_process) g.ahead g
turn_in waiting A g = if g.running then rewound checking g else record g { phase = stopped }
turn_in checking A g = loop_turn (check_component A g.next_process) g.ahead g
turn_in stopped A g = g
turn_in (crashed e) A g = g

-- One turn of `main`: a component of the first loop, a wake-up, or a component of the check.
unfoldable pub turn : Answers → Manager → Manager
unfolding start_process check_component
turn A g = turn_in g.phase A g

abbrev pub told : Option ℕ → List Event → List Event
told none es = es
told (some p) es = terminated p ∷ es

-- The first loop of `stop_handler`; the second one only waits and logs.
abbrev pub terminate_all : List Component → List Event → List Event
terminate_all [] es = es
terminate_all (c ∷ cs) es = terminate_all cs (told c.process es)

abbrev pub handled : Manager → Manager
handled g = record g { running = false; trace = terminate_all (g.passed ++ g.ahead) g.trace }

abbrev pub signal_in : Phase → Manager → Manager
signal_in starting g = handled g
signal_in waiting g = handled g
signal_in checking g = handled g
signal_in stopped g = g
signal_in (crashed e) g = g

-- A signal while the supervisor lives runs the handler.
unfoldable pub stop_handler : Manager → Manager
stop_handler g = signal_in g.phase g

pub data Step : Type 0 where
  take_turn : Answers → Step
  stop_signal : Step

abbrev pub step : Step → Manager → Manager
step (take_turn A) g = turn A g
step stop_signal g = stop_handler g

abbrev pub run : List Step → Manager → Manager
run [] g = g
run (x ∷ xs) g = run xs (step x g)

abbrev pub component : String → String → Component
component name script = record { name = name; script = script; process = none; restart_count = 0 }

abbrev pub components : List Component
components =
    component "Telemetry Poller" "dynamic_modbus_poller.py"
    ∷ component "Health Reporter" "gateway_health_reporter.py"
    ∷ []

-- `main` when it begins.
abbrev pub launch : Manager
launch = record {
  phase = starting;
  running = true;
  passed = [];
  ahead = components;
  next_process = 0;
  trace = [];
}
