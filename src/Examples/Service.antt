-- ===== src/Examples/Service.antt =====
-- The supervisor.
use bbjsensescada.Common.{nat_eq}
use bbjsensescada.Common.{◌≡◌, refl, true, false, ◌||◌, List, [], ◌∷◌, none, some, map}
use bbjsensescada.Common.Int.{pos}
use bbjsensescada.Supervisor.{
  Answers, Step, take_turn, run, launch, turn, stop_handler, component, Component,
}
use bbjsensescada.Supervisor.Custody.{any, is_exited, is_terminated, holds, all_of, run-Custody}
use bbjsensescada.Supervisor.Shutdown.{run-accounted}
use bbjsensescada.Supervisor.Orphans.{IsOrphan, run-orphans}
use bbjsensescada.Supervisor.Idle.{with_process, run-with_process}

abbrev fine : Answers
fine = record { script_exists = true; popen_error = none; exit_code = none }

abbrev dead : Answers
dead = record { script_exists = true; popen_error = none; exit_code = some (pos 1) }

abbrev script_missing : Answers
script_missing = record { script_exists = false; popen_error = none; exit_code = none }

-- Both processes start and `main` goes to sleep.
abbrev start_up : List Step
start_up = take_turn fine ∷ take_turn fine ∷ take_turn fine ∷ []

-- The poller has died, and the watchdog has started it again.
abbrev one_restart : List Step
one_restart =
    take_turn fine ∷ take_turn fine ∷ take_turn fine ∷ take_turn fine ∷ take_turn dead ∷ []

run-Custody_example :
    (any (holds 0) (all_of (run one_restart launch))
      || any (is_exited 0) (run one_restart launch).trace)
    ≡ true
unfolding turn nat_eq
run-Custody_example = run-Custody one_restart 0 refl

run-accounted_example :
    (any (is_terminated 1) (run (take_turn fine ∷ []) (stop_handler (run start_up launch))).trace
      || any (is_exited 1) (run (take_turn fine ∷ []) (stop_handler (run start_up launch))).trace)
    ≡ true
unfolding turn stop_handler nat_eq
run-accounted_example = run-accounted start_up (take_turn fine ∷ []) 1 refl refl

-- The poller of `start_up` as the check meets it.
abbrev poller : Component
poller = record (component "Telemetry Poller" "dynamic_modbus_poller.py") { process = some 0 }

abbrev reporter : Component
reporter = record (component "Health Reporter" "gateway_health_reporter.py") { process = some 1 }

abbrev in_check : List Step
in_check = take_turn fine ∷ take_turn fine ∷ take_turn fine ∷ take_turn fine ∷ []

run-orphans_example :
    (any (is_terminated 0) (stop_handler (run in_check launch)).trace ≡ true)
    × IsOrphan 2 (
        run
          (map take_turn (dead ∷ fine ∷ fine ∷ []))
          (turn dead (stop_handler (run in_check launch))))
unfolding turn
run-orphans_example =
    run-orphans in_check dead (dead ∷ fine ∷ fine ∷ []) poller (reporter ∷ []) 0 (pos 1) refl refl
      refl refl refl refl

-- The reporter's script was missing when `main` began.
abbrev half_started : List Step
half_started = take_turn fine ∷ take_turn script_missing ∷ take_turn fine ∷ []

run-with_process_example :
    with_process (run one_restart (run half_started launch)) ≡ true ∷ false ∷ []
unfolding turn
run-with_process_example = run-with_process one_restart (run half_started launch) refl
