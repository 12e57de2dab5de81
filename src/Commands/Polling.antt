-- ===== src/Commands/Polling.antt =====
-- gateway_commands.py, `fetch_pending_commands`, and the round of `run_commands_loop`
-- (dynamic_modbus_poller.py) that executes what it returns.
use bbjsensescada.Common.{ℕ, suc, List, [], ◌∷◌, ◌++◌, Option, none, some, ◌==◌, if◌then◌else◌}
use bbjsensescada.Common.Int.{ℤ, pos, int_eq}
use bbjsensescada.Python.{Error, Result, ok, err, value_error, request_error, ◌>>=◌}
use bbjsensescada.Python.Value.{Value, arr, truthy, elements}
use bbjsensescada.Modbus.{Settings, get_value}
use bbjsensescada.Commands.Defs.{Driver, Trace, execute_command}

-- A response of `requests.get`: its status, what `raise_for_status` raises, and `json()`.
pub record Reply : Type 0 where
  pub status_code : ℤ
  pub status_error : Option Error
  pub json : Result Value

abbrev pub decoded_reply : Reply → Result Value
decoded_reply r = elim r.status_error [ none ↦ r.json | some e ↦ err e ]

-- `commands if isinstance(commands, list) else []`
abbrev pub list_or_empty : Value → Result (List Value)
list_or_empty (arr vs) = elements (arr vs)
list_or_empty _ = ok []

-- The second `try`, and what follows it.
abbrev pub commands_in : Result Value → Result (List Value)
commands_in (err (request_error s)) = ok []
commands_in (err (value_error s)) = ok []
commands_in (err e) = err e
commands_in (ok payload) = do
  success ← get_value "success" payload
  if truthy success then get_value "commands" payload >>= list_or_empty else ok []

unfoldable pub fetch_pending_commands : Result Reply → Result (List Value)
fetch_pending_commands (err (request_error s)) = ok []
fetch_pending_commands (err e) = err e
fetch_pending_commands (ok response) =
    if response.status_code == pos 404 then ok [] else commands_in (decoded_reply response)

abbrev pub after_command : Trace → Trace → Trace
after_command later (es, ok u) = let (fs, r) = later in (es ++ fs, r)
after_command later (es, err e) = (es, err e)

-- The loop over the commands; the n-th one meets the configuration that is current then. An
-- exception leaves the loop.
unfoldable pub execute_all : Settings → Driver → (ℕ → Value) → ℕ → List Value → Trace
execute_all S D current n [] = ([], ok tt)
execute_all S D current n (command ∷ commands) =
    after_command (execute_all S D current (suc n) commands)
      (execute_command S D command (current n))

abbrev pub with_commands : (List Value → Trace) → Result (List Value) → Trace
with_commands f (ok commands) = f commands
with_commands f (err e) = ([], err e)

-- The body of the `try` of a round.
unfoldable pub commands_round : Settings → Driver → (ℕ → Value) → Result Reply → Trace
commands_round S D current response =
    with_commands (execute_all S D current 0) (fetch_pending_commands response)
