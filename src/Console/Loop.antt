-- ===== src/Console/Loop.antt =====
-- modbus_console.py, the loop of `main` with its `finally`.
use bbjsensescada.Common.{
  ℕ, zero, suc, Bool, List, [], ◌∷◌, ◌++◌, String, Option, none, some, ◌==◌, string_eq,
  if◌then◌else◌,
}
use bbjsensescada.Python.{ok, err, attribute_error}
use bbjsensescada.Python.Text.{codes, lower, same_codes}
use bbjsensescada.Diagnose.Serial.{
  SerialClient, Bench, connection_closed, prompt_again, Event, closed, printed, Run, did, after,
  ◌>>=◌, ◌>>◌, lift, act, print,
}
use bbjsensescada.Console.{Fields, defaults, ask, connect, ask_fields, read_input}

-- How a turn of the loop ends when it does not raise: `break`, `return` with no client, or the next turn.
pub data Next : Type 0 where
  quit lost : Next
  again : SerialClient → Fields → List String → Next

abbrev pub reconnected : Fields → Option SerialClient × List String → Next
reconnected fields (none, lines) = lost
reconnected fields (some client, lines) = again client fields lines

abbrev pub is_letter : ℕ → String → Bool
is_letter c text = same_codes (lower (codes text)) (c ∷ [])

unfoldable pub reconnect : Bench → SerialClient → Fields → List String → Run Next
unfolding connect
reconnect B client fields lines = do
  act (closed client)
  found ← connect B lines
  lift (ok (reconnected fields found))

unfoldable pub read_turn : Bench → SerialClient → Fields → String → List String → Run Next
unfolding ask_fields read_input
read_turn B client fields address_input lines = do
  (fields1, lines1) ← ask_fields fields lines
  read_input B client fields1 address_input
  lift (ok (again client fields1 lines1))

unfoldable pub on_input : Bench → SerialClient → Fields → String → List String → Run Next
unfolding reconnect read_turn
on_input B client fields address_input lines =
    if is_letter b'q' address_input
    then lift (ok quit)
    else if is_letter b'r' address_input
    then reconnect B client fields lines
    else if address_input == ""
    then (print prompt_again >> lift (ok (again client fields lines)))
    else read_turn B client fields address_input lines

-- One turn of `while True`.
unfoldable pub turn : Bench → SerialClient → Fields → List String → Run Next
unfolding ask on_input
turn B client fields lines = do
  (address_input, lines1) ← lift (ask "" lines)
  on_input B client fields address_input lines1

-- The loop has ended: what the variable `client` holds, and how the `try` block ended.
pub data LoopEnd : Type 0 where
  ended : Option SerialClient → Run (Unit {0}) → LoopEnd

abbrev pub preceded : List Event → Option LoopEnd → Option LoopEnd
preceded es none = none
preceded es (some (ended client r)) = some (ended client (after es r))

abbrev pub next_turn :
    (SerialClient → Fields → List String → Option LoopEnd)
    → SerialClient
    → Run Next
    → Option LoopEnd
next_turn turns client (did es (err e)) = some (ended (some client) (did es (err e)))
next_turn turns client (did es (ok quit)) = some (ended (some client) (did es (ok tt)))
next_turn turns client (did es (ok lost)) = some (ended none (did es (ok tt)))
next_turn turns client (did es (ok (again c f ls))) = preceded es (turns c f ls)

-- The loop, on fuel; `none` is out of fuel.
unfoldable pub turns : ℕ → Bench → SerialClient → Fields → List String → Option LoopEnd
unfolding turn
turns zero B client fields lines = none
turns (suc fuel) B client fields lines =
    next_turn (turns fuel B) client (turn B client fields lines)

-- `finally: client.close()`, and the line after it.
unfoldable pub finally_close : LoopEnd → Run (Unit {0})
finally_close (ended none (did es result)) =
    did es (err (attribute_error "'NoneType' object has no attribute 'close'"))
finally_close (ended (some c) (did es result)) =
    did (es ++ closed c ∷ printed connection_closed ∷ []) result

abbrev pub finished : Option LoopEnd → Option (Run (Unit {0}))
finished none = none
finished (some e) = some (finally_close e)

abbrev pub begin : ℕ → Bench → Run (Option SerialClient × List String) → Option (Run (Unit {0}))
begin fuel B (did es (err e)) = some (did es (err e))
begin fuel B (did es (ok (none, lines))) = some (did es (ok tt))
begin fuel B (did es (ok (some c, lines))) = finished (preceded es (turns fuel B c defaults lines))

unfoldable pub main : ℕ → Bench → List String → Option (Run (Unit {0}))
unfolding connect turns finally_close
main fuel B lines = begin fuel B (connect B lines)
