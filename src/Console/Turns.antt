-- ===== src/Console/Turns.antt =====
-- modbus_console.py: the port through one turn of the loop.
use bbjsensescada.Common.{
  ◌≡◌, refl, List, [], String, Option, none, some, Bool, true, false, ◌⊎◌, inl, inr, ◌==◌,
  string_eq, if◌then◌else◌, nat_eq,
}
use bbjsensescada.Python.{Result, ok, err}
use bbjsensescada.Python.Value.{str}
use bbjsensescada.Diagnose.Serial.{
  SerialClient, Bench, Event, closed, Run, did, events, outcome, after, prompt_again, not_opened,
  ◌>>=◌, ◌>>◌, lift, act, print,
}
use bbjsensescada.Diagnose.Held.{
  IsQuiet, >>=-IsQuiet, lift-IsQuiet, print-IsQuiet, print_all-IsQuiet,
}
use bbjsensescada.Console.Port.{Uses, Uses-append, Prints-Uses}
use bbjsensescada.Console.{
  Fields, seen_ports, ask, connect, connect_to, when_connected, ask_fields, read_input,
}
use bbjsensescada.Console.Loop.{
  Next, quit, lost, again, is_letter, reconnected, reconnect, read_turn, on_input, turn,
}
use bbjsensescada.Console.Quiet.{ask_fields-IsQuiet, read_input-IsQuiet}

abbrev pub found_client : Result (Option SerialClient × List String) → Option SerialClient
found_client (err e) = none
found_client (ok (found, lines)) = found

-- A part that begins and, if it raises, ends with no port open.
unfoldable pub Connects : Run (Option SerialClient × List String) → Type 0
Connects r = Uses none (events r) (found_client (outcome r))

lift-Connects {ℓ} :
    {A : Type ℓ} (result : Result A) (f : A → Run (Option SerialClient × List String))
    → ((a : A) → Connects (f a))
    → Connects (lift result >>= f)
unfolding ◌>>=◌ Connects
lift-Connects (ok a) f h = h a
lift-Connects (err e) f h = refl

not_found-Connects :
    (r : Run (Unit {0})) (lines : List String) → IsQuiet r → Connects (r >> lift (ok (none, lines)))
unfolding IsQuiet Connects ◌>>=◌
not_found-Connects (did es (err e)) lines h = Prints-Uses es none h
not_found-Connects (did es (ok a)) lines h =
    Uses-append es [] none none none (Prints-Uses es none h) refl

when_connected-Connects :
    (B : Bench) (client : SerialClient) (port : String) (lines : List String) (is_open : Bool)
    → Connects (when_connected B client port lines is_open)
unfolding when_connected Connects ◌>>=◌
when_connected-Connects B client port lines true = refl
when_connected-Connects B client port lines false = not_found-Connects _ lines (
    >>=-IsQuiet (print (not_opened (str port))) _ (print-IsQuiet (not_opened (str port)))
      (λ _. print_all-IsQuiet (seen_ports B.comports)))

pub connect-Connects : (B : Bench) (lines : List String) → Connects (connect B lines)
unfolding connect connect_to
connect-Connects B lines = lift-Connects _ _ (λ _. lift-Connects _ _ (λ _. lift-Connects _ _ (λ _.
    lift-Connects _ _ (λ _. lift-Connects _ _ (λ _. lift-Connects _ _ (λ _.
      lift-Connects _ _
        (λ _. lift-Connects _ _ (λ is_open. when_connected-Connects B _ _ _ is_open))))))))

-- The state of the port after a turn, by how the turn ends.
unfoldable pub Leaves : SerialClient → Run Next → Type 0
Leaves client (did es (err e)) =
    (m : Option SerialClient) × Uses (some client) es m × ((m ≡ none) ⊎ (m ≡ some client))
Leaves client (did es (ok quit)) = Uses (some client) es (some client)
Leaves client (did es (ok lost)) = Uses (some client) es none
Leaves client (did es (ok (again c f ls))) = Uses (some client) es (some c)

after-Leaves :
    (client : SerialClient) (es : List Event) (r : Run Next)
    → Uses (some client) es (some client)
    → Leaves client r
    → Leaves client (after es r)
unfolding Leaves
after-Leaves client es (did more (err e)) h (m, k, ends) =
    (m, Uses-append es more (some client) (some client) m h k, ends)
after-Leaves client es (did more (ok quit)) h k =
    Uses-append es more (some client) (some client) (some client) h k
after-Leaves client es (did more (ok lost)) h k =
    Uses-append es more (some client) (some client) none h k
after-Leaves client es (did more (ok (again c f ls))) h k =
    Uses-append es more (some client) (some client) (some c) h k

quiet-Leaves {ℓ} :
    {A : Type ℓ} (client : SerialClient) (r : Run A) (f : A → Run Next)
    → IsQuiet r
    → ((a : A) → Leaves client (f a))
    → Leaves client (r >>= f)
unfolding Leaves IsQuiet ◌>>=◌
quiet-Leaves client (did es (err e)) f h k = (some client, Prints-Uses es (some client) h, inr refl)
quiet-Leaves client (did es (ok a)) f h k =
    after-Leaves client es (f a) (Prints-Uses es (some client) h) (k a)

again-Leaves :
    (client : SerialClient) (fields : Fields) (lines : List String)
    → Leaves client (lift (ok (again client fields lines)))
unfolding Leaves
again-Leaves client fields lines = refl

back-Leaves :
    (client : SerialClient) (fields : Fields) (q : Run (Option SerialClient × List String))
    → Connects q
    → Leaves client (act (closed client) >> (q >>= λ found. lift (ok (reconnected fields found))))
unfolding Leaves Connects ◌>>=◌
back-Leaves client fields (did es (err e)) h = (none, (refl, h), inl refl)
back-Leaves client fields (did es (ok (none, lines))) h =
    (refl, Uses-append es [] none none none h refl)
back-Leaves client fields (did es (ok (some c, lines))) h =
    (refl, Uses-append es [] none (some c) (some c) h refl)

quit-Leaves : (client : SerialClient) → Leaves client (lift (ok quit))
unfolding Leaves
quit-Leaves client = refl

if-Leaves :
    (client : SerialClient) (b : Bool) (r q : Run Next)
    → Leaves client r
    → Leaves client q
    → Leaves client (if b then r else q)
if-Leaves client true r q h k = h
if-Leaves client false r q h k = k

on_input-Leaves :
    (B : Bench) (client : SerialClient) (fields : Fields) (text : String) (lines : List String)
    → Leaves client (on_input B client fields text lines)
unfolding on_input reconnect read_turn
on_input-Leaves B client fields text lines =
    if-Leaves client (is_letter b'q' text) _ _ (quit-Leaves client) (
      if-Leaves client (is_letter b'r' text) _ _
        (back-Leaves client fields (connect B lines) (connect-Connects B lines))
        (if-Leaves client (text == "") _ _
          (quiet-Leaves client (print prompt_again) _ (print-IsQuiet prompt_again)
            (λ _. again-Leaves client fields lines))
          (quiet-Leaves client (ask_fields fields lines) _ (ask_fields-IsQuiet fields lines)
            (λ found.
              quiet-Leaves client (read_input B client found.0 text) _
                (read_input-IsQuiet B client found.0 text)
                (λ _. again-Leaves client found.0 found.1)))))

pub turn-Leaves :
    (B : Bench) (client : SerialClient) (fields : Fields) (lines : List String)
    → Leaves client (turn B client fields lines)
unfolding turn
turn-Leaves B client fields lines =
    quiet-Leaves client (lift (ask "" lines)) _ (lift-IsQuiet (ask "" lines))
      (λ typed. on_input-Leaves B client fields typed.0 typed.1)
