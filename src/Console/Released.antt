-- ===== src/Console/Released.antt =====
-- modbus_console.py: the port that the console holds.
use mathlib.Core.List.{append_assoc}
use mathlib.Core.Option.{some-injective}
use bbjsensescada.Common.{
  ℕ, zero, suc, ◌≡◌, refl, List, [], ◌∷◌, ◌++◌, length, String, Option, none, some, ◌⊎◌, inl, inr,
  string_eq, nat_eq,
}
use bbjsensescada.Python.{ok, err}
use bbjsensescada.Diagnose.Serial.{
  SerialClient, Bench, Event, closed, printed, Run, did, events, connection_closed,
}
use bbjsensescada.Console.Port.{Uses, Uses-append}
use bbjsensescada.Console.{Fields, defaults, connect}
use bbjsensescada.Console.Loop.{
  Next, quit, lost, again, turn, LoopEnd, ended, turns, next_turn, preceded, main, begin,
  finally_close, finished,
}
use bbjsensescada.Console.Turns.{Connects, Leaves, connect-Connects, turn-Leaves}
use bbjsensescada.Console.Ending.{main-ends}

-- However the loop has ended, closing the client leaves no port open.
abbrev Closes : Option SerialClient → Option LoopEnd → Type 0
Closes s none = Unit {0}
Closes s (some e) = Uses s (events (finally_close e)) none

preceded-Closes :
    (s m : Option SerialClient) (es : List Event) (o : Option LoopEnd)
    → Uses s es m
    → Closes m o
    → Closes s (preceded es o)
unfolding finally_close
preceded-Closes s m es none h k = tt
preceded-Closes s m es (some (ended none (did more r))) h k = Uses-append es more s m none h k
preceded-Closes s m es (some (ended (some c) (did more r))) h k =
    rw append_assoc
      (Uses-append es (more ++ closed c ∷ printed connection_closed ∷ []) s m none h k)

shut :
    (client : SerialClient) (es : List Event) (m : Option SerialClient)
    → Uses (some client) es m
    → (m ≡ none) ⊎ (m ≡ some client)
    → Uses (some client) (es ++ closed client ∷ printed connection_closed ∷ []) none
shut client es none h k =
    Uses-append es (closed client ∷ printed connection_closed ∷ []) (some client) none none h refl
shut client es (some c) h (inl k) = absurd (cc k)
shut client es (some c) h (inr k) =
    Uses-append es (closed client ∷ printed connection_closed ∷ []) (some client) (some c) none h
      (some-injective _ _ k, refl)

next_turn-Closes :
    (rest : SerialClient → Fields → List String → Option LoopEnd) (client : SerialClient)
    (r : Run Next)
    → Leaves client r
    → ((c : SerialClient) (f : Fields) (ls : List String) → Closes (some c) (rest c f ls))
    → Closes (some client) (next_turn rest client r)
unfolding Leaves finally_close
next_turn-Closes rest client (did es (err e)) (m, h, ends) k = shut client es m h ends
next_turn-Closes rest client (did es (ok quit)) h k = shut client es (some client) h (inr refl)
next_turn-Closes rest client (did es (ok lost)) h k = h
next_turn-Closes rest client (did es (ok (again c f ls))) h k =
    preceded-Closes (some client) (some c) es (rest c f ls) h (k c f ls)

turns-Closes :
    (fuel : ℕ) (B : Bench) (client : SerialClient) (fields : Fields) (lines : List String)
    → Closes (some client) (turns fuel B client fields lines)
unfolding turns
turns-Closes zero B client fields lines = tt
turns-Closes (suc fuel) B client fields lines =
    next_turn-Closes (turns fuel B) client (turn B client fields lines)
      (turn-Leaves B client fields lines) (turns-Closes fuel B)

-- What main has done, if it has ended.
abbrev IsReleased : Option (Run (Unit {0})) → Type 0
IsReleased none = Unit {0}
IsReleased (some r) = Uses none (events r) none

finished-IsReleased : (o : Option LoopEnd) → Closes none o → IsReleased (finished o)
finished-IsReleased none h = tt
finished-IsReleased (some e) h = h

begin-IsReleased :
    (fuel : ℕ) (B : Bench) (q : Run (Option SerialClient × List String))
    → Connects q
    → IsReleased (begin fuel B q)
unfolding Connects
begin-IsReleased fuel B (did es (err e)) h = h
begin-IsReleased fuel B (did es (ok (none, lines))) h = h
begin-IsReleased fuel B (did es (ok (some c, lines))) h =
    finished-IsReleased (preceded es (turns fuel B c defaults lines)) (
      preceded-Closes none (some c) es (turns fuel B c defaults lines) h
        (turns-Closes fuel B c defaults lines))

-- Whatever is typed, the console ends, whether it returns or raises, and it has then released the
-- serial port: it opens a client only while none is open, and after its last event none is open.
pub main-releases :
    (B : Bench) (lines : List String)
    → (r : Run (Unit {0})) × (main (suc (length lines)) B lines ≡ some r)
      × Uses none (events r) none
unfolding main
main-releases B lines =
    let (r, same) = main-ends B lines in
    let safe =
      begin-IsReleased (suc (length lines)) B (connect B lines) (connect-Connects B lines) in
    (r, same, rw same at safe)
