-- ===== src/Console/Ending.antt =====
-- modbus_console.py: how many turns the loop of `main` takes.
use bbjsensescada.Common.{
  ℕ, zero, suc, ◌≤◌, ◌<◌, ◌≡◌, refl, sym, List, [], ◌∷◌, length, String, Option, none, some, arith,
  Bool-cases, inl, inr, ◌==◌, string_eq,
}
use bbjsensescada.Python.{ok, err, ok-injective}
use bbjsensescada.Diagnose.Serial.{
  SerialClient, Bench, Event, Run, did, outcome, after, ◌>>=◌, lift, act, closed,
}
use bbjsensescada.Console.{Fields, defaults, ask, connect, ask_fields, read_input}
use bbjsensescada.Console.Loop.{
  Next, quit, lost, again, is_letter, reconnect, read_turn, on_input, turn, LoopEnd, ended, turns,
  next_turn, preceded, main, begin, finally_close, finished, reconnected,
}
use bbjsensescada.Console.Typed.{bind_outcome, ask_shorter, connect-shorter, ask_fields-shorter}

-- The next turn, if there is one, has at most n lines.
abbrev Within : ℕ → Next → Type 0
Within n quit = Unit {0}
Within n lost = Unit {0}
Within n (again client fields lines) = length lines ≤ n

reconnect-Within :
    (B : Bench) (client : SerialClient) (fields : Fields) (lines : List String) (next : Next)
    → outcome (reconnect B client fields lines) ≡ ok next
    → Within (length lines) next
unfolding reconnect
reconnect-Within B client fields lines next h =
    let (_, _, h1) = bind_outcome (act (closed client)) _ h in
    let (found, e1, h2) = bind_outcome (connect B lines) _ h1 in
    rw (sym (ok-injective h2)) (after_connect found (connect-shorter B lines found e1))
  where
    after_connect :
        (found : Option SerialClient × List String)
        → length found.1 < length lines
        → Within (length lines) (reconnected fields found)
    after_connect (none, rest) k = tt
    after_connect (some c, rest) k = omega (arith, k)

read_turn-Within :
    (B : Bench) (client : SerialClient) (fields : Fields) (text : String) (lines : List String)
    (next : Next)
    → outcome (read_turn B client fields text lines) ≡ ok next
    → Within (length lines) next
unfolding read_turn
read_turn-Within B client fields text lines next h =
    let (found, e1, h1) = bind_outcome (ask_fields fields lines) _ h in
    let (_, _, h2) = bind_outcome (read_input B client found.0 text) _ h1 in
    let shorter = ask_fields-shorter fields lines found e1 in
    rw (sym (ok-injective h2)) (omega (arith, shorter))

on_input-Within :
    (B : Bench) (client : SerialClient) (fields : Fields) (text : String) (lines : List String)
    (next : Next)
    → outcome (on_input B client fields text lines) ≡ ok next
    → Within (length lines) next
unfolding on_input ◌>>=◌
on_input-Within B client fields text lines next h = elim (Bool-cases (is_letter b'q' text)) [
  | inl q ↦ let k : ok quit ≡ ok next = rw q at h in rw (sym (ok-injective k)) tt
  | inr other ↦ elim (Bool-cases (is_letter b'r' text)) [
    | inl r ↦ reconnect-Within B client fields lines next (rw (other, r) at h)
    | inr one ↦ elim (Bool-cases (text == "")) [
      | inl blank ↦
          let k : ok (again client fields lines) ≡ ok next = rw (other, one, blank) at h in
          rw (sym (ok-injective k)) (omega arith)
      | inr full ↦ read_turn-Within B client fields text lines next (rw (other, one, full) at h)
    ]
  ]
]

widened : (next : Next) (m n : ℕ) → Within m next → m ≤ n → Within n next
widened quit m n h le = tt
widened lost m n h le = tt
widened (again client fields lines) m n h le = omega (arith, h, le)

turn-Within :
    (n : ℕ) (B : Bench) (client : SerialClient) (fields : Fields) (lines : List String)
    (next : Next)
    → outcome (turn B client fields lines) ≡ ok next
    → length lines ≤ suc n
    → Within n next
unfolding turn
turn-Within n B client fields lines next h bound =
    let (typed, e1, h1) = bind_outcome (lift (ask "" lines)) _ h in
    let shorter = ask_shorter "" lines typed e1 in
    let within = on_input-Within B client fields typed.0 typed.1 next h1 in
    widened next (length typed.1) n within (omega (arith, shorter, bound))

preceded-ends :
    (es : List Event) (o : Option LoopEnd)
    → ((e : LoopEnd) × (o ≡ some e))
    → (e : LoopEnd) × (preceded es o ≡ some e)
preceded-ends es o (ended c r, same) = (ended c (after es r), rw same refl)

finished-ends :
    (o : Option LoopEnd)
    → ((e : LoopEnd) × (o ≡ some e))
    → (r : Run (Unit {0})) × (finished o ≡ some r)
finished-ends o (e, same) = (finally_close e, rw same refl)

-- One turn, when the turns after it end.
next_turn-ends :
    (rest : SerialClient → Fields → List String → Option LoopEnd) (n : ℕ) (client : SerialClient)
    (r : Run Next)
    → ((next : Next) → outcome r ≡ ok next → Within n next)
    → ((c : SerialClient) (f : Fields) (ls : List String)
        → length ls ≤ n
        → (e : LoopEnd) × (rest c f ls ≡ some e))
    → (e : LoopEnd) × (next_turn rest client r ≡ some e)
next_turn-ends rest n client (did es (err e)) within later = (_, refl)
next_turn-ends rest n client (did es (ok quit)) within later = (_, refl)
next_turn-ends rest n client (did es (ok lost)) within later = (_, refl)
next_turn-ends rest n client (did es (ok (again c f ls))) within later =
    preceded-ends es (rest c f ls) (later c f ls (within (again c f ls) refl))

turns-end :
    (n : ℕ) (B : Bench) (client : SerialClient) (fields : Fields) (lines : List String)
    → length lines ≤ n
    → (e : LoopEnd) × (turns (suc n) B client fields lines ≡ some e)
unfolding turns turn ask ◌>>=◌
turns-end zero B client fields [] h = (_, refl)
turns-end zero B client fields (l ∷ ls) h = absurd (omega (arith, h))
turns-end (suc n) B client fields lines h =
    next_turn-ends (turns (suc n) B) n client (turn B client fields lines)
      (λ next k. turn-Within n B client fields lines next k h) (λ c f ls k. turns-end n B c f ls k)

-- The loop of the console always ends, and needs one turn for each line that is typed and one more:
-- with that much fuel, and any lines typed, `main` returns or raises.
pub main-ends :
    (B : Bench) (lines : List String)
    → (r : Run (Unit {0})) × (main (suc (length lines)) B lines ≡ some r)
unfolding main
main-ends B lines = begun (connect B lines) (λ found h. connect-shorter B lines found h)
  where
    begun :
        (r : Run (Option SerialClient × List String))
        → ((found : Option SerialClient × List String)
            → outcome r ≡ ok found
            → length found.1 < length lines)
        → (q : Run (Unit {0})) × (begin (suc (length lines)) B r ≡ some q)
    begun (did es (err e)) k = (_, refl)
    begun (did es (ok (none, rest))) k = (_, refl)
    begun (did es (ok (some c, rest))) k =
        let shorter = k (some c, rest) refl in
        finished-ends (preceded es (turns (suc (length lines)) B c defaults rest)) (
          preceded-ends es (turns (suc (length lines)) B c defaults rest)
            (turns-end (length lines) B c defaults rest (omega (arith, shorter))))
