-- ===== src/Console/Typed.antt =====
-- modbus_console.py: the lines that the prompts take.
use bbjsensescada.Common.{
  ◌<◌, ◌≡◌, refl, sym, ap, List, [], ◌∷◌, length, String, Option, arith, Bool, true, false,
  string_eq,
}
use bbjsensescada.Python.{ok, err, ok-injective}
use bbjsensescada.Python.Value.{str, to_int, int}
use bbjsensescada.Codec.{normalize_stop_bits}
use bbjsensescada.Diagnose.Serial.{
  SerialClient, Bench, Run, did, opened, port_opened, port_opened, not_opened, outcome, ◌>>=◌, ◌>>◌,
  lift, act, print,
}
use bbjsensescada.Diagnose.Scan.{print_all}
use bbjsensescada.Console.{Fields, seen_ports, ask, connect, connect_to, when_connected, ask_fields}

-- What a part that returns has gone through.
pub bind_outcome {ℓ ℓ'} :
    {A : Type ℓ} {B : Type ℓ'} {last : B} (r : Run A) (f : A → Run B)
    → outcome (r >>= f) ≡ ok last
    → (a : A) × (outcome r ≡ ok a) × (outcome (f a) ≡ ok last)
unfolding ◌>>=◌
bind_outcome (did es (ok a)) f h = (a, refl, h)
bind_outcome (did es (err e)) f h = cc

pub ask_shorter :
    (default : String) (lines : List String) (typed : String × List String)
    → ask default lines ≡ ok typed
    → length typed.1 < length lines
unfolding ask
ask_shorter default (line ∷ lines) typed h =
    let same = ap (λ (p : String × List String). length p.1) (ok-injective h) in omega (arith, same)
ask_shorter default [] typed h = cc

when_connected-lines :
    (B : Bench) (client : SerialClient) (port : String) (lines : List String) (is_open : Bool)
    (found : Option SerialClient × List String)
    → outcome (when_connected B client port lines is_open) ≡ ok found
    → found.1 ≡ lines
unfolding when_connected
when_connected-lines B client port lines true found h =
    let (_, _, kept) = bind_outcome (act (opened client) >> print (port_opened port)) _ h in
    ap (λ (p : Option SerialClient × List String). p.1) (sym (ok-injective kept))
when_connected-lines B client port lines false found h =
    let (_, _, kept) =
      bind_outcome (print (not_opened (str port)) >> print_all (seen_ports B.comports)) _ h in
    ap (λ (p : Option SerialClient × List String). p.1) (sym (ok-injective kept))

pub connect-shorter :
    (B : Bench) (lines : List String) (found : Option SerialClient × List String)
    → outcome (connect B lines) ≡ ok found
    → length found.1 < length lines
unfolding connect connect_to
connect-shorter B lines found h =
    let (a1, e1, h1) = bind_outcome (lift (ask "COM6" lines)) _ h in
    let (a2, e2, h2) = bind_outcome (lift (ask "4800" a1.1)) _ h1 in
    let (baud, _, h3) = bind_outcome (lift (to_int (str a2.0))) _ h2 in
    let (a3, e3, h4) = bind_outcome (lift (ask "O" a2.1)) _ h3 in
    let (a4, e4, h5) = bind_outcome (lift (ask "2" a3.1)) _ h4 in
    let (stop_bits, _, h6) = bind_outcome (lift (to_int (str a4.0))) _ h5 in
    let (stopbits, _, h7) =
      bind_outcome (lift (normalize_stop_bits B.arithmetic (int stop_bits))) _ h6 in
    let (is_open, _, h8) = bind_outcome (lift (B.connect _)) _ h7 in
    let kept = when_connected-lines B _ a1.0 a4.1 is_open found h8 in
    omega (
      arith,
      ap length kept,
      ask_shorter "COM6" lines a1 e1,
      ask_shorter "4800" a1.1 a2 e2,
      ask_shorter "O" a2.1 a3 e3,
      ask_shorter "2" a3.1 a4 e4,
    )

pub ask_fields-shorter :
    (fields : Fields) (lines : List String) (found : Fields × List String)
    → outcome (ask_fields fields lines) ≡ ok found
    → length found.1 < length lines
unfolding ask_fields
ask_fields-shorter fields lines found h =
    let (a1, e1, h1) = bind_outcome (lift (ask fields.slave_id lines)) _ h in
    let (a2, e2, h2) = bind_outcome (lift (ask fields.count a1.1)) _ h1 in
    let (a3, e3, h3) = bind_outcome (lift (ask fields.function_code a2.1)) _ h2 in
    let (a4, e4, h4) = bind_outcome (lift (ask fields.data_type a3.1)) _ h3 in
    let (a5, e5, h5) = bind_outcome (lift (ask fields.byte_order a4.1)) _ h4 in
    let (a6, e6, h6) = bind_outcome (lift (ask fields.word_order a5.1)) _ h5 in
    let kept = ap (λ (p : Fields × List String). length p.1) (ok-injective h6) in
    omega (
      arith,
      kept,
      ask_shorter fields.slave_id lines a1 e1,
      ask_shorter fields.count a1.1 a2 e2,
      ask_shorter fields.function_code a2.1 a3 e3,
      ask_shorter fields.data_type a3.1 a4 e4,
      ask_shorter fields.byte_order a4.1 a5 e5,
      ask_shorter fields.word_order a5.1 a6 e6,
    )
