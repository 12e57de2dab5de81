-- ===== src/Gui/Discovery.antt =====
-- modbus_gui.py: what a scan of slave ids finds.
use mathlib.Core.List.{append_assoc}
use bbjsensescada.Common.{
  ◌≡◌, refl, ap, List, [], ◌∷◌, ◌++◌, Option, none, some, Bool, true, false, ◌||◌, arith,
}
use bbjsensescada.Common.Int.{ℤ, pos}
use bbjsensescada.Python.{Result, ok, err, ◌>>=◌}
use bbjsensescada.Python.Range.{range, plus}
use bbjsensescada.Python.Value.{int, str, to_int}
use bbjsensescada.Diagnose.Requests.{request, kind_of, read_one_register-lem}
use bbjsensescada.Poller.{Response, registers, refused}
use bbjsensescada.Diagnose.Serial.{
  alive, alive_refused, scanning, SerialClient, Bench, Event, printed, scan_complete, no_response,
}
use bbjsensescada.Gui.Defs.{App, Vars}
use bbjsensescada.Gui.Steps.{
  Gui, Scan, Gesture, Stepped, press_scan_ids, scan_slave_ids, scan_of, scan_on, perform, run,
  advance, answer_line, knock, noted, has_line,
}

-- What the device with this slave id answers to the scan's request.
abbrev pub reply : Bench → SerialClient → Scan → ℤ → Result Response
reply B client scan slave_id =
    B.read client
      (request (kind_of scan.function_code) (int scan.address) (int scan.count) (int slave_id))

-- A reply with registers and an exception response are both lines of the log; a read that raises is
-- none.
abbrev pub logged : ℤ → Result Response → List Event
logged slave_id (ok (registers regs)) = printed (alive slave_id regs) ∷ []
logged slave_id (ok (refused text)) = printed (alive_refused slave_id text) ∷ []
logged slave_id (err error) = []

abbrev pub is_reply : Result Response → Bool
is_reply (ok response) = true
is_reply (err error) = false

-- The lines of the ids that answer, in the order of the ids.
abbrev pub answers : Bench → SerialClient → Scan → List ℤ → List Event
answers B client scan [] = []
answers B client scan (slave_id ∷ left) =
    logged slave_id (reply B client scan slave_id) ++ answers B client scan left

-- Whether one of them answers.
abbrev pub any_answers : Bench → SerialClient → Scan → List ℤ → Bool
any_answers B client scan [] = false
any_answers B client scan (slave_id ∷ left) =
    is_reply (reply B client scan slave_id) || any_answers B client scan left

-- The same as the steps of the scan compute it, with or without a client.
abbrev knocks : Bench → Option SerialClient → Scan → List ℤ → List Event
knocks B client scan [] = []
knocks B client scan (slave_id ∷ left) =
    noted (knock B client scan slave_id) ++ knocks B client scan left

abbrev any_knock : Bench → Option SerialClient → Scan → List ℤ → Bool
any_knock B client scan [] = false
any_knock B client scan (slave_id ∷ left) =
    has_line (knock B client scan slave_id) || any_knock B client scan left

noted-answer_line :
    (slave_id : ℤ) (r : Result Response) → noted (answer_line slave_id r) ≡ logged slave_id r
noted-answer_line slave_id (ok (registers regs)) = refl
noted-answer_line slave_id (ok (refused text)) = refl
noted-answer_line slave_id (err error) = refl

has_line-answer_line :
    (slave_id : ℤ) (r : Result Response) → has_line (answer_line slave_id r) ≡ is_reply r
has_line-answer_line slave_id (ok (registers regs)) = refl
has_line-answer_line slave_id (ok (refused text)) = refl
has_line-answer_line slave_id (err error) = refl

knock-lem :
    (B : Bench) (client : SerialClient) (scan : Scan) (slave_id : ℤ)
    → knock B (some client) scan slave_id ≡ answer_line slave_id (reply B client scan slave_id)
unfolding knock
knock-lem B client scan slave_id = ap (answer_line slave_id) (
    read_one_register-lem B client (int slave_id) (int scan.address) (int scan.count)
      scan.function_code)

knocks-answers :
    (B : Bench) (client : SerialClient) (scan : Scan) (ids : List ℤ)
    → (knocks B (some client) scan ids ≡ answers B client scan ids)
      × (any_knock B (some client) scan ids ≡ any_answers B client scan ids)
knocks-answers B client scan [] = (refl, refl)
knocks-answers B client scan (slave_id ∷ ids) =
    let (same, same_any) = knocks-answers B client scan ids in
    let r = reply B client scan slave_id in
    (
      rw (knock-lem B client scan slave_id, noted-answer_line slave_id r, same) refl,
      rw (knock-lem B client scan slave_id, has_line-answer_line slave_id r, same_any) refl,
    )

-- A scan that goes on undisturbed: one step for each id, and one for its end.
abbrev pub undisturbed : List ℤ → List Gesture
undisturbed [] = scan_on ∷ []
undisturbed (slave_id ∷ left) = scan_on ∷ undisturbed left

-- The summary that the scan gives when `found` is what it has found before.
abbrev pub summary_of : Scan → Bool → List Event
summary_of scan true = printed scan_complete ∷ []
summary_of scan false = printed (no_response scan.start scan.end) ∷ printed scan_complete ∷ []

abbrev pub scanning_gui : App → List Scan → Scan → List ℤ → Bool → Gui
scanning_gui a outer scan left found = record {
  app = a;
  scans = record scan { left = left; found_any = found } ∷ outer;
  destroyed = false;
}

-- What an id knocks does not depend on how far the scan is.
same_knock :
    (B : Bench) (client : Option SerialClient) (scan : Scan) (left : List ℤ) (found : Bool)
    (slave_id : ℤ)
    → knock B client (record scan { left = left; found_any = found }) slave_id
      ≡ knock B client scan slave_id
unfolding knock
same_knock B none scan left found slave_id = refl
same_knock B (some client) scan left found slave_id = refl

or_swap : (a b c : Bool) → (a || b || c) ≡ (b || (a || c))
or_swap a b c = ground arith

-- Undisturbed from any point of the scan.
run-from :
    (B : Bench) (a : App) (outer : List Scan) (scan : Scan) (left : List ℤ) (found : Bool)
    → run B (undisturbed left) (scanning_gui a outer scan left found) ≡ (
      record { app = a; scans = outer; destroyed = false },
      knocks B a.client scan left ++ summary_of scan (found || any_knock B a.client scan left),
    )
unfolding run perform advance
run-from B a outer scan [] true = refl
run-from B a outer scan [] false = refl
run-from B a outer scan (slave_id ∷ left) found =
    let one = knock B a.client scan slave_id in
    let rest = any_knock B a.client scan left in
    let later = run-from B a outer scan left (has_line one || found) in
    let same = same_knock B a.client scan (slave_id ∷ left) found slave_id in
    rw
      (
        same,
        later,
        or_swap (has_line one) found rest,
        append_assoc (noted one) (knocks B a.client scan left)
            (summary_of scan (found || (has_line one || rest))),
      )
      refl

-- The five fields are numbers, and the range of the ids is this list.
pub record Asks (vars : Vars) (scan : Scan) : Type 0 where
  pub from_reads : to_int (str vars.scan_from) ≡ ok scan.start
  pub to_reads : to_int (str vars.scan_to) ≡ ok scan.end
  pub address_reads : to_int (str vars.scan_address) ≡ ok scan.address
  pub count_reads : to_int (str vars.scan_count) ≡ ok scan.count
  pub function_code_reads : to_int (str vars.scan_func) ≡ ok scan.function_code
  pub ids_range : range scan.start (plus scan.end 1) (pos 1) ≡ ok scan.left
  pub none_found : scan.found_any ≡ false

scan_of-lem :
    (vars : Vars) (scan : Scan)
    → Asks vars scan
    → scan_of vars ≡ ok (record scan { left = scan.left; found_any = false })
unfolding scan_of
scan_of-lem vars scan h =
    rw (h.from_reads, h.to_reads, h.address_reads, h.count_reads, h.function_code_reads)
      (ap
        (λ (r : Result (List ℤ)). r >>= λ left. ok (record scan { left = left; found_any = false }))
        h.ids_range)

abbrev before_all : Event → Stepped → Stepped
before_all e (g, es) = (g, e ∷ es)

abbrev pub quiet_gui : App → SerialClient → List Scan → Gui
quiet_gui a client outer = record {
  app = record a { client = some client };
  scans = outer;
  destroyed = false;
}

-- With a client open and numbers in the fields, a scan of slave ids that is left undisturbed logs, in
-- the order of the ids, one line for each id whose read gives registers or an exception response and
-- none for an id whose read raises; it says that no id has responded exactly if every read has raised,
-- and ends with the window as it was.
pub run-answers :
    (B : Bench) (a : App) (outer : List Scan) (scan : Scan) (client : SerialClient)
    → Asks a.vars scan
    → run B (press_scan_ids ∷ undisturbed scan.left) (quiet_gui a client outer) ≡ (
      quiet_gui a client outer,
      printed (scanning scan.start scan.end) ∷ answers B client scan scan.left
          ++ summary_of scan (any_answers B client scan scan.left),
    )
unfolding run perform scan_slave_ids
run-answers B a outer scan client h =
    let later = run-from B (record a { client = some client }) outer scan scan.left false in
    let (same, same_any) = knocks-answers B client scan scan.left in
    rw (scan_of-lem a.vars scan h)
      (ap (before_all (printed (scanning scan.start scan.end))) (rw (same, same_any) at later))
