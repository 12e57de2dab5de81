-- ===== src/Console/Blocks.antt =====
-- modbus_console.py: the reads that a range of addresses makes.
use bbjsensescada.Common.{
  ℕ, zero, suc, ◌<◌, ◌≡◌, refl, List, [], ◌∷◌, map, String, All, nat_eq, arith,
}
use bbjsensescada.Common.Int.{ℤ, pos}
use bbjsensescada.Python.{Result, ok, err, message}
use bbjsensescada.Python.Range.{range, span, plus, offsets, count_of}
use bbjsensescada.Python.Range.Blocks.{Found, offsets-bound, offsets-covers, count_of-bounds}
use bbjsensescada.Python.Value.{int, str, to_int}
use bbjsensescada.Diagnose.Serial.{
  SerialClient, Bench, Line, read_error, read_fail, read_ok, read_undecoded, Event, printed, did,
  ◌>>=◌,
}
use bbjsensescada.Diagnose.{decode_registers}
use bbjsensescada.Diagnose.Requests.{request, kind_of, read_one_register-lem}
use bbjsensescada.Poller.{Response, registers, refused}
use bbjsensescada.Python.Float.{Float}
use bbjsensescada.Overrides.{partition}
use bbjsensescada.Console.{
  Fields, read_line, decoded_line, read_and_print, read_at, sweep, read_range,
}

-- The numbers that the fields stand for.
pub record Numbers (fields : Fields) : Type 0 where
  pub slave_id : ℤ
  pub count : ℕ
  pub function_code : ℤ
  pub slave_id_reads : to_int (str fields.slave_id) ≡ ok slave_id
  pub count_reads : to_int (str fields.count) ≡ ok (pos (suc count))
  pub function_code_reads : to_int (str fields.function_code) ≡ ok function_code

-- What is printed of a read: its registers with the value that they decode to, or with the reason
-- why they do not, the device's refusal, or the exception.
abbrev pub told : Bench → (fields : Fields) → ℤ → Result Response → Line
told B fields address (err error) = read_error address (message error)
told B fields address (ok (refused text)) = read_fail address text
told B fields address (ok (registers regs)) =
    elim (decode_registers B.repr regs (str fields.data_type) (str fields.byte_order)
      (str fields.word_order)) [
        | ok value ↦ read_ok address regs value
        | err error ↦ read_undecoded address regs (message error)
      ]

-- The line of the read of one block: `count + 1` registers from the address on, of the slave and by
-- the function code of the fields.
abbrev pub line_at : Bench → SerialClient → (fields : Fields) → Numbers fields → ℤ → Event
line_at B client fields n address =
    let asked =
      request (kind_of n.function_code) (int address) (int (pos (suc n.count))) (int n.slave_id) in
    printed (told B fields address (B.read client asked))

read_and_print-lem :
    (B : Bench) (client : SerialClient) (slave_id address count function_code : ℤ) (fields : Fields)
    → read_and_print B client slave_id address count function_code fields
      ≡ told B fields address
          (B.read client (request (kind_of function_code) (int address) (int count) (int slave_id)))
unfolding read_and_print
read_and_print-lem B client slave_id address count function_code fields =
    rw (read_one_register-lem B client (int slave_id) (int address) (int count) function_code) (
      as_told
        (B.read client (request (kind_of function_code) (int address) (int count) (int slave_id))))
  where
    decoded :
        (regs : List ℕ) (r : Result Float)
        → decoded_line address regs r ≡ elim r [
          | ok value ↦ read_ok address regs value
          | err error ↦ read_undecoded address regs (message error)
        ]
    decoded regs (ok value) = refl
    decoded regs (err error) = refl

    as_told : (r : Result Response) → read_line B address fields r ≡ told B fields address r
    as_told (err error) = refl
    as_told (ok (refused text)) = refl
    as_told (ok (registers regs)) = decoded regs _

read_at-lem :
    (B : Bench) (client : SerialClient) (fields : Fields) (n : Numbers fields) (address : ℤ)
    → read_at B client fields address ≡ did (line_at B client fields n address ∷ []) (ok tt)
unfolding read_at ◌>>=◌
read_at-lem B client fields n address =
    rw
      (
        n.slave_id_reads,
        n.count_reads,
        n.function_code_reads,
        read_and_print-lem B client n.slave_id address (pos (suc n.count)) n.function_code fields,
      )
      refl

sweep-lem :
    (B : Bench) (client : SerialClient) (fields : Fields) (n : Numbers fields) (addresses : List ℤ)
    → sweep B client fields addresses ≡ did (map (line_at B client fields n) addresses) (ok tt)
unfolding sweep ◌>>=◌
sweep-lem B client fields n [] = refl
sweep-lem B client fields n (address ∷ addresses) =
    rw (read_at-lem B client fields n address, sweep-lem B client fields n addresses) refl

-- The distances from the start at which a sweep reads.
abbrev pub blocks : ℤ → ℤ → ℕ → List ℕ
blocks start end count = offsets (count_of (span start end) count) 0 (suc count)

-- The numbers below n.
abbrev pub below : ℕ → List ℕ
below zero = []
below (suc n) = n ∷ below n

below-All : (P : ℕ → Type 0) (n : ℕ) → ((d : ℕ) → d < n → P d) → All P (below n)
below-All P zero h = tt
below-All P (suc n) h = (h n (omega arith), below-All P n λ d lt. h d (omega arith))

-- If the two ends of the range and the fields are numbers and the register count is positive, a sweep
-- returns, an empty range included, whatever the reads give or raise. It prints one line for each
-- block of that many registers, in ascending order, and each line tells what the read of exactly the
-- registers of its block gave. No block begins at or past the end, and every register from the start
-- up to the end, the end excluded, lies in one of the blocks; so an empty range prints nothing.
pub read_range-covers :
    (B : Bench) (client : SerialClient) (fields : Fields) (n : Numbers fields) (text : String)
    (start end : ℤ)
    → to_int (str (partition b'-' text).0) ≡ ok start
    → to_int (str (partition b'-' text).1) ≡ ok end
    → (read_range B client fields text
        ≡ did
            (map (line_at B client fields n) (map (plus start) (blocks start end n.count)))
            (ok tt))
      × All (λ o. o < span start end) (blocks start end n.count)
      × All (Found (blocks start end n.count) (suc n.count)) (below (span start end))
unfolding read_range range ◌>>=◌
read_range-covers B client fields n text start end first last =
    let (upper, lower) = count_of-bounds (span start end) n.count in
    (
      rw
          (
            first,
            last,
            n.count_reads,
            sweep-lem B client fields n (map (plus start) (blocks start end n.count)),
          )
          refl,
      offsets-bound (count_of (span start end) n.count) 0 n.count (span start end)
          (omega (arith, upper)),
      below-All (Found (blocks start end n.count) (suc n.count)) (span start end) λ d inside.
          offsets-covers (count_of (span start end) n.count) 0 n.count d (omega arith)
            (omega (arith, lower, inside)),
    )
