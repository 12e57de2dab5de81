-- ===== src/Diagnose/Requests.antt =====
-- The request that a read makes, whichever of the tools makes it.
use bbjsensescada.Common.{◌≡◌, refl, Bool, true, false, if◌then◌else◌, ◌==◌}
use bbjsensescada.Common.Int.{ℤ, pos, int_eq}
use bbjsensescada.Python.Value.{Value}
use bbjsensescada.Poller.{ReadKind, holding, input}
use bbjsensescada.Diagnose.Serial.{SerialClient, Request, Bench, read_one_register}

-- Function code 4 reads input registers, every other one holding registers.
abbrev pub kind_of : ℤ → ReadKind
kind_of function_code = if function_code == pos 4 then input else holding

abbrev pub request : ReadKind → Value → Value → Value → Request
request kind address count slave_id = record {
  kind = kind;
  address = address;
  count = count;
  slave_id = slave_id;
}

pub read_one_register-lem :
    (B : Bench) (client : SerialClient) (slave_id address count : Value) (function_code : ℤ)
    → read_one_register B client slave_id address count function_code
      ≡ B.read client (request (kind_of function_code) address count slave_id)
unfolding read_one_register
read_one_register-lem B client slave_id address count function_code =
    either (function_code == pos 4)
  where
    either :
        (b : Bool)
        → (if b
            then B.read client
                (record { kind = input; address = address; count = count; slave_id = slave_id })
            else B.read client
                (record { kind = holding; address = address; count = count; slave_id = slave_id }))
          ≡ B.read client (request (if b then input else holding) address count slave_id)
    either true = refl
    either false = refl
