-- ===== src/Console/Quiet.antt =====
-- modbus_console.py: the parts that leave the port alone.
use bbjsensescada.Common.{
  List, [], ◌∷◌, String, Bool, true, false, string_eq, if◌then◌else◌, contains, nat_eq,
}
use bbjsensescada.Common.Int.{ℤ}
use bbjsensescada.Python.{Result, ok}
use bbjsensescada.Python.Text.{codes}
use bbjsensescada.Diagnose.Serial.{SerialClient, Bench, Run, ◌>>=◌, lift}
use bbjsensescada.Diagnose.Held.{IsQuiet, >>=-IsQuiet, lift-IsQuiet, print-IsQuiet}
use bbjsensescada.Console.{Fields, ask_fields, read_input, read_range, read_single, read_at, sweep}

module _ {ℓ ℓ'} {A : Type ℓ} {B : Type ℓ'} where
  chain-IsQuiet :
      (result : Result A) (f : A → Run B) → ((a : A) → IsQuiet (f a)) → IsQuiet (lift result >>= f)
  chain-IsQuiet result f h = >>=-IsQuiet (lift result) f (lift-IsQuiet result) h

read_at-IsQuiet :
    (B : Bench) (client : SerialClient) (fields : Fields) (address : ℤ)
    → IsQuiet (read_at B client fields address)
unfolding read_at
read_at-IsQuiet B client fields address =
    chain-IsQuiet _ _ (λ _. chain-IsQuiet _ _ (λ _. chain-IsQuiet _ _ (λ _. print-IsQuiet _)))

sweep-IsQuiet :
    (B : Bench) (client : SerialClient) (fields : Fields) (addresses : List ℤ)
    → IsQuiet (sweep B client fields addresses)
unfolding sweep
sweep-IsQuiet B client fields [] = lift-IsQuiet (ok tt)
sweep-IsQuiet B client fields (address ∷ addresses) =
    >>=-IsQuiet (read_at B client fields address) _ (read_at-IsQuiet B client fields address)
      (λ _. sweep-IsQuiet B client fields addresses)

if-IsQuiet :
    (b : Bool) (r q : Run (Unit {0})) → IsQuiet r → IsQuiet q → IsQuiet (if b then r else q)
if-IsQuiet true r q h k = h
if-IsQuiet false r q h k = k

pub read_input-IsQuiet :
    (B : Bench) (client : SerialClient) (fields : Fields) (text : String)
    → IsQuiet (read_input B client fields text)
unfolding read_input read_range read_single
read_input-IsQuiet B client fields text =
    if-IsQuiet (contains (codes text) b'-') _ _
      (chain-IsQuiet _ _ (λ _. chain-IsQuiet _ _ (λ _.
        chain-IsQuiet _ _
          (λ _. chain-IsQuiet _ _ (λ addresses. sweep-IsQuiet B client fields addresses)))))
      (chain-IsQuiet _ _ (λ _.
        chain-IsQuiet _ _ (λ _. chain-IsQuiet _ _ (λ _. chain-IsQuiet _ _ (λ _. print-IsQuiet _)))))

pub ask_fields-IsQuiet : (fields : Fields) (lines : List String) → IsQuiet (ask_fields fields lines)
unfolding ask_fields
ask_fields-IsQuiet fields lines = chain-IsQuiet _ _ (λ _. chain-IsQuiet _ _ (λ _.
    chain-IsQuiet _ _ (λ _.
      chain-IsQuiet _ _
        (λ _. chain-IsQuiet _ _ (λ _. chain-IsQuiet _ _ (λ _. lift-IsQuiet (ok _)))))))
