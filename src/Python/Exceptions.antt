-- ===== src/Python/Exceptions.antt =====
-- Exceptions. A constructor is an exception class with its argument.
use Prim.Native.String.{String}
use bbjsensescada.Common.{◌<>◌}
use mathlib.Core.Path.{◌≡◌, refl}
use mathlib.Core.Logic.{◌⊎◌, inl, inr}

pub data Error : Type 0 where
  value_error type_error key_error attribute_error overflow_error runtime_error : String → Error
  connection_error request_error integrity_error struct_error eof_error index_error : String → Error

-- `str(e)`; that of a KeyError is the repr of its key, here a key without quotes.
abbrev pub message : Error → String
message (value_error s) = s
message (type_error s) = s
message (key_error s) = "'" <> s <> "'"
message (attribute_error s) = s
message (overflow_error s) = s
message (runtime_error s) = s
message (connection_error s) = s
message (request_error s) = s
message (integrity_error s) = s
message (struct_error s) = s
message (eof_error s) = s
message (index_error s) = s

-- What a call does: it returns a value or raises.
pub data Result {ℓ} (Value : Type ℓ) : Type ℓ where
  ok : Value → Result Value
  err : Error → Result Value

-- A statement that raises skips what comes after it.
infixl 5 ◌>>=◌
abbrev pub ◌>>=◌ {ℓ ℓ'} : {A : Type ℓ} {B : Type ℓ'} → Result A → (A → Result B) → Result B
err raised >>= rest = err raised
ok value >>= rest = rest value

infixl 5 ◌>>◌
abbrev pub ◌>>◌ {ℓ ℓ'} : {A : Type ℓ} {B : Type ℓ'} → Result A → Result B → Result B
first >> rest = first >>= λ _. rest

pub Result-cases {ℓ} :
    {A : Type ℓ} (result : Result A)
    → ((value : A) × (result ≡ ok value)) ⊎ ((raised : Error) × (result ≡ err raised))
Result-cases (ok a) = inl (a, refl)
Result-cases (err e) = inr (e, refl)

-- What a chain that returns has gone through.
pub bind_ok {ℓ ℓ'} :
    {A : Type ℓ} {B : Type ℓ'} {last : B} (first : Result A) (rest : A → Result B)
    → (first >>= rest) ≡ ok last
    → (middle : A) × (first ≡ ok middle) × (rest middle ≡ ok last)
bind_ok (ok a) f h = (a, refl, h)
bind_ok (err e) f h = cc

pub ok-injective {ℓ} : {A : Type ℓ} {a b : A} → ok a ≡ ok b → a ≡ b
ok-injective h = cc
