-- ===== src/Commands/Effects.antt =====
-- What a session sends: its writes and its acknowledgements.
use mathlib.Core.List.{append-nil}
use bbjsensescada.Common.{
  ℕ, ◌≡◌, ◌≢◌, refl, ap, ◌∙◌, Bool, true, false, List, [], ◌∷◌, ◌++◌, String, string_eq,
}
use bbjsensescada.Common.Int.{ℤ}
use bbjsensescada.Python.{Error, Result, ok, err, ◌>>=◌}
use bbjsensescada.Python.Value.{Value}
use bbjsensescada.Modbus.{Settings, Client, create_modbus_client, is_rtu}
use bbjsensescada.Commands.Defs.{
  Write, Response, accepted, refused, Driver, Event, wrote, acked, Session, write_command_value,
  write_of, talk, trace_write, checked, then_write, session_with, session_on, on_bus,
}

-- The statuses that are acknowledged, and the writes that are sent.
abbrev pub acks : List Event → List String
acks [] = []
acks (acked id status error ∷ es) = status ∷ acks es
acks (_ ∷ es) = acks es

abbrev pub writes : List Event → List Write
writes [] = []
writes (wrote w ∷ es) = w ∷ writes es
writes (_ ∷ es) = writes es

pub acks-append : (es fs : List Event) → acks (es ++ fs) ≡ acks es ++ acks fs
acks-append [] fs = refl
acks-append (acked id status error ∷ es) fs = ap (λ r. status ∷ r) (acks-append es fs)
acks-append (_ ∷ es) fs = acks-append es fs

pub writes-append : (es fs : List Event) → writes (es ++ fs) ≡ writes es ++ writes fs
writes-append [] fs = refl
writes-append (wrote w ∷ es) fs = ap (λ r. w ∷ r) (writes-append es fs)
writes-append (_ ∷ es) fs = writes-append es fs

pub ruleset of_events = (acks-append, writes-append)

-- How a block of a session's events ended: with no write, or with one that the device accepted or
-- did not accept.
pub data Ended (D : Driver) (es : List Event) : Result (Unit {0}) → Type 0 where
  nothing : (e : Error) → acks es ≡ [] → writes es ≡ [] → Ended D es (err e)
  rejected :
      (e : Error) (c : Client) (w : Write)
      → acks es ≡ []
      → writes es ≡ w ∷ []
      → D.write c w ≢ ok accepted
      → Ended D es (err e)
  done :
      (c : Client) (w : Write)
      → acks es ≡ []
      → writes es ≡ w ∷ []
      → D.write c w ≡ ok accepted
      → Ended D es (ok tt)

write-Ended :
    (D : Driver) (c : Client) (w : Write) (r : Result Response)
    → D.write c w ≡ r
    → Ended D (wrote w ∷ []) (r >>= checked)
write-Ended D c w (ok accepted) h = done c w refl refl h
write-Ended D c w (ok (refused s)) h = rejected _ c w refl refl (λ e. cc (h, e))
write-Ended D c w (err e) h = rejected e c w refl refl (λ f. cc (h, f))

trace_write-Ended :
    (D : Driver) (c : Client) (r : Result Write) → let t = trace_write D c r in Ended D t.0 t.1
trace_write-Ended D c (ok w) = write-Ended D c w (D.write c w) refl
trace_write-Ended D c (err e) = nothing e refl refl

then_write-Ended :
    (D : Driver) (c : Client) (tag : Value) (t : String) (v : Value) (r : Result ℤ)
    → let x = then_write D c tag t v r in Ended D x.0 x.1
unfolding write_command_value
then_write-Ended D c tag t v (ok n) = trace_write-Ended D c (write_of tag t v n)
then_write-Ended D c tag t v (err e) = nothing e refl refl

talk-Ended :
    (D : Driver) (name : String) (c : Client) (connection tag : Value) (t : String) (v : Value)
    → let x = talk D name c connection tag t v in Ended D x.0 x.1
unfolding talk
talk-Ended D name c connection tag t v = then_write-Ended D c tag t v _

-- Events around a block that are neither writes nor acknowledgements.
around :
    (D : Driver) (es fs : List Event) (r : Result (Unit {0}))
    → acks fs ≡ acks es
    → writes fs ≡ writes es
    → Ended D es r
    → Ended D fs r
around D es fs _ a w (nothing e x y) = nothing e (a ∙ x) (w ∙ y)
around D es fs _ a w (rejected e c k x y z) = rejected e c k (a ∙ x) (w ∙ y) z
around D es fs _ a w (done c k x y z) = done c k (a ∙ x) (w ∙ y) z

on_bus-Ended :
    (D : Driver) (b : Bool) (s : Session)
    → Ended D s.events s.outcome
    → Ended D (on_bus b s).events (on_bus b s).outcome
on_bus-Ended D false s h = h
on_bus-Ended D true s h =
    around D s.events _ s.outcome (acks-append s.events _ ∙ append-nil _)
      (writes-append s.events _ ∙ append-nil _) h

session_with-Ended :
    (D : Driver) (name : String) (connection tag : Value) (t : String) (v : Value)
    (r : Result Client)
    → let s = session_with D name connection tag t v r in Ended D s.events s.outcome
session_with-Ended D name connection tag t v (ok c) =
    around D _ _ _ refl refl (talk-Ended D name c connection tag t v)
session_with-Ended D name connection tag t v (err e) = nothing e refl refl

pub session_on-Ended :
    (S : Settings) (D : Driver) (name : String) (tag : Value) (t : String) (v : Value)
    (r : Result (Value × List ℕ))
    → let s = session_on S D name tag t v r in Ended D s.events s.outcome
session_on-Ended S D name tag t v (ok (connection, c)) =
    on_bus-Ended D (is_rtu c) _
      (session_with-Ended D name connection tag t v (create_modbus_client S c connection))
session_on-Ended S D name tag t v (err e) = nothing e refl refl
