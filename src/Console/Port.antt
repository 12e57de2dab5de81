-- ===== src/Console/Port.antt =====
-- modbus_console.py: what the console does to the port. Its `finally` closes the client once more when
-- a reconnect has closed it and then raised.
use bbjsensescada.Common.{◌≡◌, refl, List, [], ◌∷◌, ◌++◌, Option, none, some}
use bbjsensescada.Diagnose.Serial.{SerialClient, Event, opened, closed, printed}
use bbjsensescada.Diagnose.Held.{Prints}

-- The port goes from the first state to the last: a client is opened only while none is open, and
-- the client that is closed is the open one, or none is open.
abbrev pub Uses : Option SerialClient → List Event → Option SerialClient → Type 0
Uses s [] t = s ≡ t
Uses s (printed line ∷ es) t = Uses s es t
Uses none (opened c ∷ es) t = Uses (some c) es t
Uses (some held) (opened c ∷ es) t = ⊥
Uses none (closed c ∷ es) t = Uses none es t
Uses (some held) (closed c ∷ es) t = (held ≡ c) × Uses none es t

pub Uses-append :
    (es more : List Event) (s m t : Option SerialClient)
    → Uses s es m
    → Uses m more t
    → Uses s (es ++ more) t
Uses-append [] more s m t h k = rw h k
Uses-append (printed l ∷ es) more s m t h k = Uses-append es more s m t h k
Uses-append (opened c ∷ es) more none m t h k = Uses-append es more (some c) m t h k
Uses-append (opened c ∷ es) more (some b) m t h k = elim h [ ]
Uses-append (closed c ∷ es) more none m t h k = Uses-append es more none m t h k
Uses-append (closed c ∷ es) more (some b) m t h k = (h.0, Uses-append es more none m t h.1 k)

pub Prints-Uses : (es : List Event) (s : Option SerialClient) → Prints es → Uses s es s
Prints-Uses [] s h = refl
Prints-Uses (printed line ∷ es) s h = Prints-Uses es s h
Prints-Uses (opened c ∷ es) s h = elim h [ ]
Prints-Uses (closed c ∷ es) s h = elim h [ ]
