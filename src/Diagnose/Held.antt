-- ===== src/Diagnose/Held.antt =====
-- diagnose_modbus.py: which port the tool holds while it runs.
use bbjsensescada.Common.{
  ◌≡◌, refl, List, [], ◌∷◌, ◌++◌, Option, none, some, Bool, true, false, if◌then◌else◌, string_eq,
}
use bbjsensescada.Python.{Result, ok, err}
use bbjsensescada.Diagnose.Serial.{
  SerialClient, Line, Event, opened, closed, printed, Run, did, events, after, ◌>>=◌, lift, print,
}
use bbjsensescada.Diagnose.Scan.{print_all}

-- The port goes from the first state to the last: a client is opened only while none is open, and
-- only the client that is open is closed.
abbrev pub Owns : Option SerialClient → List Event → Option SerialClient → Type 0
Owns s [] t = s ≡ t
Owns s (printed line ∷ es) t = Owns s es t
Owns none (opened c ∷ es) t = Owns (some c) es t
Owns (some held) (opened c ∷ es) t = ⊥
Owns none (closed c ∷ es) t = ⊥
Owns (some held) (closed c ∷ es) t = (held ≡ c) × Owns none es t

pub Owns-append :
    (es more : List Event) (s m t : Option SerialClient)
    → Owns s es m
    → Owns m more t
    → Owns s (es ++ more) t
Owns-append [] more s m t h k = rw h k
Owns-append (printed l ∷ es) more s m t h k = Owns-append es more s m t h k
Owns-append (opened c ∷ es) more none m t h k = Owns-append es more (some c) m t h k
Owns-append (opened c ∷ es) more (some b) m t h k = elim h [ ]
Owns-append (closed c ∷ es) more none m t h k = elim h [ ]
Owns-append (closed c ∷ es) more (some b) m t h k = (h.0, Owns-append es more none m t h.1 k)

-- A part that starts in state s: if it returns, the port is in state t; if it raises, in some state.
unfoldable pub Moves {ℓ} : {A : Type ℓ} → Option SerialClient → Run A → Option SerialClient → Type 0
Moves s (did es (ok a)) t = Owns s es t
Moves s (did es (err e)) t = (m : Option SerialClient) × Owns s es m

events-after {ℓ} : {A : Type ℓ} (es : List Event) (r : Run A) → events (after es r) ≡ es ++ events r
events-after es (did more result) = refl

-- Events that are lines only, and so leave the port alone.
abbrev pub Prints : List Event → Type 0
Prints [] = Unit {0}
Prints (printed line ∷ es) = Prints es
Prints _ = ⊥

pub Prints-append : (es more : List Event) → Prints es → Prints more → Prints (es ++ more)
Prints-append [] more h k = k
Prints-append (printed line ∷ es) more h k = Prints-append es more h k
Prints-append (opened c ∷ es) more h k = elim h [ ]
Prints-append (closed c ∷ es) more h k = elim h [ ]

pub Prints-Owns : (es : List Event) (s : Option SerialClient) → Prints es → Owns s es s
Prints-Owns [] s h = refl
Prints-Owns (printed line ∷ es) s h = Prints-Owns es s h
Prints-Owns (opened c ∷ es) s h = elim h [ ]
Prints-Owns (closed c ∷ es) s h = elim h [ ]

-- A part that leaves the port alone.
unfoldable pub IsQuiet {ℓ} : {A : Type ℓ} → Run A → Type 0
IsQuiet r = Prints (events r)

module _ {ℓ} {A : Type ℓ} where
  after-Moves :
      (s m t : Option SerialClient) (es : List Event) (next : Run A)
      → Owns s es m
      → Moves m next t
      → Moves s (after es next) t
  unfolding Moves
  after-Moves s m t es (did more (ok b)) h q = Owns-append es more s m t h q
  after-Moves s m t es (did more (err e)) h q = (q.0, Owns-append es more s m q.0 h q.1)

  pub Moves-IsQuiet : (s : Option SerialClient) (r : Run A) → IsQuiet r → Moves s r s
  unfolding Moves IsQuiet
  Moves-IsQuiet s (did es (ok a)) h = Prints-Owns es s h
  Moves-IsQuiet s (did es (err e)) h = (s, Prints-Owns es s h)

  pub if-Moves :
      (s t : Option SerialClient) (b : Bool) (r q : Run A)
      → Moves s r t
      → Moves s q t
      → Moves s (if b then r else q) t
  if-Moves s t true r q h k = h
  if-Moves s t false r q h k = k

module _ {ℓ ℓ'} {A : Type ℓ} {B : Type ℓ'} where
  pub >>=-Moves :
      (s m t : Option SerialClient) (r : Run A) (f : A → Run B)
      → Moves s r m
      → ((a : A) → Moves m (f a) t)
      → Moves s (r >>= f) t
  unfolding ◌>>=◌ Moves
  >>=-Moves s m t (did es (err e)) f h k = h
  >>=-Moves s m t (did es (ok a)) f h k = after-Moves s m t es (f a) h (k a)

  -- A value that is computed, then a part.
  pub lift->>= :
      (s t : Option SerialClient) (result : Result A) (f : A → Run B)
      → ((a : A) → Moves s (f a) t)
      → Moves s (lift result >>= f) t
  unfolding Moves
  lift->>= s t (ok a) f k = >>=-Moves s s t (lift (ok a)) f refl k
  lift->>= s t (err e) f k = >>=-Moves s s t (lift (err e)) f (s, refl) k

  pub >>=-IsQuiet :
      (r : Run A) (f : A → Run B) → IsQuiet r → ((a : A) → IsQuiet (f a)) → IsQuiet (r >>= f)
  unfolding ◌>>=◌ IsQuiet
  >>=-IsQuiet (did es (err e)) f h k = h
  >>=-IsQuiet (did es (ok a)) f h k =
      rw (events-after es (f a)) (Prints-append es (events (f a)) h (k a))

pub lift-IsQuiet {ℓ} : {A : Type ℓ} (result : Result A) → IsQuiet (lift result)
unfolding IsQuiet
lift-IsQuiet result = tt

pub print-IsQuiet : (line : Line) → IsQuiet (print line)
unfolding IsQuiet
print-IsQuiet line = tt

pub print_all-IsQuiet : (lines : List Line) → IsQuiet (print_all lines)
unfolding print_all
print_all-IsQuiet [] = lift-IsQuiet (ok tt)
print_all-IsQuiet (line ∷ lines) =
    >>=-IsQuiet (print line) (λ _. print_all lines) (print-IsQuiet line)
      (λ _. print_all-IsQuiet lines)
