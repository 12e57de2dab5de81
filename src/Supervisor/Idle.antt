-- ===== src/Supervisor/Idle.antt =====
-- Components that did not start when `main` began.
use bbjsensescada.Common.{
  ◌≡◌, refl, ap, ◌∙◌, Bool, true, false, List, [], ◌∷◌, ◌++◌, Option, none, some, if◌then◌else◌, ℕ,
  arith, map,
}
use bbjsensescada.Supervisor.{
  Component, Phase, starting, waiting, checking, stopped, crashed, Manager, Answers,
  check_component, turn, stop_handler, Step, take_turn, stop_signal, run, rewound, loop_turn,
  turn_in, signal_in, phase_after, start_process,
}
use bbjsensescada.Python.{Error}
use bbjsensescada.Supervisor.Custody.{all_of}

abbrev has_process : Option ℕ → Bool
has_process none = false
has_process (some p) = true

-- Which of the components have a process, in their order.
abbrev pub with_process : Manager → List Bool
with_process g = map (λ (c : Component). has_process c.process) (all_of g)

abbrev pub is_starting : Phase → Bool
is_starting starting = true
is_starting _ = false

map_moved :
    (f : Component → Bool) (cs later : List Component) (c d : Component)
    → f d ≡ f c
    → map f ((cs ++ d ∷ []) ++ later) ≡ map f (cs ++ c ∷ later)
map_moved f [] later c d h = rw h refl
map_moved f (x ∷ cs) later c d h = ap (λ ys. f x ∷ ys) (map_moved f cs later c d h)

check_component-same :
    (A : Answers) (n : ℕ) (c : Component)
    → has_process (check_component A n c).component.process ≡ has_process c.process
unfolding check_component start_process
check_component-same A n c = ground arith

-- `main` has left its first loop, and the processes are with the same components as before.
record IsSame (flags : List Bool) (g : Manager) : Type 0 where
  past : is_starting g.phase ≡ false
  same : with_process g ≡ flags

crash_is_past :
    (f : Phase) (o : Option Error) → is_starting f ≡ false → is_starting (phase_after f o) ≡ false
crash_is_past f none h = h
crash_is_past f (some e) h = refl

check_turn-IsSame :
    (A : Answers) (flags : List Bool) (cs : List Component) (g : Manager)
    → g.ahead ≡ cs
    → IsSame flags g
    → IsSame flags (loop_turn (check_component A g.next_process) cs g)
check_turn-IsSame A flags [] g here k = record { past = refl; same = k.same }
check_turn-IsSame A flags (c ∷ later) g here k = record {
  past = crash_is_past g.phase (check_component A g.next_process c).raised k.past;
  same =
      map_moved (λ (d : Component). has_process d.process) g.passed later c
        (check_component A g.next_process c).component (check_component-same A g.next_process c)
      ∙ rw here at k.same;
}

woken-IsSame :
    (flags : List Bool) (on : Bool) (g : Manager)
    → IsSame flags g
    → IsSame flags (if on then rewound checking g else record g { phase = stopped })
woken-IsSame flags true g k = record { past = refl; same = k.same }
woken-IsSame flags false g k = record { past = refl; same = k.same }

turn_in-IsSame :
    (A : Answers) (flags : List Bool) (f : Phase) (g : Manager)
    → g.phase ≡ f
    → IsSame flags g
    → IsSame flags (turn_in f A g)
turn_in-IsSame A flags starting g e k = let bad = rw e at k.past in cc
turn_in-IsSame A flags checking g e k = check_turn-IsSame A flags g.ahead g refl k
turn_in-IsSame A flags waiting g e k = woken-IsSame flags g.running g k
turn_in-IsSame A flags stopped g e k = k
turn_in-IsSame A flags (crashed x) g e k = k

signal_in-IsSame :
    (flags : List Bool) (f : Phase) (g : Manager) → IsSame flags g → IsSame flags (signal_in f g)
signal_in-IsSame flags starting g k = record { past = k.past; same = k.same }
signal_in-IsSame flags waiting g k = record { past = k.past; same = k.same }
signal_in-IsSame flags checking g k = record { past = k.past; same = k.same }
signal_in-IsSame flags stopped g k = k
signal_in-IsSame flags (crashed e) g k = k

run-IsSame :
    (flags : List Bool) (xs : List Step) (g : Manager) → IsSame flags g → IsSame flags (run xs g)
unfolding turn stop_handler
run-IsSame flags [] g k = k
run-IsSame flags (take_turn A ∷ xs) g k =
    run-IsSame flags xs (turn A g) (turn_in-IsSame A flags g.phase g refl k)
run-IsSame flags (stop_signal ∷ xs) g k =
    run-IsSame flags xs (stop_handler g) (signal_in-IsSame flags g.phase g k)

-- Once `main` has left its first loop, the components that have a process are the same ones for ever:
-- one whose script was missing then is never started, however often the watchdog looks, and one that
-- has started is never given up.
pub run-with_process :
    (xs : List Step) (g : Manager)
    → is_starting g.phase ≡ false
    → with_process (run xs g) ≡ with_process g
run-with_process xs g past =
    (run-IsSame (with_process g) xs g (record { past = past; same = refl })).same
