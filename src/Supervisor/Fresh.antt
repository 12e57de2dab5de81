-- ===== src/Supervisor/Fresh.antt =====
-- Handles that are still to be given out.
use bbjsensescada.Common.{
  ℕ, suc, ◌≤◌, ◌≡◌, refl, Bool, true, false, ◌||◌, List, [], ◌∷◌, ◌==◌, ==_iff, nat_eq,
  if◌then◌else◌, arith, Bool-cases, inl, inr,
}
use bbjsensescada.Supervisor.{
  Component, Phase, starting, waiting, checking, stopped, crashed, Manager, Answers, Visit,
  start_process, check_component, visited, turn, stop_handler, Step, take_turn, stop_signal, run,
  rewound, loop_turn, turn_in, handled, signal_in,
}
use bbjsensescada.Supervisor.Custody.{any, any-append, is_terminated, holds, all_of}
use bbjsensescada.Supervisor.Shutdown.{any-terminated}

-- Handles from `next_process` on are in no component and were not told to stop.
abbrev pub Fresh : Manager → Type 0
Fresh g =
    (p : ℕ)
    → g.next_process ≤ p
    → (any (holds p) (all_of g) || any (is_terminated p) g.trace) ≡ false

-- A visit with the handle n takes only n and what the component had.
abbrev pub Takes : ℕ → Component → Visit → Type 0
Takes n c v =
    (p : ℕ)
    → (any (is_terminated p) v.events ≡ false)
      × (suc n ≤ p → holds p c ≡ false → holds p v.component ≡ false)

later_differs : (n p : ℕ) → suc n ≤ p → (p == n) ≡ false
later_differs n p h = elim (Bool-cases (p == n)) [
  | inl same ↦ let e = (==_iff p n).0 same in grind arith
  | inr other ↦ other
]

pub start_process-Takes : (A : Answers) (n : ℕ) (c : Component) → Takes n c (start_process A n c)
unfolding start_process
start_process-Takes A n c p = (ground arith, λ h k. ground (arith, later_differs n p h))

pub check_component-Takes :
    (A : Answers) (n : ℕ) (c : Component) → Takes n c (check_component A n c)
unfolding check_component start_process
check_component-Takes A n c p = (ground arith, λ h k. ground (arith, later_differs n p h))

fresh_by :
    (x y : Bool) (hs held held' hs' : Bool)
    → x ≡ false
    → (held ≡ false → held' ≡ false)
    → ((hs || (held || hs')) || y) ≡ false
    → (((hs || (held' || false)) || hs') || (x || y)) ≡ false
fresh_by x y hs held held' hs' a b h = ground arith

visited-Fresh :
    (g : Manager) (c : Component) (later : List Component) (v : Visit)
    → g.ahead ≡ c ∷ later
    → Takes g.next_process c v
    → Fresh g
    → Fresh (visited g later v)
visited-Fresh g c later v here takes fresh p h =
    let before = fresh p (omega arith) in
    let before' = rw here at before in
    let before'' = rw any-append at before' in
    rw (any-append, any-append, any-append)
      (fresh_by (any (is_terminated p) v.events) (any (is_terminated p) g.trace)
        (any (holds p) g.passed) (holds p c) (holds p v.component) (any (holds p) later) (takes p).0
        ((takes p).1 h) before'')

loop_turn-Fresh :
    (visit : Component → Visit) (cs : List Component) (g : Manager)
    → g.ahead ≡ cs
    → ((c : Component) → Takes g.next_process c (visit c))
    → Fresh g
    → Fresh (loop_turn visit cs g)
loop_turn-Fresh visit [] g here takes fresh = fresh
loop_turn-Fresh visit (c ∷ later) g here takes fresh =
    visited-Fresh g c later (visit c) here (takes c) fresh

woken-Fresh :
    (on : Bool) (g : Manager)
    → Fresh g
    → Fresh (if on then rewound checking g else record g { phase = stopped })
woken-Fresh true g fresh = fresh
woken-Fresh false g fresh = fresh

turn_in-Fresh : (A : Answers) (f : Phase) (g : Manager) → Fresh g → Fresh (turn_in f A g)
turn_in-Fresh A starting g fresh =
    loop_turn-Fresh _ g.ahead g refl (start_process-Takes A g.next_process) fresh
turn_in-Fresh A checking g fresh =
    loop_turn-Fresh _ g.ahead g refl (check_component-Takes A g.next_process) fresh
turn_in-Fresh A waiting g fresh = woken-Fresh g.running g fresh
turn_in-Fresh A stopped g fresh = fresh
turn_in-Fresh A (crashed e) g fresh = fresh

or_again : (a b : Bool) → (a || b) ≡ false → (a || (a || b)) ≡ false
or_again a b h = ground arith

pub handled-Fresh : (g : Manager) → Fresh g → Fresh (handled g)
handled-Fresh g fresh p h =
    rw (any-terminated p (all_of g) g.trace)
      (or_again (any (holds p) (all_of g)) (any (is_terminated p) g.trace) (fresh p h))

signal_in-Fresh : (f : Phase) (g : Manager) → Fresh g → Fresh (signal_in f g)
signal_in-Fresh starting g fresh = handled-Fresh g fresh
signal_in-Fresh waiting g fresh = handled-Fresh g fresh
signal_in-Fresh checking g fresh = handled-Fresh g fresh
signal_in-Fresh stopped g fresh = fresh
signal_in-Fresh (crashed e) g fresh = fresh

pub run-Fresh : (xs : List Step) (g : Manager) → Fresh g → Fresh (run xs g)
unfolding turn stop_handler
run-Fresh [] g fresh = fresh
run-Fresh (take_turn A ∷ xs) g fresh = run-Fresh xs (turn A g) (turn_in-Fresh A g.phase g fresh)
run-Fresh (stop_signal ∷ xs) g fresh =
    run-Fresh xs (stop_handler g) (signal_in-Fresh g.phase g fresh)
