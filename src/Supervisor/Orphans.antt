-- ===== src/Supervisor/Orphans.antt =====
-- A stop signal in the middle of a check.
use bbjsensescada.Common.{
  ℕ, ◌≡◌, refl, Bool, true, false, ◌||◌, List, [], ◌∷◌, ◌++◌, none, some, ◌==◌, ==_iff, nat_eq,
  if◌then◌else◌, arith, map,
}
use bbjsensescada.Common.Int.{ℤ}
use bbjsensescada.Supervisor.{
  Component, started, exited, Phase, starting, waiting, checking, stopped, crashed, Manager,
  Answers, Visit, start_process, check_component, visited, turn, stop_handler, Step, take_turn, run,
  launch, rewound, loop_turn, turn_in, handled,
}
use bbjsensescada.Supervisor.Custody.{any, any-append, is_started, is_terminated, holds, all_of}
use bbjsensescada.Supervisor.Fresh.{
  Fresh, Takes, start_process-Takes, check_component-Takes, handled-Fresh, run-Fresh,
}
use bbjsensescada.Supervisor.Shutdown.{any-terminated}

-- A process that was started and that nothing has told to stop. Turns alone do not change that.
abbrev pub IsOrphan : ℕ → Manager → Type 0
IsOrphan p g = (any (is_started p) g.trace ≡ true) × (any (is_terminated p) g.trace ≡ false)

or_kept : (a b : Bool) → b ≡ true → (a || b) ≡ true
or_kept a b h = ground arith

visited-IsOrphan :
    (p : ℕ) (g : Manager) (later : List Component) (v : Visit)
    → any (is_terminated p) v.events ≡ false
    → IsOrphan p g
    → IsOrphan p (visited g later v)
visited-IsOrphan p g later v none_told (s, t) = (
  rw any-append (or_kept (any (is_started p) v.events) (any (is_started p) g.trace) s),
  rw (any-append, none_told) t,
)

loop_turn-IsOrphan :
    (p n : ℕ) (visit : Component → Visit) (cs : List Component) (g : Manager)
    → ((c : Component) → Takes n c (visit c))
    → IsOrphan p g
    → IsOrphan p (loop_turn visit cs g)
loop_turn-IsOrphan p n visit [] g takes u = u
loop_turn-IsOrphan p n visit (c ∷ later) g takes u =
    visited-IsOrphan p g later (visit c) (takes c p).0 u

woken-IsOrphan :
    (p : ℕ) (on : Bool) (g : Manager)
    → IsOrphan p g
    → IsOrphan p (if on then rewound checking g else record g { phase = stopped })
woken-IsOrphan p true g u = u
woken-IsOrphan p false g u = u

turn_in-IsOrphan :
    (p : ℕ) (A : Answers) (f : Phase) (g : Manager) → IsOrphan p g → IsOrphan p (turn_in f A g)
turn_in-IsOrphan p A starting g u =
    loop_turn-IsOrphan p g.next_process _ g.ahead g (start_process-Takes A g.next_process) u
turn_in-IsOrphan p A checking g u =
    loop_turn-IsOrphan p g.next_process _ g.ahead g (check_component-Takes A g.next_process) u
turn_in-IsOrphan p A waiting g u = woken-IsOrphan p g.running g u
turn_in-IsOrphan p A stopped g u = u
turn_in-IsOrphan p A (crashed e) g u = u

turns-IsOrphan :
    (p : ℕ) (As : List Answers) (g : Manager) → IsOrphan p g → IsOrphan p (run (map take_turn As) g)
unfolding turn
turns-IsOrphan p [] g u = u
turns-IsOrphan p (A ∷ As) g u = turns-IsOrphan p As (turn A g) (turn_in-IsOrphan p A g.phase g u)

restart-events :
    (A : Answers) (n p : ℕ) (code : ℤ) (c : Component)
    → c.process ≡ some p
    → A.exit_code ≡ some code
    → A.script_exists ≡ true
    → A.popen_error ≡ none
    → (check_component A n c).events ≡ started n ∷ exited p ∷ []
unfolding check_component start_process
restart-events A n p code c busy gone here made = rw (busy, gone, here, made) refl

restart-IsOrphan :
    (g : Manager) (c : Component) (later : List Component) (v : Visit) (n p : ℕ)
    → v.events ≡ started n ∷ exited p ∷ []
    → any (is_terminated n) g.trace ≡ false
    → IsOrphan n (visited g later v)
restart-IsOrphan g c later v n p events fresh =
    let same : (n == n) ≡ true = (==_iff n n).1 refl in rw (events, same) (refl, fresh)

stop_handler-checking : (g : Manager) → g.phase ≡ checking → stop_handler g ≡ handled g
unfolding stop_handler
stop_handler-checking g on = rw on refl

turn-checking :
    (A : Answers) (g : Manager) (c : Component) (later : List Component)
    → g.phase ≡ checking
    → g.ahead ≡ c ∷ later
    → turn A g ≡ visited g later (check_component A g.next_process c)
unfolding turn
turn-checking A g c later on here = rw (on, here) refl

any-middle :
    (p : ℕ) (cs later : List Component) (c : Component)
    → c.process ≡ some p
    → any (holds p) (cs ++ c ∷ later) ≡ true
any-middle p [] later c busy =
    let same : (p == p) ≡ true = (==_iff p p).1 refl in rw (busy, same) refl
any-middle p (d ∷ cs) later c busy =
    or_kept (holds p d) (any (holds p) (cs ++ c ∷ later)) (any-middle p cs later c busy)

or_given : (a b : Bool) → a ≡ true → (a || b) ≡ true
or_given a b h = ground arith

or_none : (a b : Bool) → (a || b) ≡ false → b ≡ false
or_none a b h = ground arith

orphaned :
    (g : Manager) (A : Answers) (As : List Answers) (c : Component) (later : List Component) (p : ℕ)
    (code : ℤ)
    → Fresh g
    → g.phase ≡ checking
    → g.ahead ≡ c ∷ later
    → c.process ≡ some p
    → A.exit_code ≡ some code
    → A.script_exists ≡ true
    → A.popen_error ≡ none
    → (any (is_terminated p) (stop_handler g).trace ≡ true)
      × IsOrphan g.next_process (run (map take_turn As) (turn A (stop_handler g)))
orphaned g A As c later p code fresh on here busy gone script made =
    let n = g.next_process in
    let held : any (holds p) (all_of g) ≡ true = rw here (any-middle p g.passed later c busy) in
    let untold = or_none _ _ (handled-Fresh g fresh n (omega arith)) in
    let events = restart-events A n p code c busy gone script made in
    rw (stop_handler-checking g on, turn-checking A (handled g) c later on here)
      (
        rw (any-terminated p (all_of g) g.trace)
            (or_given (any (holds p) (all_of g)) (any (is_terminated p) g.trace) held),
        turns-IsOrphan n As _
            (restart-IsOrphan (handled g) c later (check_component A n c) n p events untold),
      )

-- If a stop signal comes while a check still has a component ahead whose process runs, then that
-- process is told to stop, and once its exit code is there the check starts the component anew; as
-- long as no second signal comes, nothing that `main` does tells the new process to stop.
pub run-orphans :
    (before : List Step) (A : Answers) (As : List Answers) (c : Component) (later : List Component)
    (p : ℕ) (code : ℤ)
    → (run before launch).phase ≡ checking
    → (run before launch).ahead ≡ c ∷ later
    → c.process ≡ some p
    → A.exit_code ≡ some code
    → A.script_exists ≡ true
    → A.popen_error ≡ none
    → let g = run before launch in
      (any (is_terminated p) (stop_handler g).trace ≡ true)
      × IsOrphan g.next_process (run (map take_turn As) (turn A (stop_handler g)))
run-orphans before A As c later p code on here busy gone script made =
    orphaned (run before launch) A As c later p code (run-Fresh before launch (λ q h. refl)) on here
      busy gone script made
