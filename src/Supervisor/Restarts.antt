-- ===== src/Supervisor/Restarts.antt =====
-- The watchdog's count of restarts, and the components that it leaves alone.
use bbjsensescada.Common.{
  ℕ, suc, ◌+◌, ◌≡◌, refl, sym, ◌∙◌, Bool, true, false, List, [], ◌∷◌, ◌++◌, if◌then◌else◌, arith,
  Option-cases, inl, inr,
}
use bbjsensescada.Supervisor.{
  Component, Event, started, exited, terminated, Phase, starting, waiting, checking, stopped,
  crashed, Manager, Answers, Visit, start_process, check_component, visited, turn, stop_handler,
  terminate_all, Step, take_turn, stop_signal, step, run, launch, rewound, loop_turn, turn_in,
  handled, signal_in,
}
use bbjsensescada.Supervisor.Custody.{all_of}

abbrev exits : List Event → ℕ
exits [] = 0
exits (exited p ∷ es) = suc (exits es)
exits (started p ∷ es) = exits es
exits (terminated p ∷ es) = exits es

-- The sum of `restart_count`.
abbrev restarts : List Component → ℕ
restarts [] = 0
restarts (c ∷ cs) = c.restart_count + restarts cs

abbrev pub IsCounted : Manager → Type 0
IsCounted g = restarts (all_of g) ≡ exits g.trace

exits-append : (es fs : List Event) → exits (es ++ fs) ≡ exits es + exits fs
exits-append [] fs = omega arith
exits-append (exited p ∷ es) fs = omega (arith, exits-append es fs)
exits-append (started p ∷ es) fs = exits-append es fs
exits-append (terminated p ∷ es) fs = exits-append es fs

restarts-append : (cs ds : List Component) → restarts (cs ++ ds) ≡ restarts cs + restarts ds
restarts-append [] ds = omega arith
restarts-append (c ∷ cs) ds = omega (arith, restarts-append cs ds)

exits-terminate_all :
    (cs : List Component) (es : List Event) → exits (terminate_all cs es) ≡ exits es
exits-terminate_all [] es = refl
exits-terminate_all (c ∷ cs) es = elim (Option-cases c.process) [
  | inl idle ↦ rw idle (exits-terminate_all cs es)
  | inr (p, busy) ↦ rw busy (exits-terminate_all cs (terminated p ∷ es))
]

abbrev Counts : Component → Visit → Type 0
Counts c v = v.component.restart_count ≡ c.restart_count + exits v.events

start_process-Counts : (A : Answers) (n : ℕ) (c : Component) → Counts c (start_process A n c)
unfolding start_process
start_process-Counts A n c = ground arith

check_component-Counts : (A : Answers) (n : ℕ) (c : Component) → Counts c (check_component A n c)
unfolding check_component start_process
check_component-Counts A n c = ground arith

visited-IsCounted :
    (g : Manager) (c : Component) (later : List Component) (v : Visit)
    → g.ahead ≡ c ∷ later
    → Counts c v
    → IsCounted g
    → IsCounted (visited g later v)
visited-IsCounted g c later v here counts k =
    let before : restarts (g.passed ++ c ∷ later) ≡ exits g.trace = rw here at k in
    omega (
      arith,
      restarts-append g.passed (c ∷ later),
      before,
      counts,
      exits-append v.events g.trace,
      restarts-append (g.passed ++ v.component ∷ []) later,
      restarts-append g.passed (v.component ∷ []),
    )

loop_turn-IsCounted :
    (visit : Component → Visit) (cs : List Component) (g : Manager)
    → g.ahead ≡ cs
    → ((c : Component) → Counts c (visit c))
    → IsCounted g
    → IsCounted (loop_turn visit cs g)
loop_turn-IsCounted visit [] g here counts k = k
loop_turn-IsCounted visit (c ∷ later) g here counts k =
    visited-IsCounted g c later (visit c) here (counts c) k

woken-IsCounted :
    (on : Bool) (g : Manager)
    → IsCounted g
    → IsCounted (if on then rewound checking g else record g { phase = stopped })
woken-IsCounted true g k = k
woken-IsCounted false g k = k

turn_in-IsCounted :
    (A : Answers) (f : Phase) (g : Manager) → IsCounted g → IsCounted (turn_in f A g)
turn_in-IsCounted A starting g k =
    loop_turn-IsCounted _ g.ahead g refl (start_process-Counts A g.next_process) k
turn_in-IsCounted A checking g k =
    loop_turn-IsCounted _ g.ahead g refl (check_component-Counts A g.next_process) k
turn_in-IsCounted A waiting g k = woken-IsCounted g.running g k
turn_in-IsCounted A stopped g k = k
turn_in-IsCounted A (crashed e) g k = k

handled-IsCounted : (g : Manager) → IsCounted g → IsCounted (handled g)
handled-IsCounted g k = k ∙ sym (exits-terminate_all (all_of g) g.trace)

signal_in-IsCounted : (f : Phase) (g : Manager) → IsCounted g → IsCounted (signal_in f g)
signal_in-IsCounted starting g k = handled-IsCounted g k
signal_in-IsCounted waiting g k = handled-IsCounted g k
signal_in-IsCounted checking g k = handled-IsCounted g k
signal_in-IsCounted stopped g k = k
signal_in-IsCounted (crashed e) g k = k

step-IsCounted : (x : Step) (g : Manager) → IsCounted g → IsCounted (step x g)
unfolding turn stop_handler
step-IsCounted (take_turn A) g k = turn_in-IsCounted A g.phase g k
step-IsCounted stop_signal g k = signal_in-IsCounted g.phase g k

run_from-IsCounted : (xs : List Step) (g : Manager) → IsCounted g → IsCounted (run xs g)
run_from-IsCounted [] g k = k
run_from-IsCounted (x ∷ xs) g k = run_from-IsCounted xs (step x g) (step-IsCounted x g k)

-- In every run, the restart counts of the components add up to the number of exit codes that the
-- watchdog has seen, also where the script is missing or the new process cannot be made.
pub run-IsCounted : (xs : List Step) → IsCounted (run xs launch)
run-IsCounted xs = run_from-IsCounted xs launch refl
