-- ===== src/Supervisor/Custody.antt =====
-- The processes that the supervisor has started, and those that it holds.
use bbjsensescada.Common.{
  ℕ, ◌≡◌, refl, ◌∙◌, Bool, true, false, ◌||◌, List, [], ◌∷◌, ◌++◌, Option, none, some, ◌==◌, nat_eq,
  if◌then◌else◌, arith, Option-cases, inl, inr,
}
use bbjsensescada.Python.{Error}
use bbjsensescada.Supervisor.{
  Component, Event, started, exited, terminated, Phase, starting, waiting, checking, stopped,
  crashed, Manager, Answers, Visit, start_process, check_component, visited, turn, stop_handler,
  terminate_all, Step, take_turn, stop_signal, step, run, launch, rewound, loop_turn, turn_in,
  handled, signal_in, phase_after,
}

abbrev pub any {ℓ} : {A : Type ℓ} → (A → Bool) → List A → Bool
any p [] = false
any p (x ∷ xs) = p x || any p xs

pub any-append {ℓ} :
    {A : Type ℓ} (p : A → Bool) (xs ys : List A) → any p (xs ++ ys) ≡ (any p xs || any p ys)
any-append p [] ys = refl
any-append p (x ∷ xs) ys = ground (arith, any-append p xs ys)

abbrev pub is_started : ℕ → Event → Bool
is_started p (started q) = p == q
is_started p _ = false

abbrev pub is_exited : ℕ → Event → Bool
is_exited p (exited q) = p == q
is_exited p _ = false

abbrev pub is_terminated : ℕ → Event → Bool
is_terminated p (terminated q) = p == q
is_terminated p _ = false

abbrev pub is_process : ℕ → Option ℕ → Bool
is_process p none = false
is_process p (some q) = p == q

abbrev pub holds : ℕ → Component → Bool
holds p c = is_process p c.process

-- All components, in their order.
abbrev pub all_of : Manager → List Component
all_of g = g.passed ++ g.ahead

-- A started process is in a component's field `process`, or it has exited.
abbrev pub Custody : Manager → Type 0
Custody g =
    (p : ℕ)
    → any (is_started p) g.trace ≡ true
    → (any (holds p) (all_of g) || any (is_exited p) g.trace) ≡ true

-- A visit keeps hold of the processes that it starts or finds, or sees them exit.
abbrev Keeps : Component → Visit → Type 0
Keeps c v =
    (p : ℕ)
    → (any (is_started p) v.events || holds p c) ≡ true
    → (holds p v.component || any (is_exited p) v.events) ≡ true

start_process-Keeps :
    (A : Answers) (n : ℕ) (c : Component) → c.process ≡ none → Keeps c (start_process A n c)
unfolding start_process
start_process-Keeps A n c idle p h = ground arith

check_component-Keeps : (A : Answers) (n : ℕ) (c : Component) → Keeps c (check_component A n c)
unfolding check_component start_process
check_component-Keeps A n c p h = ground arith

-- Before its turn in the first loop, a component has no process.
abbrev Idle : Phase → List Component → Type 0
Idle starting [] = Unit {0}
Idle starting (c ∷ cs) = (c.process ≡ none) × Idle starting cs
Idle _ cs = Unit {0}

record IsKept (g : Manager) : Type 0 where
  custody : Custody g
  idle : Idle g.phase g.ahead

kept_by :
    (s t held held' hs hs' x y : Bool)
    → ((s || held) ≡ true → (held' || x) ≡ true)
    → (t ≡ true → ((hs || (held || hs')) || y) ≡ true)
    → (s || t) ≡ true
    → ((hs || (held' || false)) || hs' || (x || y)) ≡ true
kept_by s t held held' hs hs' x y keeps before h = ground arith

custody-split :
    (p : ℕ) (cs ds : List Component) (c d : Component) (es fs : List Event)
    → ((any (is_started p) es || holds p c) ≡ true → (holds p d || any (is_exited p) es) ≡ true)
    → (any (is_started p) fs ≡ true → (any (holds p) (cs ++ c ∷ ds) || any (is_exited p) fs) ≡ true)
    → any (is_started p) (es ++ fs) ≡ true
    → (any (holds p) ((cs ++ d ∷ []) ++ ds) || any (is_exited p) (es ++ fs)) ≡ true
custody-split p cs ds c d es fs keeps before h =
    let h' = rw any-append at h in
    let before' = rw any-append at before in
    rw (any-append, any-append, any-append)
      (kept_by (any (is_started p) es) (any (is_started p) fs) (holds p c) (holds p d)
        (any (holds p) cs) (any (holds p) ds) (any (is_exited p) es) (any (is_exited p) fs) keeps
        before' h')

visited-IsKept :
    (g : Manager) (c : Component) (later : List Component) (v : Visit)
    → g.ahead ≡ c ∷ later
    → Keeps c v
    → Idle (visited g later v).phase later
    → IsKept g
    → IsKept (visited g later v)
visited-IsKept g c later v here keeps idle k = record {
  custody = λ p.
      custody-split p g.passed later c v.component v.events g.trace (keeps p)
        (rw here at k.custody p);
  idle = idle;
}

rewound-IsKept : (f : Phase) (g : Manager) → Idle f (all_of g) → IsKept g → IsKept (rewound f g)
rewound-IsKept f g idle k = record { custody = k.custody; idle = idle }

Idle-starting :
    (o : Option Error) (c : Component) (later : List Component)
    → Idle starting (c ∷ later)
    → Idle (phase_after starting o) later
Idle-starting none c later h = h.1
Idle-starting (some e) c later h = tt

Idle-checking : (o : Option Error) (cs : List Component) → Idle (phase_after checking o) cs
Idle-checking none cs = tt
Idle-checking (some e) cs = tt

start_turn-IsKept :
    (A : Answers) (g : Manager) (cs : List Component)
    → g.phase ≡ starting
    → g.ahead ≡ cs
    → IsKept g
    → IsKept (loop_turn (start_process A g.next_process) cs g)
start_turn-IsKept A g [] e here k = rewound-IsKept waiting g tt k
start_turn-IsKept A g (c ∷ later) e here k =
    let idle : Idle starting (c ∷ later) = rw (e, here) at k.idle in
    visited-IsKept g c later _ here (start_process-Keeps A g.next_process c idle.0)
      (rw e (Idle-starting (start_process A g.next_process c).raised c later idle)) k

check_turn-IsKept :
    (A : Answers) (g : Manager) (cs : List Component)
    → g.phase ≡ checking
    → g.ahead ≡ cs
    → IsKept g
    → IsKept (loop_turn (check_component A g.next_process) cs g)
check_turn-IsKept A g [] e here k = rewound-IsKept waiting g tt k
check_turn-IsKept A g (c ∷ later) e here k =
    visited-IsKept g c later _ here (check_component-Keeps A g.next_process c)
      (rw e (Idle-checking (check_component A g.next_process c).raised later)) k

woken-IsKept :
    (on : Bool) (g : Manager)
    → IsKept g
    → IsKept (if on then rewound checking g else record g { phase = stopped })
woken-IsKept true g k = rewound-IsKept checking g tt k
woken-IsKept false g k = record { custody = k.custody; idle = tt }

turn_in-IsKept :
    (A : Answers) (f : Phase) (g : Manager) → g.phase ≡ f → IsKept g → IsKept (turn_in f A g)
turn_in-IsKept A starting g e k = start_turn-IsKept A g g.ahead e refl k
turn_in-IsKept A checking g e k = check_turn-IsKept A g g.ahead e refl k
turn_in-IsKept A waiting g e k = woken-IsKept g.running g k
turn_in-IsKept A stopped g e k = k
turn_in-IsKept A (crashed x) g e k = k

pub any-terminate_all :
    (q : Event → Bool) (cs : List Component) (es : List Event)
    → ((r : ℕ) → q (terminated r) ≡ false)
    → any q (terminate_all cs es) ≡ any q es
any-terminate_all q [] es h = refl
any-terminate_all q (c ∷ cs) es h = elim (Option-cases c.process) [
  | inl idle ↦ rw idle (any-terminate_all q cs es h)
  | inr (p, busy) ↦ rw busy (any-terminate_all q cs (terminated p ∷ es) h ∙ rw h refl)
]

handled-IsKept : (g : Manager) → IsKept g → IsKept (handled g)
handled-IsKept g k = record {
  custody = λ p.
      rw
        (
          any-terminate_all (is_started p) (all_of g) g.trace (λ r. refl),
          any-terminate_all (is_exited p) (all_of g) g.trace (λ r. refl),
        )
        (k.custody p);
  idle = k.idle;
}

signal_in-IsKept : (f : Phase) (g : Manager) → IsKept g → IsKept (signal_in f g)
signal_in-IsKept starting g k = handled-IsKept g k
signal_in-IsKept waiting g k = handled-IsKept g k
signal_in-IsKept checking g k = handled-IsKept g k
signal_in-IsKept stopped g k = k
signal_in-IsKept (crashed e) g k = k

step-IsKept : (x : Step) (g : Manager) → IsKept g → IsKept (step x g)
unfolding turn stop_handler
step-IsKept (take_turn A) g k = turn_in-IsKept A g.phase g refl k
step-IsKept stop_signal g k = signal_in-IsKept g.phase g k

run-IsKept : (xs : List Step) (g : Manager) → IsKept g → IsKept (run xs g)
run-IsKept [] g k = k
run-IsKept (x ∷ xs) g k = run-IsKept xs (step x g) (step-IsKept x g k)

launch-IsKept : IsKept launch
launch-IsKept = record { custody = λ p h. cc; idle = (refl, (refl, tt)) }

-- Whatever the operating system answers and whenever stop signals come, each process that the
-- supervisor has started is held by one of its components or has been seen to exit.
pub run-Custody :
    (xs : List Step) (p : ℕ)
    → any (is_started p) (run xs launch).trace ≡ true
    → (any (holds p) (all_of (run xs launch)) || any (is_exited p) (run xs launch).trace) ≡ true
run-Custody xs p = (run-IsKept xs launch launch-IsKept).custody p
