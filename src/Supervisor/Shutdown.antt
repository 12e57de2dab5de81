-- ===== src/Supervisor/Shutdown.antt =====
-- What a stop signal achieves, by the place in `main` at which it comes.
use bbjsensescada.Common.{
  ℕ, ◌≡◌, refl, ap, ◌∙◌, Bool, true, false, ◌||◌, List, [], ◌∷◌, ◌==◌, nat_eq, arith, Option-cases,
  inl, inr,
}
use bbjsensescada.Supervisor.{
  Component, Event, terminated, Phase, starting, waiting, checking, stopped, crashed, Manager,
  Answers, turn, stop_handler, terminate_all, Step, take_turn, stop_signal, run, launch, turn_in,
  handled, signal_in,
}
use bbjsensescada.Supervisor.Custody.{
  any, is_started, is_exited, is_terminated, holds, all_of, any-terminate_all, run-Custody,
}

abbrev is_asleep : Phase → Bool
is_asleep waiting = true
is_asleep stopped = true
is_asleep _ = false

-- Every process that was started has been told to stop or has exited.
abbrev Accounted : Manager → Type 0
Accounted g =
    (p : ℕ)
    → any (is_started p) g.trace ≡ true
    → (any (is_terminated p) g.trace || any (is_exited p) g.trace) ≡ true

record IsOver (g : Manager) : Type 0 where
  off : g.running ≡ false
  asleep : is_asleep g.phase ≡ true
  accounted : Accounted g

or_swap : (a b c : Bool) → (a || (b || c)) ≡ ((b || a) || c)
or_swap a b c = ground arith

add_right : (a b c : Bool) → (a || c) ≡ true → ((a || b) || c) ≡ true
add_right a b c h = ground arith

add_left : (a b c : Bool) → (b || c) ≡ true → ((a || b) || c) ≡ true
add_left a b c h = ground arith

pub any-terminated :
    (p : ℕ) (cs : List Component) (es : List Event)
    → any (is_terminated p) (terminate_all cs es) ≡ (any (holds p) cs || any (is_terminated p) es)
any-terminated p [] es = refl
any-terminated p (c ∷ cs) es = elim (Option-cases c.process) [
  | inl idle ↦ rw idle (any-terminated p cs es)
  | inr (q, busy) ↦ rw busy (
      any-terminated p cs (terminated q ∷ es)
      ∙ or_swap (any (holds p) cs) (p == q) (any (is_terminated p) es))
]

handled-Accounted : (xs : List Step) → Accounted (handled (run xs launch))
handled-Accounted xs p =
    let g = run xs launch in
    rw
      (
        any-terminated p (all_of g) g.trace,
        any-terminate_all (is_started p) (all_of g) g.trace (λ r. refl),
        any-terminate_all (is_exited p) (all_of g) g.trace (λ r. refl),
      )
      (λ h.
        add_right (any (holds p) (all_of g)) (any (is_terminated p) g.trace)
          (any (is_exited p) g.trace) (run-Custody xs p h))

handled-IsOver : (g : Manager) → IsOver g → IsOver (handled g)
handled-IsOver g o = record {
  off = refl;
  asleep = o.asleep;
  accounted = λ p.
      rw
        (
          any-terminated p (all_of g) g.trace,
          any-terminate_all (is_started p) (all_of g) g.trace (λ r. refl),
          any-terminate_all (is_exited p) (all_of g) g.trace (λ r. refl),
        )
        (λ h.
          add_left (any (holds p) (all_of g)) (any (is_terminated p) g.trace)
            (any (is_exited p) g.trace) (o.accounted p h));
}

stopped-IsOver : (g : Manager) → IsOver g → IsOver (record g { phase = stopped; running = false })
stopped-IsOver g o = record { off = refl; asleep = refl; accounted = o.accounted }

turn_in-IsOver :
    (A : Answers) (f : Phase) (g : Manager) → g.phase ≡ f → IsOver g → IsOver (turn_in f A g)
turn_in-IsOver A waiting g e o = rw o.off (stopped-IsOver g o)
turn_in-IsOver A stopped g e o = o
turn_in-IsOver A starting g e o = let bad = rw e at o.asleep in cc
turn_in-IsOver A checking g e o = let bad = rw e at o.asleep in cc
turn_in-IsOver A (crashed x) g e o = let bad = rw e at o.asleep in cc

signal_in-IsOver : (f : Phase) (g : Manager) → IsOver g → IsOver (signal_in f g)
signal_in-IsOver starting g o = handled-IsOver g o
signal_in-IsOver waiting g o = handled-IsOver g o
signal_in-IsOver checking g o = handled-IsOver g o
signal_in-IsOver stopped g o = o
signal_in-IsOver (crashed e) g o = o

run-IsOver : (xs : List Step) (g : Manager) → IsOver g → IsOver (run xs g)
unfolding turn stop_handler
run-IsOver [] g o = o
run-IsOver (take_turn A ∷ xs) g o = run-IsOver xs (turn A g) (turn_in-IsOver A g.phase g refl o)
run-IsOver (stop_signal ∷ xs) g o = run-IsOver xs (stop_handler g) (signal_in-IsOver g.phase g o)

-- If a stop signal comes while `main` sleeps between two checks, then whatever happens after it, every
-- process that the supervisor ever starts has been told to stop or has exited: none is left behind.
pub run-accounted :
    (before after : List Step) (p : ℕ)
    → (run before launch).phase ≡ waiting
    → any (is_started p) (run after (stop_handler (run before launch))).trace ≡ true
    → (any (is_terminated p) (run after (stop_handler (run before launch))).trace
        || any (is_exited p) (run after (stop_handler (run before launch))).trace)
      ≡ true
unfolding stop_handler
run-accounted before after p asleep =
    (run-IsOver after _ (
        rw asleep (record {
          off = refl;
          asleep = ap is_asleep asleep;
          accounted = handled-Accounted before;
        }))).accounted
      p
