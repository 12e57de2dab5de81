-- ===== src/Commands/Batch.antt =====
-- A round of commands.
use bbjsensescada.Common.{
  ℕ, suc, ◌+◌, ◌≤◌, ◌≡◌, refl, ap, ◌∙◌, List, [], ◌∷◌, ◌++◌, length, All, All-append, arith,
  length-append,
}
use bbjsensescada.Python.{Result, ok, err}
use bbjsensescada.Python.Value.{Value}
use bbjsensescada.Modbus.{Settings}
use bbjsensescada.Commands.Defs.{Write, Driver, Event, Trace, execute_command}
use bbjsensescada.Commands.Polling.{
  after_command, execute_all, commands_round, Reply, fetch_pending_commands,
}
use bbjsensescada.Commands.Effects.{acks, writes, acks-append, writes-append}
use bbjsensescada.Commands.Outcome.{
  Verdict, crashed, unwritten, unaccepted, succeeded, IsAuthorised, execute_command-Verdict,
  execute_command-IsAuthorised,
}

-- One acknowledgement for each of n commands, or an exception and not more than n.
abbrev pub Acknowledged : ℕ → Trace → Type 0
Acknowledged n (es, ok u) = length (acks es) ≡ n
Acknowledged n (es, err e) = length (acks es) ≤ n

one_ack :
    (D : Driver) (es : List Event) (u : Unit {0}) → Verdict D (es, ok u) → length (acks es) ≡ 1
one_ack D es u (crashed e silent raises) = cc
one_ack D es u (unwritten a w) = ap length a
one_ack D es u (unaccepted c w a _ _) = ap length a
one_ack D es u (succeeded c w a _ _) = ap length a

most_one_ack : (D : Driver) (t : Trace) → Verdict D t → length (acks t.0) ≤ 1
most_one_ack D t (crashed e silent raises) = rw silent (omega arith)
most_one_ack D t (unwritten a w) = omega (arith, ap length a)
most_one_ack D t (unaccepted c w a _ _) = omega (arith, ap length a)
most_one_ack D t (succeeded c w a _ _) = omega (arith, ap length a)

length-acks : (es fs : List Event) → length (acks (es ++ fs)) ≡ length (acks es) + length (acks fs)
length-acks es fs = ap length (acks-append es fs) ∙ length-append (acks es) (acks fs)

after_command-Acknowledged :
    (D : Driver) (n : ℕ) (later t : Trace)
    → Verdict D t
    → Acknowledged n later
    → Acknowledged (suc n) (after_command later t)
after_command-Acknowledged D n (fs, ok u) (es, ok u') v h =
    omega (arith, h, one_ack D es u' v, length-acks es fs)
after_command-Acknowledged D n (fs, err e) (es, ok u') v h =
    omega (arith, h, one_ack D es u' v, length-acks es fs)
after_command-Acknowledged D n later (es, err e) v h = omega (arith, most_one_ack D (es, err e) v)

execute_all-Acknowledged :
    (S : Settings) (D : Driver) (current : ℕ → Value) (n : ℕ) (commands : List Value)
    → Acknowledged (length commands) (execute_all S D current n commands)
unfolding execute_all
execute_all-Acknowledged S D current n [] = refl
execute_all-Acknowledged S D current n (command ∷ commands) =
    after_command-Acknowledged D (length commands) (execute_all S D current (suc n) commands)
      (execute_command S D command (current n)) (execute_command-Verdict S D command (current n))
      (execute_all-Acknowledged S D current (suc n) commands)

-- If the cloud sends n commands, a round that returns has acknowledged n times, and a round that an
-- exception leaves at most n times.
pub commands_round-Acknowledged :
    (S : Settings) (D : Driver) (current : ℕ → Value) (response : Result Reply)
    (commands : List Value)
    → fetch_pending_commands response ≡ ok commands
    → Acknowledged (length commands) (commands_round S D current response)
unfolding commands_round
commands_round-Acknowledged S D current response commands fetched =
    rw fetched (execute_all-Acknowledged S D current 0 commands)

-- A write of the round: the one write of a command of the list, which the gate has let pass in the
-- configuration that was current when the command ran.
abbrev pub Asked : Settings → Driver → (ℕ → Value) → ℕ → List Value → Write → Type 0
Asked S D current n commands w =
    (before after : List Value) × (command : Value) × (commands ≡ before ++ command ∷ after)
    × (writes (execute_command S D command (current (n + length before))).0 ≡ w ∷ [])
    × IsAuthorised S command (current (n + length before))

Asked-now :
    (S : Settings) (D : Driver) (current : ℕ → Value) (n : ℕ) (command : Value)
    (commands : List Value) (w : Write)
    → writes (execute_command S D command (current n)).0 ≡ w ∷ []
    → Asked S D current n (command ∷ commands) w
Asked-now S D current n command commands w one =
    let allowed = execute_command-IsAuthorised S D command (current n) w [] one in
    let same : n ≡ n + 0 = omega arith in
    ([], commands, command, refl, rw same at one, rw same at allowed)

Asked-later :
    (S : Settings) (D : Driver) (current : ℕ → Value) (n : ℕ) (command : Value)
    (commands : List Value) (w : Write)
    → Asked S D current (suc n) commands w
    → Asked S D current n (command ∷ commands) w
Asked-later S D current n command commands w (before, after, c, split, one, allowed) =
    let same : suc n + length before ≡ n + suc (length before) = omega arith in
    (command ∷ before, after, c, ap (λ cs. command ∷ cs) split, rw same at one, rw same at allowed)

All-map :
    {A : Type 0} {P Q : A → Type 0} (xs : List A) → ((x : A) → P x → Q x) → All P xs → All Q xs
All-map [] f h = tt
All-map (x ∷ xs) f (p, ps) = (f x p, All-map xs f ps)

-- A property of the one write of a command, if it has one.
All-writes :
    (D : Driver) (t : Trace) (P : Write → Type 0)
    → Verdict D t
    → ((w : Write) → writes t.0 ≡ w ∷ [] → P w)
    → All P (writes t.0)
All-writes D t P (crashed e silent raises) f = rw silent tt
All-writes D t P (unwritten a w) f = rw w tt
All-writes D t P (unaccepted c w a one _) f = rw one (f w one, tt)
All-writes D t P (succeeded c w a one _) f = rw one (f w one, tt)

after_command-writes :
    (P : Write → Type 0) (later t : Trace)
    → All P (writes later.0)
    → All P (writes t.0)
    → All P (writes (after_command later t).0)
after_command-writes P (fs, r) (es, ok u) h k =
    rw writes-append (All-append P (writes es) (writes fs) k h)
after_command-writes P later (es, err e) h k = k

execute_all-Asked :
    (S : Settings) (D : Driver) (current : ℕ → Value) (n : ℕ) (commands : List Value)
    → All (Asked S D current n commands) (writes (execute_all S D current n commands).0)
unfolding execute_all
execute_all-Asked S D current n [] = tt
execute_all-Asked S D current n (command ∷ commands) =
    let later = execute_all S D current (suc n) commands in
    let here = execute_command S D command (current n) in
    let P = Asked S D current n (command ∷ commands) in
    after_command-writes P later here
      (All-map (writes later.0) (Asked-later S D current n command commands)
        (execute_all-Asked S D current (suc n) commands))
      (All-writes D here P (execute_command-Verdict S D command (current n))
        (Asked-now S D current n command commands))

-- Each write of a round is the one write of a command that the cloud sent, and the gate let it pass
-- in the configuration that was current when that command ran.
pub commands_round-Asked :
    (S : Settings) (D : Driver) (current : ℕ → Value) (response : Result Reply)
    (commands : List Value)
    → fetch_pending_commands response ≡ ok commands
    → All (Asked S D current 0 commands) (writes (commands_round S D current response).0)
unfolding commands_round
commands_round-Asked S D current response commands fetched =
    rw fetched (execute_all-Asked S D current 0 commands)
