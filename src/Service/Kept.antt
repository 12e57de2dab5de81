-- ===== src/Service/Kept.antt =====
-- The messages that wait, through any interleaving of the service's turns.
use bbjsensescada.Common.{
  ◌≡◌, refl, Bool, true, false, ◌||◌, List, [], ◌∷◌, ◌++◌, String, contains, string_eq, ◌==◌, arith,
  Bool-cases, inl, inr, if◌then◌else◌, ℕ,
}
use bbjsensescada.Python.{Result, ok, err}
use bbjsensescada.Python.Float.{Float}
use bbjsensescada.Python.Value.{Value}
use bbjsensescada.Queue.{Table}
use bbjsensescada.Queue.Invariant.{delete_sent, perform}
use bbjsensescada.Queue.Abstract.{waiting, waiting-perform}
use bbjsensescada.Upload.{Cloud}
use bbjsensescada.Upload.Steps.{Round, resting, collecting, marking, unsending, round_step}
use bbjsensescada.Upload.Interrupted.{sent_in, round_step-keeps}
use bbjsensescada.Modbus.{Settings}
use bbjsensescada.Poller.{Driver}
use bbjsensescada.Poller.Readings.{Grows}
use bbjsensescada.Poller.Pass.{Moment, poll_pass, poll_pass-Grows}
use bbjsensescada.Service.{
  Service, Turn, poll, flush, clean_buffer, clean_history, evaluate, thread_turn, thread_turns,
  flush_turn, poll_turn, buffer_cleanup_turn, history_cleanup_turn, evaluator_turn, interval_over,
  PassTime, after_pass, buffer_cleanup_keep_latest, written, worked, flush_from,
}

-- The messages that wait.
abbrev pub queued : Service → List String
queued s = waiting s.poller.stores.queue

-- The message that a turn marks sent, since the cloud has answered the batch and not rejected it.
unfoldable pub taken_in : Turn → Service → List String
taken_in (flush C now) s = sent_in s.round
taken_in _ s = []

-- No turn of the run has the cloud take the message.
abbrev pub Untaken : String → List Turn → Service → Type 0
Untaken m [] s = Unit {0}
Untaken m (turn ∷ turns) s =
    (contains (taken_in turn s) m ≡ false) × Untaken m turns (thread_turn turn s)

or_right : (a b : Bool) → b ≡ true → (a || b) ≡ true
or_right a b h = ground arith

contains-added :
    (q added : List String) (m : String) → contains q m ≡ true → contains (q ++ added) m ≡ true
contains-added [] added m h = cc
contains-added (k ∷ q) added m h = elim (Bool-cases (m == k)) [
  | inl same ↦ rw same refl
  | inr other ↦
      or_right (m == k) (contains (q ++ added) m) (contains-added q added m (rw other at h))
]

Grows-keeps :
    (t u : Table) (m : String)
    → Grows t u
    → contains (waiting t) m ≡ true
    → contains (waiting u) m ≡ true
Grows-keeps t u m g h = rw (g.joined) (contains-added (waiting t) g.added m h)

after_pass-queue :
    (S : Settings) (T : PassTime) (s : Service) (r : Result (Unit {0}))
    → queued (after_pass S T s r) ≡ queued s
after_pass-queue S T s (err e) = refl
after_pass-queue S T s (ok u) = either (interval_over S.arithmetic T.now s.last_device_status_write)
  where
    either : (b : Bool) → queued (if b then written S T s else s) ≡ queued s
    either true = refl
    either false = refl

poll_turn-keeps :
    (S : Settings) (D : Driver) (at : ℕ → Moment) (T : PassTime) (configuration : Value)
    (s : Service) (m : String)
    → contains (queued s) m ≡ true
    → contains (queued (poll_turn S D at T configuration s)) m ≡ true
unfolding poll_turn
poll_turn-keeps S D at T configuration s m h =
    let out = poll_pass S D at configuration s.poller in
    rw (after_pass-queue S T (record s { poller = out.0 }) out.1) (
      Grows-keeps s.poller.stores.queue out.0.stores.queue m
        (poll_pass-Grows S D at configuration s.poller) h)

begun-keeps :
    (C : Cloud) (now : Float) (s : Service) (b : Bool) (m : String)
    → contains (queued s) m ≡ true
    → contains
        (queued (
          if b
          then record (worked (round_step C (s.poller.stores.queue, resting)) s) {
            last_batch_flush = now;
          }
          else s))
        m
      ≡ true
begun-keeps C now s false m h = h
begun-keeps C now s true m h = round_step-keeps C s.poller.stores.queue resting m refl h

flush_turn-keeps :
    (C : Cloud) (now : Float) (s : Service) (m : String)
    → contains (taken_in (flush C now) s) m ≡ false
    → contains (queued s) m ≡ true
    → contains (queued (flush_turn C now s)) m ≡ true
unfolding flush_turn taken_in
flush_turn-keeps C now s m free h = from s.round free
  where
    from :
        (r : Round)
        → contains (sent_in r) m ≡ false
        → contains (queued (flush_from C now r s)) m ≡ true
    from resting k = begun-keeps C now s (interval_over C.arithmetic now s.last_batch_flush) m h
    from (collecting ms vs) k = round_step-keeps C s.poller.stores.queue (collecting ms vs) m k h
    from (marking pairs vs) k = round_step-keeps C s.poller.stores.queue (marking pairs vs) m k h
    from (unsending e vs) k = round_step-keeps C s.poller.stores.queue (unsending e vs) m k h

buffer_cleanup_turn-queue : (s : Service) → queued (buffer_cleanup_turn s) ≡ queued s
unfolding buffer_cleanup_turn perform
buffer_cleanup_turn-queue s =
    waiting-perform (delete_sent buffer_cleanup_keep_latest) s.poller.stores.queue

thread_turn-keeps :
    (turn : Turn) (s : Service) (m : String)
    → contains (taken_in turn s) m ≡ false
    → contains (queued s) m ≡ true
    → contains (queued (thread_turn turn s)) m ≡ true
unfolding thread_turn history_cleanup_turn evaluator_turn
thread_turn-keeps (poll S D at T configuration) s m free h =
    poll_turn-keeps S D at T configuration s m h
thread_turn-keeps (flush C now) s m free h = flush_turn-keeps C now s m free h
thread_turn-keeps clean_buffer s m free h = rw (buffer_cleanup_turn-queue s) h
thread_turn-keeps (clean_history cutoff) s m free h = h
thread_turn-keeps (evaluate setting now) s m free h = h

-- A message that waits in the offline buffer stays there through any interleaving of polling passes,
-- steps of upload rounds, clean-ups of the buffer and of the history and alarm evaluations, until a
-- step in which an upload round marks it sent because the cloud has answered its batch and has not
-- rejected it: no reading is lost to a thread that works on the table while a request is under way.
pub thread_turns-keep :
    (turns : List Turn) (s : Service) (m : String)
    → Untaken m turns s
    → contains (queued s) m ≡ true
    → contains (queued (thread_turns turns s)) m ≡ true
thread_turns-keep [] s m free h = h
thread_turns-keep (turn ∷ turns) s m (here, later) h =
    thread_turns-keep turns (thread_turn turn s) m later (thread_turn-keeps turn s m here h)
