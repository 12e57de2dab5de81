-- ===== src/Service.antt =====
-- dynamic_modbus_poller.py, the threads of the service: the loop of `main`, `run_batch_flush_loop`,
-- `run_buffer_cleanup_loop`, `run_history_cleanup_loop`, and `evaluator_worker` of
-- edge_alarm_evaluator.py. A turn of a loop is one step, and a turn of the upload as many as it has
-- transactions; a run is any interleaving of the steps. Clocks are arguments; an exception of a turn is
-- logged and the loop goes on.
pub mod Kept
use bbjsensescada.Common.{ℕ, Bool, List, [], ◌∷◌, String, Option, none, some, if◌then◌else◌}
use bbjsensescada.Common.Int.{ℤ, pos}
use bbjsensescada.Python.{Error, Result, ok, err}
use bbjsensescada.Python.Float.{Float, Arithmetic, le_float}
use bbjsensescada.Python.Value.{Value}
use bbjsensescada.Queue.{Json, Table, delete_sent_messages}
use bbjsensescada.Historian.{prune_old_history}
use bbjsensescada.Alarms.{Setting, evaluate_all_rules}
use bbjsensescada.Upload.{Cloud}
use bbjsensescada.Upload.Steps.{Round, resting, collecting, marking, unsending, At, round_step}
use bbjsensescada.Modbus.{Settings}
use bbjsensescada.Poller.{Driver, Poller, Stores}
use bbjsensescada.Poller.Pass.{Moment, poll_pass}
use bbjsensescada.DeviceStatus.{write_device_status}

-- What the threads share, with the variables of their loops.
pub record Service : Type 0 where
  pub poller : Poller
  pub status_file : Option String
  pub last_device_status_write : Float
  pub last_batch_flush : Float
  pub round : Round

-- 5.0, the interval of both loops
abbrev pub five : Float
five = record { bits = 0x4014000000000000 }

-- `now - last >= 5`
unfoldable pub interval_over : Arithmetic → Float → Float → Bool
unfolding le_float
interval_over A now last = le_float five (A.sub now last)

abbrev pub with_queue : Table → Service → Service
with_queue t s = record s {
  poller = record s.poller { stores = record s.poller.stores { queue = t } };
}

-- A step of the round that is under way.
abbrev pub worked : At → Service → Service
worked (t, round) s = record (with_queue t s) { round = round }

abbrev pub flush_from : Cloud → Float → Round → Service → Service
flush_from C now resting s =
    if interval_over C.arithmetic now s.last_batch_flush
    then record (worked (round_step C (s.poller.stores.queue, resting)) s) {
      last_batch_flush = now;
    }
    else s
flush_from C now round s = worked (round_step C (s.poller.stores.queue, round)) s

-- `run_batch_flush_loop`: a round begins when it is due, and goes on one step at a time.
unfoldable pub flush_turn : Cloud → Float → Service → Service
unfolding interval_over round_step
flush_turn C now s = flush_from C now s.round s

-- What the disk does to the status file, and when the pass began.
pub record PassTime : Type 0 where
  pub json : Json
  pub disk : Option Error
  pub now : Float

abbrev pub written : Settings → PassTime → Service → Service
written S T s = record s {
  status_file = (write_device_status T.json S.repr T.disk s.poller.device_status s.status_file).0;
  last_device_status_write = T.now;
}

-- The file is written after a pass that has not been cut short.
abbrev pub after_pass : Settings → PassTime → Service → Result (Unit {0}) → Service
after_pass S T s (err e) = s
after_pass S T s (ok u) =
    if interval_over S.arithmetic T.now s.last_device_status_write then written S T s else s

-- One turn of `while True` in `main`.
unfoldable pub poll_turn : Settings → Driver → (ℕ → Moment) → PassTime → Value → Service → Service
unfolding interval_over poll_pass write_device_status
poll_turn S D at T configuration s =
    let (p, result) = poll_pass S D at configuration s.poller in
    after_pass S T (record s { poller = p }) result

abbrev pub buffer_cleanup_keep_latest : ℤ
buffer_cleanup_keep_latest = pos 1000

unfoldable pub buffer_cleanup_turn : Service → Service
unfolding delete_sent_messages
buffer_cleanup_turn s =
    with_queue (delete_sent_messages buffer_cleanup_keep_latest s.poller.stores.queue).1 s

unfoldable pub history_cleanup_turn : String → Service → Service
unfolding prune_old_history
history_cleanup_turn cutoff s = record s {
  poller = record s.poller {
    stores = record s.poller.stores {
      history = (prune_old_history cutoff s.poller.stores.history).1;
    };
  };
}

unfoldable pub evaluator_turn : Setting → ℕ → Service → Service
unfolding evaluate_all_rules
evaluator_turn setting now s = record s {
  poller = record s.poller {
    stores = record s.poller.stores {
      evaluator = (evaluate_all_rules setting now s.poller.stores.evaluator).0;
    };
  };
}

pub data Turn : Type 0 where
  poll : Settings → Driver → (ℕ → Moment) → PassTime → Value → Turn
  flush : Cloud → Float → Turn
  clean_buffer : Turn
  clean_history : String → Turn
  evaluate : Setting → ℕ → Turn

unfoldable pub thread_turn : Turn → Service → Service
unfolding flush_turn poll_turn buffer_cleanup_turn history_cleanup_turn evaluator_turn
thread_turn (poll S D at T configuration) s = poll_turn S D at T configuration s
thread_turn (flush C now) s = flush_turn C now s
thread_turn clean_buffer s = buffer_cleanup_turn s
thread_turn (clean_history cutoff) s = history_cleanup_turn cutoff s
thread_turn (evaluate setting now) s = evaluator_turn setting now s

abbrev pub thread_turns : List Turn → Service → Service
thread_turns [] s = s
thread_turns (turn ∷ turns) s = thread_turns turns (thread_turn turn s)
