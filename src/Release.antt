-- ===== src/Release.antt =====
-- dynamic_modbus_poller.py, `reap_pending_close_threads` and `close_client_with_timeout`: the list of
-- the threads whose `client.close()` did not return in time. A thread is a number; whether it is
-- alive when it is asked is an argument.
pub mod Outstanding
use bbjsensescada.Common.{ℕ, Bool, true, false, List, [], ◌∷◌, ◌++◌, filter, length, if◌then◌else◌}

-- How many are still outstanding, and which.
unfoldable pub reap_pending_close_threads : (ℕ → Bool) → List ℕ → ℕ × List ℕ
reap_pending_close_threads is_alive pending =
    let still_alive = filter is_alive pending in (length still_alive, still_alive)

-- The thread is abandoned if it has not returned when `join` gives up.
unfoldable pub close_client_with_timeout : (ℕ → Bool) → ℕ → Bool → List ℕ → List ℕ
unfolding reap_pending_close_threads
close_client_with_timeout is_alive close_thread is_stuck pending =
    let still_alive = (reap_pending_close_threads is_alive pending).1 in
    if is_stuck then still_alive ++ close_thread ∷ [] else still_alive

-- The calls in the order in which they change the list.
pub data Call : Type 0 where
  close : (ℕ → Bool) → ℕ → Bool → Call
  reap : (ℕ → Bool) → Call

abbrev pub call : Call → List ℕ → List ℕ
call (close is_alive close_thread is_stuck) pending =
    close_client_with_timeout is_alive close_thread is_stuck pending
call (reap is_alive) pending = (reap_pending_close_threads is_alive pending).1

abbrev pub calls : List Call → List ℕ → List ℕ
calls [] pending = pending
calls (c ∷ cs) pending = calls cs (call c pending)
