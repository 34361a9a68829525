-- ===== src/Logging/Tests.antt =====
-- A handler whose buffer has room for one entry.
use data_loader.Prelude.{◌≡◌, refl, true, false, none, List, [], ◌∷◌, lit}
use data_loader.Logging.{LogEntry}
use data_loader.Logging.Buffer.{
  SharedState, new_state, Event, logs, closes, receives, sends, closes_channel, step, enqueue,
  send_picked, pick, send, close, close_channel, receive, run,
}
use data_loader.Logging.Buffer.Steps.{offered, Keeps}
use data_loader.Logging.Buffer.Delivery.{run-Keeps}
use data_loader.Logging.Buffer.Drain.{drain, run-drain}

abbrev entry : LogEntry
entry = record {
  created_at = 10;
  level = "info";
  category = lit "read";
  message = lit "started";
  run_uuid = [];
  load_id = none;
  source_id = none;
  details = [];
}

-- Two callers of which the second finds the buffer full, one more between whose test and send the
-- handler is closed, and a step of the worker.
abbrev events : List Event
events =
    logs entry
    ∷ logs (record entry { message = lit "lost" })
    ∷ sends 0
    ∷ sends 0
    ∷ logs entry
    ∷ closes
    ∷ closes_channel
    ∷ sends 0
    ∷ receives
    ∷ logs entry
    ∷ []

run-Keeps_example : Keeps (offered events (new_state 1)) (run events (new_state 1))
run-Keeps_example = run-Keeps events 1

-- A send on the closed channel panics.
panicked : (run events (new_state 1)).panics ≡ 1
unfolding run step enqueue send_picked pick send close close_channel receive new_state
panicked = refl

abbrev stopped : SharedState
stopped = record {
  capacity = 1;
  ch = record entry { message = lit "waits" } ∷ [];
  ch_closed = true;
  closed = true;
  dropped = 1;
  passed = [];
  panics = 0;
  in_flight = none;
  done = false;
  written = entry ∷ [];
}

run-drain_example :
    ((run (drain 1) stopped).done ≡ true)
    × ((run (drain 1) stopped).written ≡ entry ∷ record entry { message = lit "waits" } ∷ [])
run-drain_example = run-drain stopped refl refl
