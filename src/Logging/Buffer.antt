-- ===== src/Logging/Buffer.antt =====
-- internal/logging/dbhandler.go: the state that the clones of a handler share, the worker that drains
-- it, and their interleavings.
pub mod Steps
pub mod Delivery
pub mod Drain
use data_loader.Prelude.{
  ℕ, zero, suc, ◌+◌, ◌%◌, ◌^◌, Bool, true, false, Option, none, some, List, [], ◌∷◌, ◌++◌, ltb,
  length, if◌then◌else◌, Error,
}
use data_loader.Logging.{LogEntry, LogRecord, DbHandler, Encoding, entry_of}

-- `sharedState`: the channel with its capacity and whether it is closed, `closed` and `dropped`; the
-- entries whose callers have passed the test of `closed` and have not sent yet; the number of sends that
-- panicked; the entry that the worker holds, whether it has closed `done`, and what it gave to the writer.
pub record SharedState : Type 0 where
  pub capacity : ℕ
  pub ch : List LogEntry
  pub ch_closed : Bool
  pub closed : Bool
  pub dropped : ℕ
  pub passed : List LogEntry
  pub panics : ℕ
  pub in_flight : Option LogEntry
  pub done : Bool
  pub written : List LogEntry

-- `NewDBHandler`.
unfoldable pub new_state : ℕ → SharedState
new_state buffer = record {
  capacity = if ltb 0 buffer then buffer else 256;
  ch = [];
  ch_closed = false;
  closed = false;
  dropped = 0;
  passed = [];
  panics = 0;
  in_flight = none;
  done = false;
  written = [];
}

-- The end of `Handle` up to the test of `closed`, which is a step of its own.
unfoldable pub enqueue : LogEntry → SharedState → SharedState
enqueue entry st = if st.closed then st else record st { passed = st.passed ++ (entry ∷ []) }

-- The `select` of `Handle`: a send, a drop where it would block, or a panic on a closed channel.
unfoldable pub send : LogEntry → SharedState → SharedState
send entry st =
    if st.ch_closed
    then record st { panics = st.panics + 1 }
    else if ltb (length st.ch) st.capacity
    then record st { ch = st.ch ++ (entry ∷ []) }
    else record st { dropped = (st.dropped + 1) % 2 ^ 64 }

-- The entry of one of the callers between the two steps, with those of the others.
unfoldable pub pick : ℕ → List LogEntry → Option (LogEntry × List LogEntry)
pick k [] = none
pick zero (x ∷ xs) = some (x, xs)
pick (suc k) (x ∷ xs) = elim (pick k xs) [ none ↦ none | some (y, ys) ↦ some (y, x ∷ ys) ]

unfoldable pub send_picked : ℕ → SharedState → SharedState
unfolding send pick
send_picked k st = elim (pick k st.passed) [
  | none ↦ st
  | some (entry, rest) ↦ send entry (record st { passed = rest })
]

-- `Handle` up to the test, with what the base handler returns.
unfoldable pub handle :
    Encoding → DbHandler → LogRecord → Option Error → SharedState → Option Error × SharedState
unfolding entry_of enqueue
handle enc h r (some e) st = (some e, st)
handle enc h r none st = (none, enqueue (entry_of enc h r) st)

-- `Close`: the swap of `closed`.
unfoldable pub close : SharedState → SharedState
close st = record st { closed = true }

-- `Close`: the close of the channel, by the one caller whose swap found `closed` unset.
unfoldable pub close_channel : SharedState → SharedState
close_channel st = if st.closed then record st { ch_closed = true } else st

-- A receive of an idle worker from the channel.
abbrev pub receive_from : SharedState → List LogEntry → SharedState
receive_from st [] = if st.ch_closed then record st { done = true } else st
receive_from st (entry ∷ ch) = record st { ch = ch; in_flight = some entry }

-- `worker`: a receive of the loop, if the worker is at one, and the end of the loop.
unfoldable pub receive : SharedState → SharedState
receive st = elim st.in_flight [
  | some entry ↦ st
  | none ↦ if st.done then st else receive_from st st.ch
]

-- `worker`: the call of the writer, whose error is ignored.
unfoldable pub write : SharedState → SharedState
write st = elim st.in_flight [
  | none ↦ st
  | some entry ↦ record st { in_flight = none; written = st.written ++ (entry ∷ []) }
]

-- A step of a caller or of the worker: a caller tests `closed`, one of those that passed the test sends,
-- a caller of `Close` swaps, the channel is closed, the worker receives, the worker writes. A record that
-- the base handler refuses makes no step.
pub data Event : Type 0 where
  logs : LogEntry → Event
  sends : ℕ → Event
  closes : Event
  closes_channel : Event
  receives : Event
  writes : Event

unfoldable pub step : Event → SharedState → SharedState
unfolding enqueue send_picked close close_channel receive write
step (logs entry) st = enqueue entry st
step (sends k) st = send_picked k st
step closes st = close st
step closes_channel st = close_channel st
step receives st = receive st
step writes st = write st

-- An interleaving, as the order of its steps.
unfoldable pub run : List Event → SharedState → SharedState
unfolding step
run [] st = st
run (e ∷ es) st = run es (step e st)
