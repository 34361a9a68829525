-- ===== src/Logging/Buffer/Delivery.antt =====
-- What the buffer of log entries keeps, in whatever order its callers and its worker take their steps.
use mathlib.Core.List.{append_assoc, append-nil, Sublistᴰ}
use data_loader.Prelude.{ℕ, refl, sym, subst, List, [], ◌∷◌, ◌++◌, arith}
use data_loader.Logging.{LogEntry}
use data_loader.Logging.Buffer.{SharedState, new_state, Event, step, run}
use data_loader.Logging.Buffer.Steps.{offered, sent, Keeps, step-Keeps}

run_from-Keeps :
    (es : List Event) (log : List LogEntry) (st : SharedState)
    → Keeps log st
    → Keeps (log ++ offered es st) (run es st)
unfolding run offered
run_from-Keeps [] log st h = subst (λ l. Keeps l st) (sym (append-nil log)) h
run_from-Keeps (e ∷ es) log st h =
    subst (λ l. Keeps l (run es (step e st)))
      (append_assoc log (sent e st) (offered es (step e st)))
      (run_from-Keeps es (log ++ sent e st) (step e st) (step-Keeps e log st h))

-- However the tests and the sends of the callers of `Handle`, the two steps of `Close` and those of the
-- worker interleave from the start of a handler: the entries that its buffer took are some of those sent,
-- in their order; the others are counted as dropped, up to the width of the counter, except for those
-- whose send panicked, which no send does before the channel is closed; no more entries wait than the
-- channel holds; and once the worker is done the channel is closed and no entry waits.
pub run-Keeps :
    (es : List Event) (buffer : ℕ)
    → Keeps (offered es (new_state buffer)) (run es (new_state buffer))
unfolding new_state
run-Keeps es buffer =
    run_from-Keeps es [] (new_state buffer)
      (0, Sublistᴰ.slnil, refl, refl, omega arith, λ q. refl, λ q. cc)
