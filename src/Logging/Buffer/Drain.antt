-- ===== src/Logging/Buffer/Drain.antt =====
-- What becomes of the entries that wait when a handler is closed.
use mathlib.Core.List.{append_assoc, append-nil}
use data_loader.Prelude.{
  ℕ, zero, suc, ◌≡◌, refl, sym, ap, ◌∙◌, subst, Bool, true, false, Option, none, some, List, [],
  ◌∷◌, ◌++◌, length,
}
use data_loader.Logging.{LogEntry}
use data_loader.Logging.Buffer.{SharedState, receive, write, Event, receives, writes, step, run}
use data_loader.Logging.Buffer.Steps.{held, accepted}

-- A worker that takes its steps in turn, once more often than entries wait.
abbrev pub drain : ℕ → List Event
drain zero = writes ∷ receives ∷ []
drain (suc n) = writes ∷ receives ∷ drain n

abbrev closing : SharedState → List LogEntry → Option LogEntry → List LogEntry → SharedState
closing st ch in_flight written = record st {
  ch = ch;
  ch_closed = true;
  in_flight = in_flight;
  done = false;
  written = written;
}

abbrev Drained : List LogEntry → SharedState → Type 0
Drained all st = (st.done ≡ true) × (st.written ≡ all)

closing-Drained :
    (st : SharedState) (ch : List LogEntry) (in_flight : Option LogEntry) (written : List LogEntry)
    → Drained
        (written ++ held in_flight ++ ch)
        (run (drain (length ch)) (closing st ch in_flight written))
unfolding run step receive write
closing-Drained st [] none written = (refl, sym (append-nil _ ∙ append-nil written))
closing-Drained st [] (some entry) written = (refl, sym (append-nil _))
closing-Drained st (next ∷ ch) none written =
    let (finished, all) = closing-Drained st ch (some next) written in
    (
      finished,
      all
          ∙ append_assoc written (next ∷ []) ch
          ∙ ap (λ l. l ++ (next ∷ ch)) (sym (append-nil written)),
    )
closing-Drained st (next ∷ ch) (some entry) written =
    let (finished, all) = closing-Drained st ch (some next) (written ++ (entry ∷ [])) in
    (finished, all ∙ append_assoc (written ++ (entry ∷ [])) (next ∷ []) ch)

-- Once the channel is closed, a worker that goes on ends, and has then given the writer every entry that the buffer had
-- taken, in order; two steps for each waiting entry and two more are enough.
pub run-drain :
    (st : SharedState)
    → st.ch_closed ≡ true
    → st.done ≡ false
    → ((run (drain (length st.ch)) st).done ≡ true)
      × ((run (drain (length st.ch)) st).written ≡ accepted st)
run-drain st shut busy =
    subst (λ (s : SharedState). Drained (accepted st) (run (drain (length st.ch)) s))
      (ap (λ (b : Bool). record st { ch_closed = b; done = false }) (sym shut)
        ∙ ap (λ (b : Bool). record st { done = b }) (sym busy))
      (closing-Drained st st.ch st.in_flight st.written)
