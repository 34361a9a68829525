-- ===== src/Logging/Buffer/Steps.antt =====
-- What one step of the buffer of log entries keeps.
use mathlib.Core.List.{append_assoc, append-nil, Sublistᴰ}
use data_loader.Prelude.{
  either, ℕ, suc, ◌+◌, ◌%◌, ◌^◌, ◌≤◌, ◌≡◌, refl, sym, ap, ◌∙◌, subst, Bool, true, false, Bool-cases,
  either_by, maybe_by, if◌then◌else◌, inl, inr, Option-cases, Option, none, some, List, [], ◌∷◌,
  ◌++◌, ltb, ltb→lt, length, length-append, arith,
}
use data_loader.Logging.{LogEntry}
use data_loader.Logging.Buffer.{
  SharedState, enqueue, send, pick, send_picked, close, close_channel, receive, receive_from, write,
  Event, logs, sends, closes, closes_channel, receives, writes, step,
}

snoc_both :
    {A : Type 0} (x : A) (l m : List A) → Sublistᴰ l m → Sublistᴰ (l ++ (x ∷ [])) (m ++ (x ∷ []))
snoc_both x [] [] Sublistᴰ.slnil = Sublistᴰ.cons-cons refl Sublistᴰ.slnil
snoc_both x l (a ∷ m) (Sublistᴰ.cons s) = Sublistᴰ.cons (snoc_both x l m s)
snoc_both x (a ∷ l) [] s = elim s [ ]
snoc_both x (a ∷ l) (b ∷ m) (Sublistᴰ.cons-cons e s) = Sublistᴰ.cons-cons e (snoc_both x l m s)

snoc_right : {A : Type 0} (x : A) (l m : List A) → Sublistᴰ l m → Sublistᴰ l (m ++ (x ∷ []))
snoc_right x [] [] Sublistᴰ.slnil = Sublistᴰ.cons Sublistᴰ.slnil
snoc_right x l (a ∷ m) (Sublistᴰ.cons s) = Sublistᴰ.cons (snoc_right x l m s)
snoc_right x (a ∷ l) [] s = elim s [ ]
snoc_right x (a ∷ l) (b ∷ m) (Sublistᴰ.cons-cons e s) = Sublistᴰ.cons-cons e (snoc_right x l m s)

-- What the worker holds.
abbrev pub held : Option LogEntry → List LogEntry
held none = []
held (some entry) = entry ∷ []

-- The entries that the buffer took: written, in the worker's hands, or waiting.
abbrev pub accepted : SharedState → List LogEntry
accepted st = st.written ++ held st.in_flight ++ st.ch

-- The entry that a step sends, if it is a send.
abbrev pub sent : Event → SharedState → List LogEntry
unfolding pick
sent (logs entry) st = []
sent (sends k) st = elim (pick k st.passed) [ none ↦ [] | some (entry, rest) ↦ entry ∷ [] ]
sent closes st = []
sent closes_channel st = []
sent receives st = []
sent writes st = []

-- The entries that the steps of an interleaving send, in their order.
unfoldable pub offered : List Event → SharedState → List LogEntry
unfolding step
offered [] st = []
offered (e ∷ es) st = sent e st ++ offered es (step e st)

-- The entries that the buffer took are some of those sent, in their order; the rest are counted as
-- dropped, but for those whose send panicked, of which there are none before the channel is closed; and
-- no more wait than the channel holds. Once the worker is done nothing waits.
abbrev pub Keeps : List LogEntry → SharedState → Type 0
Keeps log st =
    (lost : ℕ) × Sublistᴰ (accepted st) log
    × (length (accepted st) + lost + st.panics ≡ length log)
    × (st.dropped ≡ lost % 2 ^ 64)
    × (length st.ch ≤ st.capacity)
    × (st.ch_closed ≡ false → st.panics ≡ 0)
    × (st.done ≡ true → (st.ch_closed ≡ true) × (held st.in_flight ++ st.ch ≡ []))

pub clash : (b : Bool) → b ≡ false → b ≡ true → ⊥
clash b f t = cc

send-Keeps :
    (entry : LogEntry) (log : List LogEntry) (st : SharedState)
    → Keeps log st
    → Keeps (log ++ (entry ∷ [])) (send entry st)
unfolding send
send-Keeps entry log st (lost, sub, total, dropped, bound, calm, idle) =
    elim (Bool-cases st.ch_closed) [
      | inl shut ↦
          rw (send, shut)
            (
              lost,
              snoc_right entry (accepted st) log sub,
              omega (arith, total, length-append log (entry ∷ [])),
              dropped,
              bound,
              λ q. cc,
              λ q. (refl, (idle q).1),
            )
      | inr is_open ↦ elim (Bool-cases (ltb (length st.ch) st.capacity)) [
        | inl fits ↦
            rw (send, is_open, fits)
              (
                lost,
                subst (λ l. Sublistᴰ l (log ++ (entry ∷ []))) moved
                    (snoc_both entry (accepted st) log sub),
                omega (
                  arith,
                  total,
                  ap length moved,
                  length-append (accepted st) (entry ∷ []),
                  length-append log (entry ∷ []),
                ),
                dropped,
                omega (arith, ltb→lt _ _ fits, length-append st.ch (entry ∷ [])),
                λ q. calm is_open,
                λ q. absurd (clash _ is_open (idle q).0),
              )
        | inr full ↦
            rw (send, is_open, full)
              (
                suc lost,
                snoc_right entry (accepted st) log sub,
                omega (arith, total, length-append log (entry ∷ [])),
                omega (arith, dropped),
                bound,
                λ q. calm is_open,
                λ q. absurd (clash _ is_open (idle q).0),
              )
      ]
    ]
  where
    moved : accepted st ++ (entry ∷ []) ≡ st.written ++ held st.in_flight ++ (st.ch ++ (entry ∷ []))
    moved = append_assoc (st.written ++ held st.in_flight) st.ch (entry ∷ [])

-- A step of the worker moves entries along.
carry :
    (log : List LogEntry) (st st' : SharedState)
    → accepted st' ≡ accepted st
    → st'.dropped ≡ st.dropped
    → st'.panics ≡ st.panics
    → st'.ch_closed ≡ st.ch_closed
    → length st'.ch ≤ length st.ch
    → st'.capacity ≡ st.capacity
    → (st'.done ≡ true → (st'.ch_closed ≡ true) × (held st'.in_flight ++ st'.ch ≡ []))
    → Keeps log st
    → Keeps log st'
carry log st st' same drops panics gate fewer capacity idle
      (lost, sub, total, dropped, bound, calm, was_idle) =
    (
      lost,
      subst (λ l. Sublistᴰ l log) (sym same) sub,
      omega (arith, total, panics, ap length same),
      drops ∙ dropped,
      omega (arith, fewer, capacity, bound),
      λ q. panics ∙ calm (sym gate ∙ q),
      idle,
    )

write-Keeps : (log : List LogEntry) (st : SharedState) → Keeps log st → Keeps log (write st)
unfolding write
write-Keeps log st h = elim (Option-cases st.in_flight) [
  | inl e ↦ rw (write, e) h
  | inr (entry, e) ↦
      let same =
        ap (λ (l : List LogEntry). l ++ st.ch) (append-nil (st.written ++ (entry ∷ [])))
        ∙ ap (λ (o : Option LogEntry). st.written ++ held o ++ st.ch) (sym e) in
      rw (write, e)
        (carry log st (record st { in_flight = none; written = st.written ++ (entry ∷ []) }) same
          refl refl refl (omega arith) refl
          (λ q.
            let nothing = subst (λ (o : Option LogEntry). held o ++ st.ch ≡ []) e (h.6 q).1 in cc)
          h)
]

receive_from-Keeps :
    (log : List LogEntry) (st : SharedState) (ch : List LogEntry)
    → st.ch ≡ ch
    → st.in_flight ≡ none
    → st.done ≡ false
    → Keeps log st
    → Keeps log (receive_from st ch)
receive_from-Keeps log st [] empty idle busy h =
    either_by (Keeps log) st.ch_closed (record st { done = true }) st
      (λ e.
        carry log st (record st { done = true }) refl refl refl refl (omega arith) refl
          (λ q. (e, ap (λ (o : Option LogEntry). held o ++ st.ch) idle ∙ empty)) h)
      (λ e. h)
receive_from-Keeps log st (entry ∷ ch) next idle busy h =
    let same =
      append_assoc st.written (entry ∷ []) ch
      ∙ ap (λ (l : List LogEntry). st.written ++ l) (sym next)
      ∙ ap (λ (l : List LogEntry). l ++ st.ch) (sym (append-nil st.written))
      ∙ ap (λ (o : Option LogEntry). st.written ++ held o ++ st.ch) (sym idle) in
    carry log st (record st { ch = ch; in_flight = some entry }) same refl refl refl
      (omega (arith, ap length next)) refl (λ q. absurd (clash _ busy q)) h

receive-Keeps : (log : List LogEntry) (st : SharedState) → Keeps log st → Keeps log (receive st)
unfolding receive
receive-Keeps log st h =
    maybe_by (Keeps log) st.in_flight (if st.done then st else receive_from st st.ch) (λ entry. st)
      (λ idle.
        either_by (Keeps log) st.done st (receive_from st st.ch) (λ e. h)
          (λ busy. receive_from-Keeps log st st.ch refl idle busy h))
      (λ entry e. h)

close_channel-Keeps :
    (log : List LogEntry) (st : SharedState) → Keeps log st → Keeps log (close_channel st)
unfolding close_channel
close_channel-Keeps log st h =
    either (Keeps log) st.closed _ _ (h.0, h.1, h.2, h.3, h.4, λ q. cc, λ q. (refl, (h.6 q).1)) h

enqueue-Keeps :
    (entry : LogEntry) (log : List LogEntry) (st : SharedState)
    → Keeps log st
    → Keeps log (enqueue entry st)
unfolding enqueue
enqueue-Keeps entry log st h = either (Keeps log) st.closed _ _ h h

picked-Keeps :
    (o : Option (LogEntry × List LogEntry)) (log : List LogEntry) (st : SharedState)
    → Keeps log st
    → Keeps
        (log ++ elim o [ none ↦ [] | some (entry, rest) ↦ entry ∷ [] ])
        (elim o [ none ↦ st | some (entry, rest) ↦ send entry (record st { passed = rest }) ])
picked-Keeps none log st h = subst (λ l. Keeps l st) (sym (append-nil log)) h
picked-Keeps (some (entry, rest)) log st h = send-Keeps entry log (record st { passed = rest }) h

-- Each step keeps this, for the entries sent so far and the one that it sends.
pub step-Keeps :
    (e : Event) (log : List LogEntry) (st : SharedState)
    → Keeps log st
    → Keeps (log ++ sent e st) (step e st)
unfolding step send_picked close pick
step-Keeps (logs entry) log st h =
    subst (λ l. Keeps l (enqueue entry st)) (sym (append-nil log)) (enqueue-Keeps entry log st h)
step-Keeps (sends k) log st h = picked-Keeps (pick k st.passed) log st h
step-Keeps closes log st h = subst (λ l. Keeps l (close st)) (sym (append-nil log)) h
step-Keeps closes_channel log st h =
    subst (λ l. Keeps l (close_channel st)) (sym (append-nil log)) (close_channel-Keeps log st h)
step-Keeps receives log st h =
    subst (λ l. Keeps l (receive st)) (sym (append-nil log)) (receive-Keeps log st h)
step-Keeps writes log st h =
    subst (λ l. Keeps l (write st)) (sym (append-nil log)) (write-Keeps log st h)
