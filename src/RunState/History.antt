-- ===== src/RunState/History.antt =====
-- What the registry's writers keep and change.
use data_loader.Prelude.{
  ℕ, String, ◌≡◌, ◌≢◌, refl, false, Option, none, some, arith, ◌==◌, if◌then◌else◌, Option-cases,
  inl, inr,
}
use mathlib.Core.Option
use data_loader.Prelude.Dict
use data_loader.Prelude.Dict.{lookup-insert, insert-IsMap, IsMap}
use data_loader.RunState.{
  LoadState, Registry, preserve, update_entry, started, finished, register, mark_running,
  mark_finished,
}

-- The entry of a load.
abbrev pub find : ℕ → Registry → Option LoadState
find id r = Dict.lookup id r.loads

-- A registry is well formed if no load has two entries, and each entry is filed under its own id.
pub record IsValid (r : Registry) : Type 0 where
  pub is_map : IsMap r.loads
  pub filed : (id : ℕ) (s : LoadState) → find id r ≡ some s → s.load_id ≡ id

-- `t` has the run history of `e` and the metadata of `s`.
pub record IsRefresh (s e t : LoadState) : Type 0 where
  pub run_uuid : t.last_run_uuid ≡ e.last_run_uuid
  pub started_at : t.last_started_at ≡ e.last_started_at
  pub finished_at : t.last_finished_at ≡ e.last_finished_at
  pub status : t.last_status ≡ e.last_status
  pub rows_read : t.last_rows_read ≡ e.last_rows_read
  pub rows_written : t.last_rows_written ≡ e.last_rows_written
  pub error : t.last_error ≡ e.last_error
  pub running : t.currently_running ≡ e.currently_running
  pub load_name : t.load_name ≡ s.load_name
  pub source_name : t.source_name ≡ s.source_name
  pub source_kind : t.source_kind ≡ s.source_kind
  pub cron_expression : t.cron_expression ≡ s.cron_expression

preserve-load_id : (o : Option LoadState) (s : LoadState) → (preserve o s).load_id ≡ s.load_id
unfolding preserve
preserve-load_id none s = refl
preserve-load_id (some e) s = refl

preserve-IsRefresh : (s e : LoadState) → IsRefresh s e (preserve (some e) s)
unfolding preserve
preserve-IsRefresh s e = ground arith

-- Registering a load again takes the new metadata and keeps the whole run history of its entry;
-- the entries of other loads stay as they are.
pub register-history :
    (s e : LoadState) (r : Registry) (j : ℕ)
    → find s.load_id r ≡ some e
    → ((t : LoadState) × (find s.load_id (register s r) ≡ some t) × IsRefresh s e t)
      × (s.load_id ≢ j → find j (register s r) ≡ find j r)
unfolding register
register-history s e r j h = (
  (preserve (some e) s, rw (lookup-insert, h) (ground arith), preserve-IsRefresh s e),
  λ d. rw lookup-insert (ground arith),
)

find-update_entry :
    (id j : ℕ) (f : LoadState → LoadState) (r : Registry)
    → find j (update_entry id f r) ≡ (if id == j then Option.map f (find j r) else find j r)
unfolding update_entry
find-update_entry id j f r = elim (Option-cases (find id r)) [
  | inl e ↦ rw (e, update_entry) (ground arith)
  | inr (s, e) ↦ rw (e, update_entry) (rw lookup-insert (ground arith))
]

pub find-mark_running :
    (id j : ℕ) (uuid : String) (start : ℕ) (r : Registry)
    → find j (mark_running id uuid start r)
      ≡ (if id == j then Option.map (started uuid start) (find j r) else find j r)
unfolding mark_running
find-mark_running id j uuid start r = find-update_entry id j (started uuid start) r

pub find-mark_finished :
    (id j : ℕ) (status : String) (finish read written : ℕ) (message : String) (r : Registry)
    → find j (mark_finished id status finish read written message r) ≡ (
        if id == j
        then Option.map (finished status finish read written message) (find j r)
        else find j r)
unfolding mark_finished
find-mark_finished id j status finish read written message r =
    find-update_entry id j (finished status finish read written message) r

-- A run that starts and then finishes leaves its load not running, with the outcome and the row
-- counts of the run, the uuid and start time that it started with, and the entries of other loads
-- as they were.
pub mark_finished-mark_running :
    (id : ℕ) (uuid status message : String) (start finish read written j : ℕ) (s : LoadState)
    (r : Registry)
    → find id r ≡ some s
    → (find id (mark_finished id status finish read written message (mark_running id uuid start r))
        ≡ some (record s {
          last_run_uuid = uuid;
          last_started_at = start;
          last_finished_at = finish;
          last_status = status;
          last_rows_read = read;
          last_rows_written = written;
          last_error = message;
          currently_running = false;
        }))
      × (id ≢ j
          → find j
              (mark_finished id status finish read written message (mark_running id uuid start r))
            ≡ find j r)
mark_finished-mark_running id uuid status message start finish read written j s r h = (
  rw (find-mark_finished, find-mark_running, h) (ground arith),
  λ d. rw (find-mark_finished, find-mark_running) (ground arith),
)

register-IsValid : (s : LoadState) (r : Registry) → IsValid r → IsValid (register s r)
unfolding register
register-IsValid s r v = record {
  is_map = insert-IsMap s.load_id _ r.loads v.is_map;
  filed = λ id t.
      rw lookup-insert
        (ground (arith, v.filed id t, preserve-load_id (Dict.lookup s.load_id r.loads) s));
}

update_entry-IsValid :
    (id : ℕ) (f : LoadState → LoadState) (r : Registry)
    → ((s : LoadState) → (f s).load_id ≡ s.load_id)
    → IsValid r
    → IsValid (update_entry id f r)
unfolding update_entry
update_entry-IsValid id f r keeps v = record {
  is_map = is_map;
  filed = λ j t. rw find-update_entry (filed j t);
}
  where
    is_map : IsMap (update_entry id f r).loads
    is_map = elim (Option-cases (find id r)) [
      | inl e ↦ rw (e, update_entry) v.is_map
      | inr (s, e) ↦ rw (e, update_entry) (insert-IsMap id (f s) r.loads v.is_map)
    ]

    filed :
        (j : ℕ) (t : LoadState)
        → (if id == j then Option.map f (find j r) else find j r) ≡ some t
        → t.load_id ≡ j
    filed j t e = elim (Option-cases (find j r)) [
      | inl gone ↦ ground arith
      | inr (s, here) ↦ ground (arith, v.filed j s, keeps s)
    ]

-- The three writers keep the registry well formed.
pub writers-IsValid :
    (s : LoadState) (id : ℕ) (uuid status message : String) (start finish read written : ℕ)
    (r : Registry)
    → IsValid r
    → IsValid (register s r)
      × IsValid (mark_running id uuid start r)
      × IsValid (mark_finished id status finish read written message r)
unfolding mark_running mark_finished
writers-IsValid s id uuid status message start finish read written r v = (
  register-IsValid s r v,
  update_entry-IsValid id (started uuid start) r (λ s. refl) v,
  update_entry-IsValid id (finished status finish read written message) r (λ s. refl) v,
)
