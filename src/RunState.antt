-- ===== src/RunState.antt =====
-- internal/runstate/registry.go: the in-memory registry of load states. Each method runs under the
-- registry's lock, so it is one step; a time is a number, with 0 for Go's zero time.
pub mod History
pub mod Snapshot
mod Tests
use data_loader.Prelude.{
  ℕ, String, Bool, true, false, Option, none, some, List, [], ◌∷◌, ltb, if◌then◌else◌,
}
use data_loader.Prelude.Dict
use data_loader.Prelude.Dict.{Dict}

-- The most recent execution outcome of a single load.
pub record LoadState : Type 0 where
  pub load_id : ℕ
  pub load_name : String
  pub source_name : String
  pub source_kind : String
  pub cron_expression : String
  pub last_run_uuid : String
  pub last_started_at : ℕ
  pub last_finished_at : ℕ
  pub last_status : String
  pub last_rows_read : ℕ
  pub last_rows_written : ℕ
  pub last_error : String
  pub currently_running : Bool

pub record Registry : Type 0 where
  pub loads : Dict LoadState
  pub started_at : ℕ

unfoldable pub new : ℕ → Registry
new now = record { loads = []; started_at = now }

-- The run fields of `existing` in an entry that is registered again.
preserve : Option LoadState → LoadState → LoadState
preserve none s = s
preserve (some existing) s = record s {
  last_run_uuid = existing.last_run_uuid;
  last_started_at = existing.last_started_at;
  last_finished_at = existing.last_finished_at;
  last_status = existing.last_status;
  last_rows_read = existing.last_rows_read;
  last_rows_written = existing.last_rows_written;
  last_error = existing.last_error;
  currently_running = existing.currently_running;
}

unfoldable pub register : LoadState → Registry → Registry
unfolding preserve
register s r = record r {
  loads = Dict.insert s.load_id (preserve (Dict.lookup s.load_id r.loads) s) r.loads;
}

-- `MarkRunning` and `MarkFinished` write through the pointer that the map holds, and leave the
-- map alone when the load is not registered.
update_entry : ℕ → (LoadState → LoadState) → Registry → Registry
update_entry id f r = elim (Dict.lookup id r.loads) [
  | none ↦ r
  | some s ↦ record r { loads = Dict.insert id (f s) r.loads }
]

abbrev pub started : String → ℕ → LoadState → LoadState
started run_uuid started_at s = record s {
  currently_running = true;
  last_run_uuid = run_uuid;
  last_started_at = started_at;
  last_status = "running";
  last_error = "";
}

abbrev pub finished : String → ℕ → ℕ → ℕ → String → LoadState → LoadState
finished status finished_at rows_read rows_written err_msg s = record s {
  currently_running = false;
  last_finished_at = finished_at;
  last_status = status;
  last_rows_read = rows_read;
  last_rows_written = rows_written;
  last_error = err_msg;
}

unfoldable pub mark_running : ℕ → String → ℕ → Registry → Registry
unfolding update_entry
mark_running load_id run_uuid started_at = update_entry load_id (started run_uuid started_at)

unfoldable pub mark_finished : ℕ → String → ℕ → ℕ → ℕ → String → Registry → Registry
unfolding update_entry
mark_finished load_id status finished_at rows_read rows_written err_msg =
    update_entry load_id (finished status finished_at rows_read rows_written err_msg)

-- `sort.Slice` by load id. The ids are distinct, so that it is not stable does not show.
insert_by_id : LoadState → List LoadState → List LoadState
insert_by_id s [] = s ∷ []
insert_by_id s (t ∷ ts) = if ltb t.load_id s.load_id then t ∷ insert_by_id s ts else s ∷ t ∷ ts

sort_by_id : List LoadState → List LoadState
unfolding insert_by_id
sort_by_id [] = []
sort_by_id (s ∷ ss) = insert_by_id s (sort_by_id ss)

-- The entries in the order of the map, which is any, then sorted.
unfoldable pub snapshot : Registry → List LoadState
unfolding sort_by_id
snapshot r = sort_by_id (Dict.values r.loads)
