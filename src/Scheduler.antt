-- ===== src/Scheduler.antt =====
-- internal/scheduler/scheduler.go: which loads are on cron, and which of them run. The cron library
-- and the metadata repository are parameters; a section under the mutex is one step. Go visits a map
-- in any order; here the entries are visited in the order in which they were added.
pub mod Overlap
pub mod Reload
pub mod Jobs
mod Tests
use data_loader.Prelude.{
  ℕ, String, Bool, true, false, Option, none, some, List, [], ◌∷◌, ◌++◌, if◌then◌else◌, str_eq,
  Text, lit, Error, Result, ok, err, ltb,
}
use data_loader.Prelude.Dict
use data_loader.Prelude.Dict.{Dict}
use data_loader.Metadata.{Load}
use data_loader.RunState.{LoadState, Registry, register}
use data_loader.Metrics.{Sample, observe_overlap_skip}

-- `cron.Cron`: an entry is a job for a load, under a number.
pub record Cron (C : Type 0) : Type 0 where
  pub add_func : String → ℕ → C → Result ℕ × C
  pub remove : ℕ → C → C

-- The interface `RunAborter`.
pub record RunAborter (R : Type 0) : Type 0 where
  pub abort_running_runs : String → R → Result ℕ × R
  pub list_enabled_loads : R → Result (List Load) × R
  pub metadata_fingerprint : R → Result String × R

pub record ScheduledLoad : Type 0 where
  pub load : Load
  pub entry_id : ℕ

pub record Scheduler (C R : Type 0) : Type 0 where
  pub cron : C
  pub repo : R
  pub state : Registry
  pub scheduled : Dict ScheduledLoad
  pub running : Dict Bool
  pub fingerprint : String
  pub samples : List Sample

-- `desiredByID`.
unfoldable pub add_desired : Dict Load → List Load → Dict Load
add_desired m [] = m
add_desired m (ld ∷ lds) = add_desired (Dict.insert ld.id ld m) lds

abbrev pub by_id : List Load → Dict Load
by_id desired = add_desired [] desired

-- The first loop of `Reload`: what is no longer desired leaves cron and the map.
unfoldable pub drop_stale :
    {C : Type 0} → Cron C → Dict Load → Dict ScheduledLoad → C → Dict ScheduledLoad × C
drop_stale cr desired [] c = ([], c)
drop_stale cr desired ((id, entry) ∷ m) c =
    let gone = drop_stale cr desired m (cr.remove entry.entry_id c) in
    let (m', c') = drop_stale cr desired m c in
    elim (Dict.lookup id desired) [ none ↦ gone | some _ ↦ ((id, entry) ∷ m', c') ]

-- The body of the second loop, for one desired load.
unfoldable pub sync_load :
    {C : Type 0} → Cron C → ℕ → Load → Dict ScheduledLoad → C → Dict ScheduledLoad × C
sync_load cr id ld m c = elim (Dict.lookup id m) [
  | none ↦
      let (r, c') = cr.add_func ld.cron_expression ld.id c in
      elim r [
        | err e ↦ (m, c')
        | ok entry_id ↦ (Dict.insert id (record { load = ld; entry_id = entry_id }) m, c')
      ]
  | some existing ↦
      if str_eq existing.load.cron_expression ld.cron_expression
      then (Dict.insert id (record existing { load = ld }) m, c)
      else let (r, c') = cr.add_func ld.cron_expression ld.id (cr.remove existing.entry_id c) in
        elim r [
          | err e ↦ (m, c')
          | ok entry_id ↦ (Dict.insert id (record { load = ld; entry_id = entry_id }) m, c')
        ]
]

-- The second loop.
unfoldable pub sync_loads :
    {C : Type 0} → Cron C → Dict Load → Dict ScheduledLoad → C → Dict ScheduledLoad × C
unfolding sync_load
sync_loads cr [] m c = (m, c)
sync_loads cr ((id, ld) ∷ lds) m c =
    let (m', c') = sync_load cr id ld m c in sync_loads cr lds m' c'

abbrev load_state : Load → LoadState
load_state ld = record {
  load_id = ld.id;
  load_name = ld.name;
  source_name = ld.source.name;
  source_kind = ld.source.kind;
  cron_expression = ld.cron_expression;
  last_run_uuid = "";
  last_started_at = 0;
  last_finished_at = 0;
  last_status = "";
  last_rows_read = 0;
  last_rows_written = 0;
  last_error = "";
  currently_running = false;
}

-- The loop that registers the desired loads.
unfoldable pub register_loads : List Load → Registry → Registry
register_loads [] r = r
register_loads (ld ∷ lds) r = register_loads lds (register (load_state ld) r)

-- The part of `Reload` under the mutex.
unfoldable pub synchronise :
    {C R : Type 0} → Cron C → String → List Load → Scheduler C R → Scheduler C R
unfolding add_desired drop_stale sync_loads register_loads
synchronise cr fp desired s =
    let (kept, c1) = drop_stale cr (by_id desired) s.scheduled s.cron in
    let (scheduled', c2) = sync_loads cr (by_id desired) kept c1 in
    record s {
      cron = c2;
      scheduled = scheduled';
      state = register_loads desired s.state;
      fingerprint = fp;
    }

-- `Reload`.
unfoldable pub reload :
    {C R : Type 0} → Cron C → RunAborter R → Scheduler C R → Option Error × Scheduler C R
unfolding synchronise
reload cr ra s =
    let (fp_result, repo1) = ra.metadata_fingerprint s.repo in
    let s1 = record s { repo = repo1 } in
    elim fp_result [
      | err e ↦ (some e, s1)
      | ok fp ↦
          if str_eq fp s.fingerprint
          then (none, s1)
          else let (loads, repo2) = ra.list_enabled_loads repo1 in
            let s2 = record s1 { repo = repo2 } in
            elim loads [ err e ↦ (some e, s2) | ok desired ↦ (none, synchronise cr fp desired s2) ]
    ]

-- `Load`.
unfoldable pub load_all :
    {C R : Type 0} → Cron C → RunAborter R → Scheduler C R → Option Error × Scheduler C R
unfolding reload
load_all cr ra s =
    let (r, repo') = ra.abort_running_runs "aborted: orphaned running row at startup" s.repo in
    let s' = record s { repo = repo' } in elim r [ err e ↦ (some e, s') | ok n ↦ reload cr ra s' ]

-- What `trigger` does after its first section under the mutex.
pub data Trigger : Type 0 where
  not_scheduled : Trigger
  overlapping : Trigger
  execute : Load → Trigger

abbrev pub is_running : ℕ → Dict Bool → Bool
is_running id m = elim (Dict.lookup id m) [ none ↦ false | some b ↦ b ]

unfoldable pub trigger_begin : {C R : Type 0} → ℕ → Scheduler C R → Trigger × Scheduler C R
trigger_begin id s = elim (Dict.lookup id s.scheduled) [
  | none ↦ (not_scheduled, s)
  | some entry ↦
      if is_running id s.running
      then (overlapping, record s { samples = s.samples ++ observe_overlap_skip entry.load.name })
      else (execute entry.load, record s { running = Dict.insert id true s.running })
]

-- The deferred end of `trigger`, whatever `Execute` returned.
unfoldable pub trigger_end : {C R : Type 0} → ℕ → Scheduler C R → Scheduler C R
trigger_end id s = record s { running = Dict.delete id s.running }
