-- ===== src/Pipeline/Runner.antt =====
-- internal/pipeline/runner.go: `Execute`, one load from end to end. The collaborators are the
-- interfaces of Ports; the clock readings of a run and the standard library's JSON, time and error
-- texts are parameters. Log lines have no effect on the run and are left out.
pub mod Settled
pub mod Watermarks
pub mod Atomic
mod Tests
use data_loader.Prelude.{
  ℕ, ◌+◌, String, Bool, true, false, not, ◌&&◌, ◌||◌, Option, none, some, List, [], ◌∷◌, ◌++◌,
  if◌then◌else◌, str_eq, Text, Error, wrap, Result, ok, err,
}
use data_loader.Contracts.{
  TargetTable, Column, Batch, LoadConfig, ReadResult, SourceConfig, Watermark, mode_append,
  mode_replace, mode_delta, watermark_none, watermark_datetime,
}
use data_loader.Metadata.{Load, LoadRun}
use data_loader.Metadata
use data_loader.Metrics.{Sample, observe_run, observe_watermark_lag}
use data_loader.Config.{resolve_params}
use data_loader.RunState.{Registry, mark_running, mark_finished}
use data_loader.Pipeline.Ports.{RunStore, Sink, Source, SourceSession}
use data_loader.Pipeline.Replace.{
  ReplaceSession, new_session, prepare_existing, ensure_first_batch, commit, abort,
}

-- The standard library and the environment of the process.
pub record Env : Type 0 where
  pub unmarshal : Text → Result (List (Text × Text))
  pub getenv : Text → Text
  -- `err.Error()`
  pub render : Error → String
  pub parse_time : String → Option ℕ
  -- `fmt.Sprintf("%s.%s", schema, name)`
  pub label : TargetTable → String

-- What the clock shows in the course of one run.
pub record Clock : Type 0 where
  pub load_ts : ℕ
  pub finished_at : ℕ
  pub lag_at : ℕ

-- Everything that a run can change.
pub record World (R K P : Type 0) : Type 0 where
  pub repo : R
  pub sink : K
  pub sessions : P
  pub registry : Registry
  pub samples : List Sample

-- The variables that the batch handler closes over.
pub record Locals (K : Type 0) : Type 0 where
  pub rows_written : ℕ
  pub first_batch : Bool
  pub write_target : TargetTable
  pub repl : Option (ReplaceSession K)

abbrev pub ReadState : Type 0 → Type 0
ReadState K = Locals K × K

abbrev pub target_of : Load → TargetTable
target_of load = record { schema = load.target_schema; name = load.target_table }

-- Point-based sources are forced into append mode, with no watermark.
unfoldable pub force_append : Load → Load
force_append load =
    if str_eq load.source.kind "modbus" || str_eq load.source.kind "opcua"
    then record load {
      mode = if str_eq load.mode mode_append then load.mode else mode_append;
      watermark_column = [];
      watermark_type = watermark_none;
    }
    else load

unfoldable pub source_config : Load → List (Text × Text) → SourceConfig
source_config load params = record {
  source_id = load.source_id;
  source_type = load.source.kind;
  name = load.source.name;
  params = params;
}

unfoldable pub load_config : Load → Watermark → LoadConfig
load_config load current = record {
  load_id = load.id;
  name = load.name;
  object_name = load.object_name;
  mode = load.mode;
  watermark_column = load.watermark_column;
  watermark_type = load.watermark_type;
  last_watermark = current;
  batch_size = load.batch_size;
}

unfoldable pub current_watermark : Load → Option Metadata.Watermark → Watermark
current_watermark load none = record { type = load.watermark_type; value = "" }
current_watermark load (some wm) = record { type = load.watermark_type; value = wm.value }

module _ {K : Type 0} (sink : Sink K) where
  -- The part of the handler that runs for the first batch only.
  first_batch_replace :
      Load → List Column → ReplaceSession K → Locals K → K → Option Error × ReadState K
  unfolding ensure_first_batch
  first_batch_replace load cols repl l k =
      let ((r, repl'), k') = ensure_first_batch sink load.auto_create_table cols repl k in
      elim r [
        | some e ↦ (some e, (record l { repl = some repl' }, k'))
        | none ↦ (
          none,
          (record l { repl = some repl'; write_target = repl'.write_to; first_batch = false }, k'),
        )
      ]

  first_batch_append : Load → List Column → Locals K → K → Option Error × ReadState K
  first_batch_append load cols l k =
      if load.auto_create_table
      then (let (r, k') = sink.ensure_table (target_of load) cols k in
          elim r [
            | some e ↦ (some (wrap "ensure target" e), (l, k'))
            | none ↦ (none, (record l { first_batch = false }, k'))
          ])
      else (none, (record l { first_batch = false }, k))

  prepare_batch : Load → List Column → Locals K → K → Option Error × ReadState K
  unfolding first_batch_replace first_batch_append
  prepare_batch load cols l k =
      if l.first_batch
      then (elim l.repl [
        | some repl ↦ first_batch_replace load cols repl l k
        | none ↦ first_batch_append load cols l k
      ])
      else (none, (l, k))

  write_rows : ℕ → Batch → Locals K → K → Option Error × ReadState K
  write_rows ts batch l k =
      let (r, k') = sink.write_batch l.write_target batch ts k in
      elim r [
        | err e ↦ (some e, (l, k'))
        | ok n ↦ (none, (record l { rows_written = l.rows_written + n }, k'))
      ]

  -- The batch handler.
  unfoldable pub handle_batch : Load → ℕ → Batch → ReadState K → Option Error × ReadState K
  unfolding prepare_batch write_rows
  handle_batch load ts batch (l, k) =
      let (r, (l', k')) = prepare_batch load batch.columns l k in
      elim r [ some e ↦ (some e, (l', k')) | none ↦ write_rows ts batch l' k' ]

-- `repl.commit`, if the load is a replace load.
pub commit_repl : {K : Type 0} → ReadState K → Option Error × ReadState K
unfolding commit
commit_repl (l, k) = elim l.repl [
  | none ↦ (none, (l, k))
  | some repl ↦ let ((r, repl'), k') = commit repl k in (r, (record l { repl = some repl' }, k'))
]

-- The deferred `repl.abort`. It touches the sink alone, which nothing after the commit reads, so it
-- stands where the sink is last used.
pub abort_repl : {K : Type 0} → ReadState K → K
unfolding abort
abort_repl (l, k) = elim l.repl [ none ↦ k | some repl ↦ abort repl k ]

-- Whether the new watermark is stored.
pub advances : Load → Watermark → ReadResult → Bool
advances load current result =
    str_eq load.mode mode_delta
    && not (str_eq result.new_watermark.value "")
    && (result.watermark_init || not (str_eq result.new_watermark.value current.value))

module _ {R K P : Type 0} (env : Env) (clock : Clock) (store : RunStore R) (sink : Sink K) where
  -- A failed run: the row, whose error is dropped, the registry, and the metrics if they are observed.
  record_failure : Bool → Load → LoadRun → String → ℕ → ℕ → Error → World R K P → World R K P
  record_failure observed load run start read written e w = record w {
    repo = (store.finish_run run "failed" read written start (env.render e) w.repo).1;
    registry =
        mark_finished load.id "failed" clock.finished_at read written (env.render e) w.registry;
    samples =
        w.samples
        ++ (if observed
            then observe_run load.name "failed" (env.label (target_of load)) read written
            else []);
  }

  -- The end of a run that has read and committed: `FinishRun`, and what follows its outcome.
  record_success : Load → LoadRun → String → ℕ → ℕ → World R K P → Option Error × World R K P
  record_success load run end read written w =
      let (r, repo') = store.finish_run run "success" read written end "" w.repo in
      elim r [
        | some e ↦ (
          some e,
          record w {
            repo = repo';
            registry =
                mark_finished load.id "failed" clock.finished_at read written (env.render e)
                  w.registry;
            samples =
                w.samples
                ++ observe_run load.name "failed" (env.label (target_of load)) read written;
          },
        )
        | none ↦ (
          none,
          record w {
            repo = repo';
            registry = mark_finished load.id "success" clock.finished_at read written "" w.registry;
            samples =
                (w.samples
                  ++ observe_run load.name "success" (env.label (target_of load)) read written)
                ++ (if str_eq load.mode mode_delta && str_eq load.watermark_type watermark_datetime
                    then observe_watermark_lag env.parse_time load.name end clock.lag_at
                    else []);
          },
        )
      ]

  -- From the stored watermark to the end of the run; a failed upsert fails the run (D-04).
  pub settle :
      Load → LoadRun → Watermark → ReadResult → ℕ → World R K P → Option Error × World R K P
  settle load run current result written w =
      if advances load current result
      then (let (r, repo') = store.upsert_watermark load.id result.new_watermark.value w.repo in
          elim r [
            | some e ↦ (
              some (wrap "update watermark" e),
              record_failure true load run current.value result.rows_read written
                  (wrap "update watermark" e) (record w { repo = repo' }),
            )
            | none ↦
                record_success load run result.new_watermark.value result.rows_read written
                  (record w { repo = repo' })
          ])
      else record_success load run result.new_watermark.value result.rows_read written w

  -- After the read: commit, then the end of the run; then the deferred abort.
  after_read :
      Load
      → LoadRun
      → Watermark
      → ReadResult
      → ReadState K
      → World R K P
      → Option Error × World R K P
  after_read load run current result st w =
      let (r, (l, k)) = commit_repl st in
      let w' = record w { sink = abort_repl (l, k) } in
      elim r [
        | some e ↦ (
          some e,
          record_failure true load run current.value result.rows_read l.rows_written e w',
        )
        | none ↦ settle load run current result l.rows_written w'
      ]

  -- The read, with what is returned beside the error: whether to drop the connection.
  read_load :
      Load
      → LoadRun
      → Watermark
      → Source (ReadState K)
      → Locals K
      → World R K P
      → (Option Error × Bool) × World R K P
  read_load load run current src l w =
      let ((result, r), st) =
        src.read (load_config load current) (handle_batch sink load clock.load_ts) (l, w.sink) in
      elim r [
        | some e ↦ (
          (some e, true),
          record_failure true load run current.value result.rows_read (st.0).rows_written e
              (record w { sink = abort_repl st }),
        )
        | none ↦ let (r', w') = after_read load run current result st w in ((r', false), w')
      ]

  -- From `MarkRunning` on.
  run_started :
      Load
      → LoadRun
      → Watermark
      → Source (ReadState K)
      → World R K P
      → (Option Error × Bool) × World R K P
  run_started load run current src w =
      if str_eq load.mode mode_replace
      then (let ((r, repl), k) = prepare_existing sink (new_session sink (target_of load)) w.sink in
          elim r [
            | some e ↦ (
              (some e, false),
              record_failure false load run current.value 0 0 e (record w { sink = k }),
            )
            | none ↦
                read_load load run current src
                  (record {
                    rows_written = 0;
                    first_batch = true;
                    write_target = repl.write_to;
                    repl = some repl;
                  })
                  (record w { sink = k })
          ])
      else read_load load run current src
          (record {
            rows_written = 0;
            first_batch = true;
            write_target = target_of load;
            repl = none;
          })
          w

  -- What is done with an obtained source.
  run_load : Load → Source (ReadState K) → World R K P → (Option Error × Bool) × World R K P
  run_load load src w =
      let (r, repo') = store.get_watermark load.id w.repo in
      elim r [
        | err e ↦ ((some e, false), record w { repo = repo' })
        | ok wm ↦
            let current = current_watermark load wm in
            let (r', repo'') = store.start_run load.id current.value repo' in
            elim r' [
              | err e ↦ ((some e, false), record w { repo = repo'' })
              | ok run ↦ run_started load run current src (record w {
                repo = repo'';
                registry = mark_running load.id run.run_uuid run.started_at w.registry;
              })
            ]
      ]

  -- `Execute`.
  pub execute : SourceSession P (ReadState K) → Load → World R K P → Option Error × World R K P
  execute sessions given w =
      let load = force_append given in
      elim (resolve_params env.unmarshal env.getenv load.source.params_json) [
        | err e ↦ (some e, w)
        | ok params ↦
            let (r, p) = sessions.obtain (source_config load params) w.sessions in
            elim r [
              | err e ↦ (some e, record w { sessions = p })
              | ok (lease, src) ↦
                  let ((e, invalidate), w') = run_load load src (record w { sessions = p }) in
                  (e, record w' { sessions = sessions.release lease invalidate w'.sessions })
            ]
      ]
