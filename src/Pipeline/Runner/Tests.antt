-- ===== src/Pipeline/Runner/Tests.antt =====
-- Runs of a load whose sink takes no rows, over a store and a source that keep their promises.
use mathlib.Core.Option
use data_loader.Prelude.{
  ok_inj, ℕ, suc, String, ◌≡◌, ◌≢◌, refl, sym, ap, ◌∙◌, subst, true, false, Option, none, some,
  List, [], ◌∷◌, ◌++◌, lit, arith, ◌==◌, ==_refl, if◌then◌else◌, plain, wrap, Error, ok, err, inl,
  inr, Option-cases, eq_iff,
}
use data_loader.Contracts.{TargetTable, Batch, Row, Watermark, ReadResult, mode_delta, mode_replace}
use data_loader.Metadata
use data_loader.Metadata.{Load, LoadRun}
use data_loader.Config.{resolve_params, resolve_entries}
use data_loader.Sink.Replace.{staging_suffix}
use data_loader.Sink.Replace.Statements.{beside, longer-apart}
use data_loader.Pipeline.Ports.{
  FinishSucceeds, RunStore, RunStoreLaws, AtomicReplacer, AtomicLaws, Sink, SinkLaws, Source,
  SourceLaws, SourceSession,
}
use data_loader.Pipeline.Replace.{new_session, prepare_existing, ensure_first_batch, commit, abort}
use data_loader.Pipeline.Runner.{
  Env, Clock, World, ReadState, execute, target_of, force_append, advances, settle,
  first_batch_replace, first_batch_append, prepare_batch, write_rows, handle_batch, commit_repl,
  abort_repl, record_failure, record_success, after_read, read_load, run_started, run_load,
  source_config, load_config, current_watermark,
}
use data_loader.Pipeline.Runner.Settled.{begun, Reported, execute-Settled}
use data_loader.Pipeline.Runner.Watermarks.{
  failed-watermark, other_modes-watermark, other_loads-watermark, settle-advances,
}
use data_loader.Pipeline.Runner.Atomic.{SourcesKeepContract, failed_replace-live}

-- The watermarks, by load.
abbrev Marks : Type 0
Marks = ℕ → Option String

abbrev mark_row : ℕ → String → Metadata.Watermark
mark_row id v = record {
  load_id = id;
  value = v;
  updated_at = 0;
  previous_value = "";
  reset_at = none;
  reset_reason = "";
}

abbrev new_run : ℕ → LoadRun
new_run id = record {
  id = 1;
  run_uuid = "r1";
  load_id = id;
  status = "running";
  started_at = 100;
  finished_at = none;
  rows_read = 0;
  rows_written = 0;
  watermark_start = "";
  watermark_end = "";
  error_message = "";
  duration_ms = 0;
}

abbrev marks_store : RunStore Marks
marks_store = record {
  get_watermark = λ id m. (ok (Option.map (mark_row id) (m id)), m);
  upsert_watermark = λ id v m. (none, λ j. if id == j then some v else m j);
  start_run = λ id s m. (ok (new_run id), m);
  finish_run = λ run status read written end message m. (none, m);
}

mark_row-value :
    (id : ℕ) (o : Option String) (w : Option Metadata.Watermark)
    → ok (Option.map (mark_row id) o) ≡ ok w
    → Option.map (λ (x : Metadata.Watermark). x.value) w ≡ o
mark_row-value id none w e = ap (Option.map (λ (x : Metadata.Watermark). x.value)) (sym (ok_inj e))
mark_row-value id (some v) w e =
    ap (Option.map (λ (x : Metadata.Watermark). x.value)) (sym (ok_inj e))

differs : (id j : ℕ) → id ≢ j → (id == j) ≡ false
differs id j apart = ground arith

marks_store-RunStoreLaws : RunStoreLaws marks_store
marks_store-RunStoreLaws = record {
  watermark_of = λ id m. m id;
  get_reads = λ id m w e. mark_row-value id (m id) w e;
  get_keeps = λ id j m. refl;
  start_keeps = λ id j s m. refl;
  finish_keeps = λ run status read written end message j m. refl;
  upsert_sets = λ id v m e. rw (==_refl id) refl;
  upsert_keeps = λ id j v m apart. rw (differs id j apart) refl;
  upsert_fails = λ id j v e m bad. cc;
}

marks_store-FinishSucceeds : FinishSucceeds marks_store
marks_store-FinishSucceeds run status read written end message m = refl

-- A sink whose disk is full: it prepares tables and writes no row.
abbrev full_replacer : AtomicReplacer (List Row)
full_replacer = record {
  begin_replace = λ t cols k. (ok (beside t (t.name ++ staging_suffix)), k);
  commit_replace = λ t s k. (none, k);
  abort_replace = λ s k. (none, k);
}

abbrev full_sink : Sink (List Row)
full_sink = record {
  table_exists = λ t k. (ok true, k);
  ensure_table = λ t cols k. (none, k);
  truncate = λ t k. (none, k);
  write_batch = λ t b ts k. (err (plain "disk full"), k);
  atomic = some full_replacer;
}

full_sink-SinkLaws : SinkLaws full_sink
full_sink-SinkLaws = record {
  contents = λ t k. some k;
  exists_keeps = λ t u k. refl;
  write_keeps = λ t u b ts k apart. refl;
}

staging_apart : (t s : TargetTable) → ok (beside t (t.name ++ staging_suffix)) ≡ ok s → s ≢ t
staging_apart t s e same =
    longer-apart t staging_suffix (omega arith) (ap (λ r. elim r [ ok x ↦ x | err m ↦ t ]) e ∙ same)

full_replacer-AtomicLaws : AtomicLaws full_replacer full_sink-SinkLaws.contents
unfolding full_sink-SinkLaws
full_replacer-AtomicLaws = record {
  staging_apart = λ t s cols k e. staging_apart t s e;
  begin_keeps = λ t cols k. refl;
  commit_publishes = λ t s cols k₀ k begun done. refl;
  commit_fails = λ t s e k bad. refl;
  abort_keeps = λ t s k apart. refl;
}

-- A source with one batch.
abbrev one_batch : Batch
one_batch = record { columns = []; rows = [] ∷ [] }

abbrev all_read : ReadResult
all_read = record {
  rows_read = 1;
  new_watermark = record { type = "numeric"; value = "42" };
  watermark_init = true;
}

abbrev one_batch_source : {S : Type 0} → Source S
one_batch_source = record {
  read = λ cfg handler s.
      let (r, s') = handler one_batch s in
      elim r [ some e ↦ ((all_read, some (wrap "read" e)), s') | none ↦ ((all_read, none), s') ];
}

one_batch_source-SourceLaws : {S : Type 0} → SourceLaws (one_batch_source {S = S})
one_batch_source-SourceLaws = record {
  through_handler = λ P cfg handler s step before. elim (Option-cases (handler one_batch s).0) [
    | inl e ↦ rw e (step one_batch s before)
    | inr (m, e) ↦ rw e (step one_batch s before)
  ];
  aborts_on_error = λ P cfg handler s step before. elim (Option-cases (handler one_batch s).0) [
    | inl e ↦ rw e (λ _. step one_batch s before e)
    | inr (m, e) ↦ rw e (λ q. cc)
  ];
}

abbrev sessions : SourceSession ℕ (ReadState (List Row))
sessions = record {
  obtain = λ cfg n. (ok (n, one_batch_source), suc n);
  release = λ lease invalid n. n;
}

sessions-SourcesKeepContract : SourcesKeepContract sessions
sessions-SourcesKeepContract cfg n lease src e =
    subst SourceLaws (ap (λ r. elim r [ ok x ↦ x.1 | err m ↦ one_batch_source ]) e)
      one_batch_source-SourceLaws

abbrev env : Env
env = record {
  unmarshal = λ t. ok [];
  getenv = λ t. [];
  render = λ e. "failed";
  parse_time = λ s. none;
  label = λ t. "dbo.orders";
}

abbrev clock : Clock
clock = record { load_ts = 100; finished_at = 110; lag_at = 110 }

abbrev orders_load : Load
orders_load = record {
  id = 7;
  source_id = 1;
  source = record { id = 1; name = "erp"; kind = "postgres"; params_json = []; is_enabled = true };
  name = "orders";
  object_name = lit "orders";
  target_schema = lit "dbo";
  target_table = lit "orders";
  mode = "delta";
  watermark_column = lit "id";
  watermark_type = "numeric";
  batch_size = 1000;
  auto_create_table = true;
  cron_expression = "* * * * *";
  is_enabled = true;
}

abbrev replace_load : Load
replace_load = record orders_load { mode = "replace"; watermark_type = "none" }

abbrev world : World Marks (List Row) ℕ
world = record {
  repo = λ j. if j == 7 then some "17" else none;
  sink = [] ∷ [];
  sessions = 0;
  registry = record { loads = []; started_at = 0 };
  samples = [];
}

abbrev orders_table : TargetTable
orders_table = target_of replace_load

replace_fails :
    (execute env clock marks_store full_sink sessions replace_load world).0
    ≡ some (wrap "read" (plain "disk full"))
unfolding execute run_load run_started read_load after_read settle record_failure record_success
    force_append resolve_params resolve_entries source_config load_config current_watermark
    handle_batch prepare_batch write_rows first_batch_replace first_batch_append commit_repl
    abort_repl advances new_session prepare_existing ensure_first_batch commit abort
replace_fails = refl

delta_fails :
    (execute env clock marks_store full_sink sessions orders_load world).0
    ≡ some (wrap "read" (plain "disk full"))
unfolding execute run_load run_started read_load after_read settle record_failure record_success
    force_append resolve_params resolve_entries source_config load_config current_watermark
    handle_batch prepare_batch write_rows first_batch_replace first_batch_append commit_repl
    abort_repl advances new_session prepare_existing ensure_first_batch commit abort
delta_fails = refl

replace_mode : (force_append replace_load).mode ≡ mode_replace
unfolding force_append
replace_mode = refl

replace-not_delta : replace_load.mode ≢ mode_delta
replace-not_delta q = let h = (eq_iff "replace" "delta").1 q in cc

abbrev executed : Option Error × World Marks (List Row) ℕ
executed = execute env clock marks_store full_sink sessions orders_load world

failed_replace-live_example :
    full_sink-SinkLaws.contents orders_table
      (execute env clock marks_store full_sink sessions replace_load world).1.sink
    ≡ full_sink-SinkLaws.contents orders_table world.sink
failed_replace-live_example =
    failed_replace-live env clock marks_store full_sink sessions full_sink-SinkLaws full_replacer
      full_replacer-AtomicLaws replace_load world (wrap "read" (plain "disk full")) refl
      marks_store-FinishSucceeds sessions-SourcesKeepContract replace_mode replace_fails

failed-watermark_example :
    marks_store-RunStoreLaws.watermark_of 7
      (execute env clock marks_store full_sink sessions orders_load world).1.repo
    ≡ marks_store-RunStoreLaws.watermark_of 7 world.repo
failed-watermark_example =
    failed-watermark env clock marks_store full_sink sessions marks_store-RunStoreLaws orders_load
      world (wrap "read" (plain "disk full")) 7 marks_store-FinishSucceeds delta_fails

other_modes-watermark_example :
    marks_store-RunStoreLaws.watermark_of 7
      (execute env clock marks_store full_sink sessions replace_load world).1.repo
    ≡ marks_store-RunStoreLaws.watermark_of 7 world.repo
other_modes-watermark_example =
    other_modes-watermark env clock marks_store full_sink sessions marks_store-RunStoreLaws
      replace_load world 7 (inl replace-not_delta)

other_loads-watermark_example :
    marks_store-RunStoreLaws.watermark_of 3
      (execute env clock marks_store full_sink sessions orders_load world).1.repo
    ≡ marks_store-RunStoreLaws.watermark_of 3 world.repo
other_loads-watermark_example =
    other_loads-watermark env clock marks_store full_sink sessions marks_store-RunStoreLaws
      orders_load world 3 (λ q. omega (arith, q))

abbrev stored_at : Watermark
stored_at = record { type = "numeric"; value = "17" }

orders_advance : advances orders_load stored_at all_read ≡ true
unfolding advances
orders_advance = refl

orders_settle :
    (settle env clock marks_store full_sink orders_load (new_run 7) stored_at all_read 1 world).0
    ≡ none
unfolding settle advances record_success
orders_settle = refl

settle-advances_example :
    marks_store-RunStoreLaws.watermark_of 7
      (settle env clock marks_store full_sink orders_load
        (new_run 7)
        stored_at
        all_read
        1
        world).1.repo
    ≡ some "42"
settle-advances_example =
    settle-advances env clock marks_store full_sink sessions marks_store-RunStoreLaws orders_load
      (new_run 7) stored_at all_read 1 world orders_advance orders_settle

execute-Settled_example :
    Reported
      (begun env marks_store sessions orders_load world)
      7
      executed.0
      world.registry
      executed.1.registry
execute-Settled_example = execute-Settled env clock marks_store full_sink sessions orders_load world
