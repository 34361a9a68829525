-- ===== src/Metadata/Repository.antt =====
-- internal/metadata/repository.go: the repository of watermarks and load runs over its database, which
-- is a parameter. Times are milliseconds.
pub mod Marks
use mathlib.Core.Option
use data_loader.Prelude.{
  ℕ, ◌≡◌, ◌==◌, map, count, ◌-◌, String, Bool, Option, none, some, List, [], ◌∷◌, if◌then◌else◌,
  str_eq, Error, Result, ok, err,
}
use data_loader.Metadata.{Watermark, LoadRun}
use data_loader.Pipeline.Ports.{RunStore}

-- What the repository calls of gorm, on the tables `meta_watermarks` and `meta_load_runs`, with the
-- clock and `uuid.NewString`. A first row that is not found is `none`.
pub record MetaDb (D : Type 0) : Type 0 where
  pub now : D → ℕ
  pub new_uuid : D → String
  pub first_watermark : ℕ → D → Result (Option Watermark) × D
  pub create_watermark : Watermark → D → Option Error × D
  pub save_watermark : Watermark → D → Option Error × D
  -- `Where("load_id = ?").Updates`
  pub update_watermarks : ℕ → (Watermark → Watermark) → D → Option Error × D
  pub transaction : (D → Option Error × D) → D → Option Error × D
  pub create_run : LoadRun → D → Result LoadRun × D
  pub save_run : LoadRun → D → Option Error × D
  -- `Where(...).Updates`, with `RowsAffected`
  pub update_runs : (LoadRun → Bool) → (LoadRun → LoadRun) → D → Result ℕ × D

abbrev pub running : String
running = "running"

abbrev pub is_running : LoadRun → Bool
is_running run = str_eq run.status running

abbrev reason_or : String → String
reason_or reason = if str_eq reason "" then "aborted" else reason

-- The columns that `AbortRunningRuns` sets.
abbrev pub abort_run : ℕ → String → LoadRun → LoadRun
abort_run now reason run = record run {
  status = "aborted";
  finished_at = some now;
  error_message = reason_or reason;
  duration_ms = now - run.started_at;
}

abbrev pub new_watermark : ℕ → String → ℕ → Watermark
new_watermark load_id value now = record {
  load_id = load_id;
  value = value;
  updated_at = now;
  previous_value = "";
  reset_at = none;
  reset_reason = "";
}

abbrev pub next_watermark : String → ℕ → Watermark → Watermark
next_watermark value now existing = record existing {
  previous_value = existing.value;
  value = value;
  updated_at = now;
}

-- The columns that `ResetWatermark` sets.
abbrev pub reset_columns : String → ℕ → Watermark → Watermark
reset_columns reason now w = record w {
  previous_value = w.value;
  value = "";
  reset_at = some now;
  reset_reason = reason;
  updated_at = now;
}

module _ {D : Type 0} (db : MetaDb D) where
  -- `AbortRunningRuns`.
  unfoldable pub abort_running_runs : String → D → Result ℕ × D
  abort_running_runs reason d = db.update_runs is_running (abort_run (db.now d) reason) d

  -- `GetWatermark`.
  unfoldable pub get_watermark : ℕ → D → Result (Option Watermark) × D
  get_watermark load_id d = db.first_watermark load_id d

  -- The function that `UpsertWatermark` gives to the transaction.
  unfoldable pub upsert_in : ℕ → String → D → Option Error × D
  upsert_in load_id value d =
      let (r, d') = db.first_watermark load_id d in
      elim r [
        | err e ↦ (some e, d')
        | ok found ↦ elim found [
          | none ↦ db.create_watermark (new_watermark load_id value (db.now d')) d'
          | some existing ↦ db.save_watermark (next_watermark value (db.now d') existing) d'
        ]
      ]

  -- `UpsertWatermark`.
  unfoldable pub upsert_watermark : ℕ → String → D → Option Error × D
  unfolding upsert_in
  upsert_watermark load_id value d = db.transaction (upsert_in load_id value) d

  -- `ResetWatermark`.
  unfoldable pub reset_watermark : ℕ → String → D → Option Error × D
  reset_watermark load_id reason d =
      db.update_watermarks load_id (reset_columns reason (db.now d)) d

  -- `StartRun`; the database fills in the key.
  unfoldable pub start_run : ℕ → String → D → Result LoadRun × D
  start_run load_id watermark_start d =
      db.create_run
        (record {
          id = 0;
          run_uuid = db.new_uuid d;
          load_id = load_id;
          status = running;
          started_at = db.now d;
          finished_at = none;
          rows_read = 0;
          rows_written = 0;
          watermark_start = watermark_start;
          watermark_end = "";
          error_message = "";
          duration_ms = 0;
        })
        d

  -- `FinishRun`.
  unfoldable pub finish_run : LoadRun → String → ℕ → ℕ → String → String → D → Option Error × D
  finish_run run status rows_read rows_written watermark_end message d =
      db.save_run
        (record run {
          finished_at = some (db.now d);
          status = status;
          rows_read = rows_read;
          rows_written = rows_written;
          watermark_end = watermark_end;
          error_message = message;
          duration_ms = db.now d - run.started_at;
        })
        d

  -- The repository as the runner sees it.
  abbrev pub repository : RunStore D
  repository = record {
    get_watermark = get_watermark;
    upsert_watermark = upsert_watermark;
    start_run = start_run;
    finish_run = finish_run;
  }

-- What the database promises of its table of watermarks: a row for a load, by its primary key. A
-- transaction keeps the changes of its function if both succeed, and none of them otherwise.
pub record MetaDbLaws {D : Type 0} (db : MetaDb D) : Type 0 where
  pub mark : D → ℕ → Option Watermark
  pub keyed : (d : D) (id : ℕ) (w : Watermark) → mark d id ≡ some w → w.load_id ≡ id
  pub first_reads :
      (id : ℕ) (d : D) (found : Option Watermark)
      → (db.first_watermark id d).0 ≡ ok found
      → mark d id ≡ found
  pub first_keeps : (id : ℕ) (d : D) (at : ℕ) → mark (db.first_watermark id d).1 at ≡ mark d at
  pub create_puts :
      (w : Watermark) (d : D)
      → (db.create_watermark w d).0 ≡ none
      → (at : ℕ)
      → mark (db.create_watermark w d).1 at ≡ (if w.load_id == at then some w else mark d at)
  pub save_puts :
      (w : Watermark) (d : D)
      → (db.save_watermark w d).0 ≡ none
      → (at : ℕ)
      → mark (db.save_watermark w d).1 at ≡ (if w.load_id == at then some w else mark d at)
  pub commits :
      (f : D → Option Error × D) (d : D)
      → (db.transaction f d).0 ≡ none
      → ((f d).0 ≡ none) × ((at : ℕ) → mark (db.transaction f d).1 at ≡ mark (f d).1 at)
  pub rolls_back :
      (f : D → Option Error × D) (d : D) (e : Error)
      → (db.transaction f d).0 ≡ some e
      → (at : ℕ) → mark (db.transaction f d).1 at ≡ mark d at
  pub create_run_keeps :
      (run : LoadRun) (d : D) (at : ℕ) → mark (db.create_run run d).1 at ≡ mark d at
  pub save_run_keeps : (run : LoadRun) (d : D) (at : ℕ) → mark (db.save_run run d).1 at ≡ mark d at
