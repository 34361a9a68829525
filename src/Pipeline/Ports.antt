-- ===== src/Pipeline/Ports.antt =====
-- The interfaces behind the runner: `RunStore` (internal/pipeline/store.go), `SourceSession`
-- (internal/pipeline/session.go), and `Source`, `Sink` and `AtomicReplacer` (pkg/contracts), each over
-- an abstract state of its implementation, with the behaviour that they document as records of laws.
use mathlib.Core.Option
use data_loader.Prelude.{ℕ, String, ◌≡◌, ◌≢◌, Bool, Option, none, some, List, Error, Result, ok}
use data_loader.Contracts.{TargetTable, Column, Batch, Row, LoadConfig, ReadResult, SourceConfig}
use data_loader.Metadata.{LoadRun}
use data_loader.Metadata

pub record RunStore (R : Type 0) : Type 0 where
  pub get_watermark : ℕ → R → Result (Option Metadata.Watermark) × R
  pub upsert_watermark : ℕ → String → R → Option Error × R
  pub start_run : ℕ → String → R → Result LoadRun × R
  -- run, status, rows read, rows written, watermark end, error message
  pub finish_run : LoadRun → String → ℕ → ℕ → String → String → R → Option Error × R

-- What a store promises about the watermark that it keeps for each load.
pub record RunStoreLaws {R : Type 0} (store : RunStore R) : Type 0 where
  pub watermark_of : ℕ → R → Option String
  pub get_reads :
      (id : ℕ) (r : R) (w : Option Metadata.Watermark)
      → (store.get_watermark id r).0 ≡ ok w
      → Option.map (λ (x : Metadata.Watermark). x.value) w ≡ watermark_of id r
  pub get_keeps :
      (id j : ℕ) (r : R) → watermark_of j (store.get_watermark id r).1 ≡ watermark_of j r
  pub start_keeps :
      (id j : ℕ) (s : String) (r : R) → watermark_of j (store.start_run id s r).1 ≡ watermark_of j r
  pub finish_keeps :
      (run : LoadRun) (status : String) (read written : ℕ) (end message : String) (j : ℕ) (r : R)
      → watermark_of j (store.finish_run run status read written end message r).1 ≡ watermark_of j r
  pub upsert_sets :
      (id : ℕ) (v : String) (r : R)
      → (store.upsert_watermark id v r).0 ≡ none
      → watermark_of id (store.upsert_watermark id v r).1 ≡ some v
  pub upsert_keeps :
      (id j : ℕ) (v : String) (r : R)
      → id ≢ j
      → watermark_of j (store.upsert_watermark id v r).1 ≡ watermark_of j r
  pub upsert_fails :
      (id j : ℕ) (v : String) (e : Error) (r : R)
      → (store.upsert_watermark id v r).0 ≡ some e
      → watermark_of j (store.upsert_watermark id v r).1 ≡ watermark_of j r

-- The store never fails to finish a run.
abbrev pub FinishSucceeds : {R : Type 0} → RunStore R → Type 0
FinishSucceeds {R} store =
    (run : LoadRun) (status : String) (read written : ℕ) (end message : String) (r : R)
    → (store.finish_run run status read written end message r).0 ≡ none

pub record AtomicReplacer (K : Type 0) : Type 0 where
  pub begin_replace : TargetTable → List Column → K → Result TargetTable × K
  pub commit_replace : TargetTable → TargetTable → K → Option Error × K
  pub abort_replace : TargetTable → K → Option Error × K

pub record Sink (K : Type 0) : Type 0 where
  pub table_exists : TargetTable → K → Result Bool × K
  pub ensure_table : TargetTable → List Column → K → Option Error × K
  pub truncate : TargetTable → K → Option Error × K
  -- target, batch, load timestamp; the number of rows written
  pub write_batch : TargetTable → Batch → ℕ → K → Result ℕ × K
  -- the result of the type assertion `sink.(contracts.AtomicReplacer)`
  pub atomic : Option (AtomicReplacer K)

-- What a sink promises about the rows of its tables; `none` for a table that does not exist.
pub record SinkLaws {K : Type 0} (sink : Sink K) : Type 0 where
  pub contents : TargetTable → K → Option (List Row)
  pub exists_keeps :
      (t u : TargetTable) (k : K) → contents u (sink.table_exists t k).1 ≡ contents u k
  pub write_keeps :
      (t u : TargetTable) (b : Batch) (ts : ℕ) (k : K)
      → t ≢ u
      → contents u (sink.write_batch t b ts k).1 ≡ contents u k

-- What an atomic replacer promises about the same tables (ADR-020): staging is another table than
-- the target; nothing but a commit that succeeds touches the target, which then has the rows of
-- its staging table.
pub record AtomicLaws {K : Type 0} (ar : AtomicReplacer K)
    (contents : TargetTable → K → Option (List Row)) : Type 0 where
  pub staging_apart :
      (t s : TargetTable) (cols : List Column) (k : K)
      → (ar.begin_replace t cols k).0 ≡ ok s
      → s ≢ t
  pub begin_keeps :
      (t : TargetTable) (cols : List Column) (k : K)
      → contents t (ar.begin_replace t cols k).1 ≡ contents t k
  pub commit_publishes :
      (t s : TargetTable) (cols : List Column) (k₀ k : K)
      → (ar.begin_replace t cols k₀).0 ≡ ok s
      → (ar.commit_replace t s k).0 ≡ none
      → contents t (ar.commit_replace t s k).1 ≡ contents s k
  pub commit_fails :
      (t s : TargetTable) (e : Error) (k : K)
      → (ar.commit_replace t s k).0 ≡ some e
      → contents t (ar.commit_replace t s k).1 ≡ contents t k
  pub abort_keeps :
      (t s : TargetTable) (k : K) → s ≢ t → contents t (ar.abort_replace s k).1 ≡ contents t k

-- A source as its reader sees it: `Read` calls the handler for its batches, one after the other, and
-- `S` is what the handler's closure can change.
pub record Source (S : Type 0) : Type 0 where
  pub read : LoadConfig → (Batch → S → Option Error × S) → S → (ReadResult × Option Error) × S

-- `Read` changes the state of its caller through the handler alone, and an error of the handler
-- aborts the read, which then reports an error.
pub record SourceLaws {S : Type 0} (src : Source S) : Type 1 where
  pub through_handler :
      (P : S → Type 0) (cfg : LoadConfig) (handler : Batch → S → Option Error × S) (s : S)
      → ((b : Batch) (t : S) → P t → P (handler b t).1)
      → P s
      → P (src.read cfg handler s).1
  pub aborts_on_error :
      (P : S → Type 0) (cfg : LoadConfig) (handler : Batch → S → Option Error × S) (s : S)
      → ((b : Batch) (t : S) → P t → (handler b t).0 ≡ none → P (handler b t).1)
      → P s
      → (src.read cfg handler s).0.1 ≡ none
      → P (src.read cfg handler s).1

-- `Obtain` hands out an opened source with a lease, and `release invalidate` ends the lease.
pub record SourceSession (P S : Type 0) : Type 0 where
  pub obtain : SourceConfig → P → Result (ℕ × Source S) × P
  pub release : ℕ → Bool → P → P
