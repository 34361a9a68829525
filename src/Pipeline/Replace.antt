-- ===== src/Pipeline/Replace.antt =====
-- internal/pipeline/replace.go: the staging swap of a replace load (ADR-020), over any sink. The
-- field `legacy` of the source is true exactly when `atomic` is nil, so it is a test here.
pub mod Staging
use data_loader.Prelude.{
  ℕ, Bool, true, false, ◌&&◌, ◌||◌, Option, none, some, List, [], if◌then◌else◌, Error, wrap,
  Result, ok, err,
}
use data_loader.Contracts.{TargetTable, Column}
use data_loader.Pipeline.Ports.{Sink, AtomicReplacer}

pub record ReplaceSession (K : Type 0) : Type 0 where
  pub atomic : Option (AtomicReplacer K)
  pub live : TargetTable
  pub write_to : TargetTable
  pub staging : TargetTable
  pub active : Bool
  pub committed : Bool

abbrev pub no_table : TargetTable
no_table = record { schema = []; name = [] }

module _ {K : Type 0} where
  -- The test of `legacy`, with the replacer in hand where it is false.
  on_replacer {ℓ} : {A : Type ℓ} → Option (AtomicReplacer K) → A → (AtomicReplacer K → A) → A
  on_replacer none legacy atomic = legacy
  on_replacer (some ar) legacy atomic = atomic ar

  -- `newReplaceSession`.
  unfoldable pub new_session : Sink K → TargetTable → ReplaceSession K
  new_session sink live = record {
    atomic = sink.atomic;
    live = live;
    write_to = live;
    staging = no_table;
    active = false;
    committed = false;
  }

  -- `s.atomic.BeginReplace` and what both callers do with its result.
  begin_staging :
      AtomicReplacer K → List Column → ReplaceSession K → K → (Option Error × ReplaceSession K) × K
  begin_staging ar cols s k =
      let (r, k') = ar.begin_replace s.live cols k in
      elim r [
        | err e ↦ ((some (wrap "begin replace" e), s), k')
        | ok stg ↦ ((none, record s { staging = stg; write_to = stg; active = true }), k')
      ]

  -- Truncate before the read: the fallback for a sink that cannot replace atomically.
  prepare_legacy : Sink K → ReplaceSession K → K → (Option Error × ReplaceSession K) × K
  prepare_legacy sink s k =
      let (r, k') = sink.table_exists s.live k in
      elim r [
        | err e ↦ ((some e, s), k')
        | ok exists ↦
            if exists
            then (let (t, k'') = sink.truncate s.live k' in
                elim t [
                  | some e ↦ ((some (wrap "truncate target" e), s), k'')
                  | none ↦ ((none, s), k'')
                ])
            else ((none, s), k')
      ]

  prepare_atomic :
      AtomicReplacer K → Sink K → ReplaceSession K → K → (Option Error × ReplaceSession K) × K
  unfolding begin_staging
  prepare_atomic ar sink s k =
      let (r, k') = sink.table_exists s.live k in
      elim r [
        | err e ↦ ((some e, s), k')
        | ok exists ↦ if exists then begin_staging ar [] s k' else ((none, s), k')
      ]

  -- `prepareExisting`.
  unfoldable pub prepare_existing :
      Sink K → ReplaceSession K → K → (Option Error × ReplaceSession K) × K
  unfolding on_replacer prepare_legacy prepare_atomic
  prepare_existing sink s k =
      on_replacer s.atomic (prepare_legacy sink s k) (λ ar. prepare_atomic ar sink s k)

  ensure_legacy :
      Sink K → Bool → List Column → ReplaceSession K → K → (Option Error × ReplaceSession K) × K
  ensure_legacy sink auto_create cols s k =
      if auto_create
      then (let (r, k') = sink.ensure_table s.live cols k in
          elim r [ some e ↦ ((some (wrap "ensure target" e), s), k') | none ↦ ((none, s), k') ])
      else ((none, s), k)

  -- `ensureFirstBatch`.
  unfoldable pub ensure_first_batch :
      Sink K → Bool → List Column → ReplaceSession K → K → (Option Error × ReplaceSession K) × K
  unfolding on_replacer ensure_legacy begin_staging
  ensure_first_batch sink auto_create cols s k =
      on_replacer s.atomic (ensure_legacy sink auto_create cols s k)
        (λ ar. if s.active then ((none, s), k) else begin_staging ar cols s k)

  commit_staging : AtomicReplacer K → ReplaceSession K → K → (Option Error × ReplaceSession K) × K
  commit_staging ar s k =
      let (r, k') = ar.commit_replace s.live s.staging k in
      elim r [
        | some e ↦ ((some (wrap "commit replace" e), s), k')
        | none ↦ ((none, record s { committed = true }), k')
      ]

  -- `commit`.
  unfoldable pub commit : ReplaceSession K → K → (Option Error × ReplaceSession K) × K
  unfolding on_replacer commit_staging
  commit s k =
      on_replacer s.atomic (((none, s), k))
        (λ ar. if s.active then commit_staging ar s k else ((none, s), k))

  -- `abort`; the error of `AbortReplace` is dropped.
  unfoldable pub abort : ReplaceSession K → K → K
  unfolding on_replacer
  abort s k =
      on_replacer s.atomic k (λ ar.
        if s.active then (if s.committed then k else (ar.abort_replace s.staging k).1) else k)
