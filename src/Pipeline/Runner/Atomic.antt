-- ===== src/Pipeline/Runner/Atomic.antt =====
-- A replace load over an atomic sink changes its live table by a commit or not at all.
mod Batches
use data_loader.Prelude.{
  ℕ, ◌≡◌, ◌≢◌, ◌∙◌, refl, sym, ap, subst, Bool, true, false, Option, none, some, List, arith,
  str_eq, eq_iff, Error, ok, Option-cases, Result-cases, inl, inr,
}
use data_loader.Contracts.{
  SourceConfig, Watermark, Row, Batch, Column, TargetTable, ReadResult, mode_replace,
}
use data_loader.Metadata.{Load, LoadRun}
use data_loader.Config.{resolve_params}
use data_loader.Pipeline.Ports.{
  FinishSucceeds, RunStore, Sink, SinkLaws, AtomicReplacer, AtomicLaws, Source, SourceLaws,
  SourceSession,
}
use data_loader.Pipeline.Replace.{
  ReplaceSession, new_session, prepare_existing, ensure_first_batch, commit, abort,
}
use data_loader.Pipeline.Replace.Staging.{
  IsStaged, prepare_existing-kept, ensure_first_batch-Opened, abort-kept, commit-kept,
}
use data_loader.Pipeline.Runner.{
  target_of, force_append, source_config, current_watermark, Env, Clock, World, Locals, ReadState,
  advances, record_failure, record_success, settle, after_read, read_load, run_started, run_load,
  execute, commit_repl, abort_repl, handle_batch, load_config, prepare_batch, write_rows,
  first_batch_replace,
}
use data_loader.Pipeline.Runner.Atomic.Batches.{
  Between, handle_batch-Between, abort_repl-kept, failed_commit-kept,
}

advances-replace :
    (load : Load) (current : Watermark) (result : ReadResult)
    → str_eq load.mode mode_replace ≡ true
    → advances load current result ≡ false
unfolding advances
advances-replace load current result h = rw ((eq_iff load.mode mode_replace).0 h) refl

module _ {R K P : Type 0} (env : Env) (clock : Clock) (store : RunStore R) (sink : Sink K)
    (finish : FinishSucceeds store) where
  settle-succeeds :
      (load : Load) (run : LoadRun) (current : Watermark) (result : ReadResult) (written : ℕ)
      (w : World R K P)
      → str_eq load.mode mode_replace ≡ true
      → (settle env clock store sink load run current result written w).0 ≡ none
  unfolding settle record_success
  settle-succeeds load run current result written w h =
      rw (advances-replace load current result h, settle)
        (rw
          (
            finish run "success" result.rows_read written result.new_watermark.value "" w.repo,
            record_success,
          )
          refl)

  -- The error of a run, and the sink after it.
  abbrev Kept :
      SinkLaws sink → TargetTable → Option (List Row) → Option Error → World R K P → Type 0
  Kept laws live before e w = e ≢ none → laws.contents live w.sink ≡ before

  module _ (laws : SinkLaws sink) (ar : AtomicReplacer K) (atomic : AtomicLaws ar laws.contents)
      (is_atomic : sink.atomic ≡ some ar) (before : Option (List Row)) (load : Load)
      (replace : str_eq load.mode mode_replace ≡ true) where
    after_read-Kept :
        (run : LoadRun) (current : Watermark) (result : ReadResult) (st : ReadState K)
        (w : World R K P)
        → Between sink laws ar atomic (target_of load) before st
        → let r = after_read env clock store sink load run current result st w in
          Kept laws (target_of load) before r.0 r.1
    unfolding after_read record_failure
    after_read-Kept run current result st w b = elim (Option-cases (commit_repl st).0) [
      | inl good ↦
          rw (good, after_read)
            (λ q. absurd (q (settle-succeeds load run current result _ _ replace)))
      | inr (e, bad) ↦
          rw (bad, after_read)
            (λ q. failed_commit-kept sink laws ar atomic (target_of load) before st b (λ z. cc))
    ]

    read_load-Kept :
        (run : LoadRun) (current : Watermark) (src : Source (ReadState K)) (l : Locals K)
        (w : World R K P)
        → SourceLaws src
        → Between sink laws ar atomic (target_of load) before (l, w.sink)
        → let r = read_load env clock store sink load run current src l w in
          Kept laws (target_of load) before r.0.0 r.1
    unfolding read_load record_failure
    read_load-Kept run current src l w honest b =
        let cfg = load_config load current in
        let handler = handle_batch sink load clock.load_ts in
        let done =
          honest.through_handler (Between sink laws ar atomic (target_of load) before) cfg handler
            (l, w.sink)
            (handle_batch-Between sink laws ar atomic (target_of load) before load clock.load_ts)
            b in
        elim (Option-cases (src.read cfg handler (l, w.sink)).0.1) [
          | inl good ↦
              rw (good, read_load)
                (after_read-Kept run current (src.read cfg handler (l, w.sink)).0.0
                  (src.read cfg handler (l, w.sink)).1 w done)
          | inr (e, bad) ↦
              rw (bad, read_load)
                (λ q.
                  abort_repl-kept sink laws ar atomic (target_of load) before
                    (src.read cfg handler (l, w.sink)).1 done)
        ]

    run_started-Kept :
        (run : LoadRun) (current : Watermark) (src : Source (ReadState K)) (w : World R K P)
        → SourceLaws src
        → laws.contents (target_of load) w.sink ≡ before
        → let r = run_started env clock store sink load run current src w in
          Kept laws (target_of load) before r.0.0 r.1
    unfolding run_started record_failure
    run_started-Kept run current src w honest kept =
        let prepared =
          prepare_existing-kept sink laws ar atomic (target_of load) before w.sink is_atomic kept in
        elim (Option-cases (prepare_existing sink (new_session sink (target_of load)) w.sink).0.0) [
          | inr (e, bad) ↦ rw (replace, bad, run_started) (λ q. prepared.1)
          | inl good ↦
              rw (replace, good, run_started)
                (read_load-Kept run current src _ _ honest (record {
                  session = (prepare_existing sink (new_session sink (target_of load)) w.sink).0.1;
                  is_session = refl;
                  staged = prepared.0;
                  kept = prepared.1;
                  target = λ q. cc;
                }))
        ]

    run_load-Kept :
        (src : Source (ReadState K)) (w : World R K P)
        → SourceLaws src
        → laws.contents (target_of load) w.sink ≡ before
        → let r = run_load env clock store sink load src w in
          Kept laws (target_of load) before r.0.0 r.1
    unfolding run_load
    run_load-Kept src w honest kept = elim (Result-cases (store.get_watermark load.id w.repo).0) [
      | inr (e, bad) ↦ rw (bad, run_load) (λ q. kept)
      | inl (wm, got) ↦
          elim (Result-cases
            (store.start_run load.id (current_watermark load wm).value
              (store.get_watermark load.id w.repo).1).0) [
                | inr (e, bad) ↦ rw (got, bad, run_load) (λ q. kept)
                | inl (run, began) ↦
                    rw (got, began, run_load) (run_started-Kept run _ src _ honest kept)
              ]
    ]

-- Every source that the session hands out keeps the contract of `Read`.
abbrev pub SourcesKeepContract : {P S : Type 0} → SourceSession P S → Type 1
SourcesKeepContract {P} {S} sessions =
    (cfg : SourceConfig) (p : P) (lease : ℕ) (src : Source S)
    → (sessions.obtain cfg p).0 ≡ ok (lease, src)
    → SourceLaws src

force_append-target_of : (load : Load) → target_of (force_append load) ≡ target_of load
unfolding force_append
force_append-target_of load = ground arith

-- A replace load over an atomic sink (ADR-020): provided that the sources keep the contract of
-- `Read` and the store does not fail to finish runs, a run that returns an error, at whatever point
-- it failed, leaves the rows of the live table exactly as they were.
pub failed_replace-live :
    {R K P : Type 0} (env : Env) (clock : Clock) (store : RunStore R) (sink : Sink K)
    (sessions : SourceSession P (ReadState K)) (laws : SinkLaws sink) (ar : AtomicReplacer K)
    (atomic : AtomicLaws ar laws.contents) (load : Load) (w : World R K P) (e : Error)
    → sink.atomic ≡ some ar
    → FinishSucceeds store
    → SourcesKeepContract sessions
    → (force_append load).mode ≡ mode_replace
    → (execute env clock store sink sessions load w).0 ≡ some e
    → laws.contents (target_of load) (execute env clock store sink sessions load w).1.sink
      ≡ laws.contents (target_of load) w.sink
failed_replace-live env clock store sink sessions laws ar atomic load w e is_atomic fs honest mode
      failed =
    rw (← force_append-target_of load) (kept (λ q. cc))
  where
    forced : Load
    forced = force_append load

    kept :
        Kept env clock store sink fs laws
          (target_of forced)
          (laws.contents (target_of forced) w.sink)
          (execute env clock store sink sessions load w).0
          (execute env clock store sink sessions load w).1
    kept = elim (Result-cases (resolve_params env.unmarshal env.getenv forced.source.params_json)) [
      | inr (x, bad) ↦ unfold execute in rw (bad, execute) (λ q. refl)
      | inl (params, resolved) ↦
          elim (Result-cases (sessions.obtain (source_config forced params) w.sessions).0) [
            | inr (x, bad) ↦ unfold execute in rw (resolved, bad, execute) (λ q. refl)
            | inl ((lease, src), got) ↦
                unfold execute in
                rw (resolved, got, execute)
                  (run_load-Kept env clock store sink fs laws ar atomic is_atomic
                    (laws.contents (target_of forced) w.sink) forced
                    ((eq_iff forced.mode mode_replace).1 mode) src
                    (record w {
                      sessions = (sessions.obtain (source_config forced params) w.sessions).1;
                    })
                    (honest (source_config forced params) w.sessions lease src got) refl)
          ]
    ]
