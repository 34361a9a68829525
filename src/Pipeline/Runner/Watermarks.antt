-- ===== src/Pipeline/Runner/Watermarks.antt =====
-- What a run does to the stored watermarks, over any store that keeps its promises.
mod Causes
mod Stages
use data_loader.Prelude.{
  ◌||◌, ℕ, String, ◌≡◌, ◌≢◌, ◌∙◌, refl, Bool, true, false, Option, none, some, arith, str_eq,
  eq_iff, Error, Bool-cases, Option-cases, Result-cases, inl, inr, ◌⊎◌, sym,
}
use data_loader.Contracts.{Watermark, ReadResult, mode_replace, mode_delta, mode_append}
use data_loader.Metadata.{Load, LoadRun}
use data_loader.Config.{resolve_params}
use data_loader.Pipeline.Ports.{FinishSucceeds, RunStore, RunStoreLaws, Sink, Source, SourceSession}
use data_loader.Pipeline.Replace.{new_session, prepare_existing}
use data_loader.Pipeline.Runner.{
  target_of, force_append, source_config, current_watermark, Env, Clock, World, Locals, ReadState,
  advances, record_failure, record_success, settle, after_read, read_load, run_started, run_load,
  execute, commit_repl, handle_batch, load_config,
}
use data_loader.Pipeline.Runner.Settled.{force_append-id}
use data_loader.Pipeline.Runner.Watermarks.Causes.{
  Cause, failed, not_delta, other, advances-delta, force_append-not_delta,
}
use data_loader.Pipeline.Runner.Watermarks.Stages.{settle-stores, execute-Same}

module _ {R K P : Type 0} (env : Env) (clock : Clock) (store : RunStore R) (sink : Sink K)
    (sessions : SourceSession P (ReadState K)) (laws : RunStoreLaws store) where
  -- Provided that the store does not fail to finish runs, a run that returns an error has moved no
  -- watermark, of its load or of another.
  pub failed-watermark :
      (load : Load) (w : World R K P) (e : Error) (j : ℕ)
      → FinishSucceeds store
      → (execute env clock store sink sessions load w).0 ≡ some e
      → laws.watermark_of j (execute env clock store sink sessions load w).1.repo
        ≡ laws.watermark_of j w.repo
  failed-watermark load w e j fs h =
      execute-Same env clock store sink laws sessions j load w (failed fs (λ q. cc))

  -- A load that is not in delta mode moves no watermark, whatever becomes of its run; so neither does
  -- any load of a Modbus or OPC UA source, which is forced into append mode.
  pub other_modes-watermark :
      (load : Load) (w : World R K P) (j : ℕ)
      → (load.mode ≢ mode_delta) ⊎ (load.source.kind ≡ "modbus") ⊎ (load.source.kind ≡ "opcua")
      → laws.watermark_of j (execute env clock store sink sessions load w).1.repo
        ≡ laws.watermark_of j w.repo
  other_modes-watermark load w j h =
      execute-Same env clock store sink laws sessions j load w
        (not_delta (force_append-not_delta load h))

  -- No run moves the watermark of another load.
  pub other_loads-watermark :
      (load : Load) (w : World R K P) (j : ℕ)
      → load.id ≢ j
      → laws.watermark_of j (execute env clock store sink sessions load w).1.repo
        ≡ laws.watermark_of j w.repo
  other_loads-watermark load w j h =
      execute-Same env clock store sink laws sessions j load w
        (other (λ q. h (sym (force_append-id load) ∙ q)))

  -- When the new watermark is to be stored and the end of the run returns no error, the stored
  -- watermark of the load is the new one.
  pub settle-advances :
      (load : Load) (run : LoadRun) (current : Watermark) (result : ReadResult) (written : ℕ)
      (w : World R K P)
      → advances load current result ≡ true
      → (settle env clock store sink load run current result written w).0 ≡ none
      → laws.watermark_of load.id
          (settle env clock store sink load run current result written w).1.repo
        ≡ some result.new_watermark.value
  settle-advances load run current result written w advance =
      settle-stores env clock store sink laws load run current result written w advance
