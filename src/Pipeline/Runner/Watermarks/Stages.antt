-- ===== src/Pipeline/Runner/Watermarks/Stages.antt =====
-- The stages of a run, and the stored watermarks.
use data_loader.Prelude.{
  ℕ, String, ◌≡◌, ◌∙◌, refl, Bool, true, none, some, str_eq, Error, Bool-cases, Option-cases,
  Result-cases, inl, inr,
}
use data_loader.Contracts.{Watermark, ReadResult, mode_replace}
use data_loader.Metadata.{Load, LoadRun}
use data_loader.Config.{resolve_params}
use data_loader.Pipeline.Ports.{FinishSucceeds, RunStore, RunStoreLaws, Sink, Source, SourceSession}
use data_loader.Pipeline.Replace.{new_session, prepare_existing}
use data_loader.Pipeline.Runner.{
  target_of, force_append, source_config, current_watermark, Env, Clock, World, Locals, ReadState,
  advances, record_failure, record_success, settle, after_read, read_load, run_started, run_load,
  execute, commit_repl, handle_batch, load_config,
}
use data_loader.Pipeline.Runner.Watermarks.Causes.{Cause, failed, not_delta, other, advances-delta}

module _ {R K P : Type 0} (env : Env) (clock : Clock) (store : RunStore R) (sink : Sink K)
    (laws : RunStoreLaws store) where
  -- The watermark of the load `j` is the same in both worlds.
  abbrev Same : ℕ → World R K P → World R K P → Type 0
  Same j w w' = laws.watermark_of j w'.repo ≡ laws.watermark_of j w.repo

  record_failure-Same :
      (j : ℕ) (observed : Bool) (load : Load) (run : LoadRun) (start : String) (read written : ℕ)
      (e : Error) (w : World R K P)
      → Same j w (record_failure env clock store sink observed load run start read written e w)
  unfolding record_failure
  record_failure-Same j observed load run start read written e w =
      laws.finish_keeps _ _ _ _ _ _ j w.repo

  record_success-Same :
      (j : ℕ) (load : Load) (run : LoadRun) (end : String) (read written : ℕ) (w : World R K P)
      → Same j w (record_success env clock store sink load run end read written w).1
  unfolding record_success
  record_success-Same j load run end read written w =
      let kept = laws.finish_keeps run "success" read written end "" j w.repo in
      elim (Option-cases (store.finish_run run "success" read written end "" w.repo).0) [
        | inl e ↦ rw (e, record_success) kept
        | inr (x, e) ↦ rw (e, record_success) kept
      ]

  record_success-none :
      (load : Load) (run : LoadRun) (end : String) (read written : ℕ) (w : World R K P)
      → FinishSucceeds store
      → (record_success env clock store sink load run end read written w).0 ≡ none
  unfolding record_success
  record_success-none load run end read written w h =
      rw (h run "success" read written end "" w.repo, record_success) refl

  settle-none :
      (load : Load) (run : LoadRun) (current : Watermark) (result : ReadResult) (written : ℕ)
      (w : World R K P)
      → FinishSucceeds store
      → advances load current result ≡ true
      → (store.upsert_watermark load.id result.new_watermark.value w.repo).0 ≡ none
      → (settle env clock store sink load run current result written w).0 ≡ none
  unfolding settle
  settle-none load run current result written w fs advance stored =
      rw (advance, stored, settle) (record_success-none load run _ _ _ _ fs)

  upsert-Same :
      (j : ℕ) (load : Load) (run : LoadRun) (current : Watermark) (result : ReadResult)
      (written : ℕ) (w : World R K P)
      → Cause store load (settle env clock store sink load run current result written w).0 j
      → advances load current result ≡ true
      → (store.upsert_watermark load.id result.new_watermark.value w.repo).0 ≡ none
      → laws.watermark_of j (store.upsert_watermark load.id result.new_watermark.value w.repo).1
        ≡ laws.watermark_of j w.repo
  upsert-Same j load run current result written w (failed fs ne) advance stored =
      absurd (ne (settle-none load run current result written w fs advance stored))
  upsert-Same j load run current result written w (not_delta d) advance stored =
      cc (advances-delta load current result advance)
  upsert-Same j load run current result written w (other d) advance stored =
      laws.upsert_keeps load.id j _ w.repo d

  settle-Same :
      (j : ℕ) (load : Load) (run : LoadRun) (current : Watermark) (result : ReadResult)
      (written : ℕ) (w : World R K P)
      → Cause store load (settle env clock store sink load run current result written w).0 j
      → Same j w (settle env clock store sink load run current result written w).1
  unfolding settle
  settle-Same j load run current result written w c =
      elim (Bool-cases (advances load current result)) [
        | inr no_advance ↦ rw no_advance (record_success-Same j load run _ _ _ w)
        | inl advance ↦
            let w' : World R K P = record w {
              repo = (store.upsert_watermark load.id result.new_watermark.value w.repo).1;
            } in
            elim (Option-cases
              (store.upsert_watermark load.id result.new_watermark.value w.repo).0) [
                | inr (e, refused) ↦
                    rw (advance, refused, settle)
                      (record_failure-Same j true load run _ _ _ _ w'
                        ∙ laws.upsert_fails load.id j _ e w.repo refused)
                | inl stored ↦
                    rw (advance, stored, settle)
                      (record_success-Same j load run _ _ _ w'
                        ∙ upsert-Same j load run current result written w c advance stored)
              ]
      ]

  after_read-Same :
      (j : ℕ) (load : Load) (run : LoadRun) (current : Watermark) (result : ReadResult)
      (st : ReadState K) (w : World R K P)
      → Cause store load (after_read env clock store sink load run current result st w).0 j
      → Same j w (after_read env clock store sink load run current result st w).1
  unfolding after_read record_failure
  after_read-Same j load run current result st w = elim (Option-cases (commit_repl st).0) [
    | inl fine ↦ rw (fine, after_read) (settle-Same j load run current result _ _)
    | inr (e, bad) ↦ rw (bad, after_read) (λ _. laws.finish_keeps _ _ _ _ _ _ j w.repo)
  ]

  read_load-Same :
      (j : ℕ) (load : Load) (run : LoadRun) (current : Watermark) (src : Source (ReadState K))
      (l : Locals K) (w : World R K P)
      → Cause store load (read_load env clock store sink load run current src l w).0.0 j
      → Same j w (read_load env clock store sink load run current src l w).1
  unfolding read_load record_failure
  read_load-Same j load run current src l w =
      elim (Option-cases
        (src.read (load_config load current) (handle_batch sink load clock.load_ts)
          (l, w.sink)).0.1) [
            | inl fine ↦
                rw (fine, read_load)
                  (after_read-Same j load run current
                    (src.read (load_config load current) (handle_batch sink load clock.load_ts)
                      (l, w.sink)).0.0
                    (src.read (load_config load current) (handle_batch sink load clock.load_ts)
                      (l, w.sink)).1
                    w)
            | inr (e, bad) ↦ rw (bad, read_load) (λ _. laws.finish_keeps _ _ _ _ _ _ j w.repo)
          ]

  run_started-Same :
      (j : ℕ) (load : Load) (run : LoadRun) (current : Watermark) (src : Source (ReadState K))
      (w : World R K P)
      → Cause store load (run_started env clock store sink load run current src w).0.0 j
      → Same j w (run_started env clock store sink load run current src w).1
  unfolding run_started record_failure
  run_started-Same j load run current src w = elim (Bool-cases (str_eq load.mode mode_replace)) [
    | inl replace ↦
        elim (Option-cases (prepare_existing sink (new_session sink (target_of load)) w.sink).0.0) [
          | inl fine ↦ rw (replace, fine, run_started) (read_load-Same j load run current src _ _)
          | inr (e, bad) ↦
              rw (replace, bad, run_started) (λ _. laws.finish_keeps _ _ _ _ _ _ j w.repo)
        ]
    | inr another ↦ rw (another, run_started) (read_load-Same j load run current src _ w)
  ]

  run_load-Same :
      (j : ℕ) (load : Load) (src : Source (ReadState K)) (w : World R K P)
      → Cause store load (run_load env clock store sink load src w).0.0 j
      → Same j w (run_load env clock store sink load src w).1
  unfolding run_load
  run_load-Same j load src w = elim (Result-cases (store.get_watermark load.id w.repo).0) [
    | inr (e, bad) ↦ rw (bad, run_load) (λ _. laws.get_keeps load.id j w.repo)
    | inl (wm, got) ↦
        let kept = laws.get_keeps load.id j w.repo in
        let kept' =
          laws.start_keeps load.id j (current_watermark load wm).value
            (store.get_watermark load.id w.repo).1 in
        elim (Result-cases
          (store.start_run load.id (current_watermark load wm).value
            (store.get_watermark load.id w.repo).1).0) [
              | inr (e, bad) ↦ rw (got, bad, run_load) (λ _. kept' ∙ kept)
              | inl (run, began) ↦
                  rw (got, began, run_load)
                    (λ c. run_started-Same j load run _ src _ c ∙ kept' ∙ kept)
            ]
  ]

  pub settle-stores :
      (load : Load) (run : LoadRun) (current : Watermark) (result : ReadResult) (written : ℕ)
      (w : World R K P)
      → advances load current result ≡ true
      → (settle env clock store sink load run current result written w).0 ≡ none
      → laws.watermark_of load.id
          (settle env clock store sink load run current result written w).1.repo
        ≡ some result.new_watermark.value
  unfolding settle
  settle-stores load run current result written w advance =
      let w' : World R K P = record w {
        repo = (store.upsert_watermark load.id result.new_watermark.value w.repo).1;
      } in
      elim (Option-cases (store.upsert_watermark load.id result.new_watermark.value w.repo).0) [
        | inr (e, refused) ↦ rw (advance, refused, settle) (λ q. cc)
        | inl stored ↦
            rw (advance, stored, settle)
              (λ _.
                record_success-Same load.id load run _ _ _ w'
                ∙ laws.upsert_sets load.id _ w.repo stored)
      ]

  pub execute-Same :
      (sessions : SourceSession P (ReadState K)) (j : ℕ) (load : Load) (w : World R K P)
      → Cause store (force_append load) (execute env clock store sink sessions load w).0 j
      → Same j w (execute env clock store sink sessions load w).1
  unfolding execute
  execute-Same sessions j load w =
      elim (Result-cases
        (resolve_params env.unmarshal env.getenv (force_append load).source.params_json)) [
          | inr (e, bad) ↦ rw (bad, execute) (λ _. refl)
          | inl (params, resolved) ↦
              elim (Result-cases
                (sessions.obtain (source_config (force_append load) params) w.sessions).0) [
                  | inr (e, bad) ↦ rw (resolved, bad, execute) (λ _. refl)
                  | inl ((lease, src), got) ↦
                      rw (resolved, got, execute) (run_load-Same j (force_append load) src _)
                ]
        ]
