-- ===== src/Pipeline/Runner/Settled.antt =====
-- What a run leaves in the registry of load states.
use mathlib.Core.Option
use data_loader.Prelude.{
  ok, err, ℕ, String, ◌≡◌, ◌≢◌, ◌∙◌, refl, false, Option, none, some, arith, str_eq, Error,
  Bool-cases, ==_refl, Option-cases, inl, inr, Result-cases,
}
use data_loader.Contracts.{Watermark, ReadResult, mode_replace}
use data_loader.Metadata.{Load, LoadRun}
use data_loader.Config.{resolve_params}
use data_loader.RunState.{LoadState, Registry, mark_running, mark_finished, started}
use data_loader.RunState.History.{find, find-mark_running, find-mark_finished}
use data_loader.Pipeline.Ports.{RunStore, Sink, Source, SourceSession}
use data_loader.Pipeline.Replace.{new_session, prepare_existing}
use data_loader.Pipeline.Runner.{
  target_of, force_append, source_config, current_watermark, Env, Clock, World, Locals, ReadState,
  record_failure, record_success, settle, after_read, read_load, run_started, run_load, execute,
  commit_repl,
}

-- The status that belongs to the error that a run returns.
abbrev pub outcome : Option Error → String
outcome none = "success"
outcome (some e) = "failed"

-- From `r` to `r'` the entry of the load `id`, if there is one, has become one that is not running
-- and has this status, and the entries of other loads are the same.
pub record Settled (id : ℕ) (status : String) (r r' : Registry) : Type 0 where
  pub not_running :
      (s : LoadState)
      → find id r' ≡ some s
      → (s.currently_running ≡ false) × (s.last_status ≡ status)
  pub still_there : find id r' ≡ none → find id r ≡ none
  pub others : (j : ℕ) → id ≢ j → find j r' ≡ find j r

-- The run that has begun: its parameters resolve, its source is obtained, the stored watermark is read
-- and the store accepts the run. None if one of these fails.
begun_load : {R : Type 0} → RunStore R → Load → R → Option LoadRun
begun_load store load repo = elim (store.get_watermark load.id repo).0 [
  | err e ↦ none
  | ok stored ↦
      elim (store.start_run load.id (current_watermark load stored).value
        (store.get_watermark load.id repo).1).0 [ err e ↦ none | ok run ↦ some run ]
]

unfoldable pub begun :
    {R K P : Type 0}
    → Env
    → RunStore R
    → SourceSession P (ReadState K)
    → Load
    → World R K P
    → Option LoadRun
unfolding begun_load
begun env store sessions load w =
    elim (resolve_params env.unmarshal env.getenv (force_append load).source.params_json) [
      | err e ↦ none
      | ok params ↦ elim (sessions.obtain (source_config (force_append load) params) w.sessions).0 [
        | err e ↦ none
        | ok (lease, src) ↦ begun_load store (force_append load) w.repo
      ]
    ]

-- What the registry says after a run: nothing new where none has begun.
abbrev pub Reported : Option LoadRun → ℕ → Option Error → Registry → Registry → Type 0
Reported none id e r r' = (r' ≡ r) × (e ≢ none)
Reported (some run) id e r r' = Settled id (outcome e) r r'

mark_finished-Settled :
    (id : ℕ) (status : String) (finish read written : ℕ) (message : String) (r : Registry)
    → Settled id status r (mark_finished id status finish read written message r)
mark_finished-Settled id status finish read written message r = record {
  not_running = λ s. rw find-mark_finished (ground arith);
  still_there = rw find-mark_finished (ground arith);
  others = λ j h. rw find-mark_finished (ground arith);
}

map-none : (f : LoadState → LoadState) (o : Option LoadState) → Option.map f o ≡ none → o ≡ none
map-none f none e = refl
map-none f (some s) e = cc

Settled-mark_running :
    (id : ℕ) (status uuid : String) (start : ℕ) (r r' : Registry)
    → Settled id status (mark_running id uuid start r) r'
    → Settled id status r r'
Settled-mark_running id status uuid start r r' h = record {
  not_running = h.not_running;
  still_there = λ e.
      map-none (started uuid start) (find id r)
        (rw (find-mark_running, ==_refl) at (h.still_there e));
  others = λ j d. h.others j d ∙ rw find-mark_running (ground arith);
}

module _ {R K P : Type 0} (env : Env) (clock : Clock) (store : RunStore R) (sink : Sink K) where
  record_success-Settled :
      (load : Load) (run : LoadRun) (end : String) (read written : ℕ) (w : World R K P)
      → let (e, w') = record_success env clock store sink load run end read written w in
        Settled load.id (outcome e) w.registry w'.registry
  unfolding record_success
  record_success-Settled load run end read written w = grind (arith, mark_finished-Settled)

  settle-Settled :
      (load : Load) (run : LoadRun) (current : Watermark) (result : ReadResult) (written : ℕ)
      (w : World R K P)
      → let (e, w') = settle env clock store sink load run current result written w in
        Settled load.id (outcome e) w.registry w'.registry
  unfolding settle record_failure
  settle-Settled load run current result written w =
      grind (arith, mark_finished-Settled, record_success-Settled)

  after_read-Settled :
      (load : Load) (run : LoadRun) (current : Watermark) (result : ReadResult) (st : ReadState K)
      (w : World R K P)
      → let (e, w') = after_read env clock store sink load run current result st w in
        Settled load.id (outcome e) w.registry w'.registry
  unfolding after_read record_failure
  after_read-Settled load run current result st w = elim (Option-cases (commit_repl st).0) [
    | inl fine ↦ rw (fine, after_read) (settle-Settled load run current result _ _)
    | inr (e, failed) ↦ rw (failed, after_read) (mark_finished-Settled _ _ _ _ _ _ _)
  ]

  read_load-Settled :
      (load : Load) (run : LoadRun) (current : Watermark) (src : Source (ReadState K))
      (l : Locals K) (w : World R K P)
      → let ((e, _), w') = read_load env clock store sink load run current src l w in
        Settled load.id (outcome e) w.registry w'.registry
  unfolding read_load record_failure
  read_load-Settled load run current src l w =
      grind (arith, mark_finished-Settled, after_read-Settled)

  run_started-Settled :
      (load : Load) (run : LoadRun) (current : Watermark) (src : Source (ReadState K))
      (w : World R K P)
      → let ((e, _), w') = run_started env clock store sink load run current src w in
        Settled load.id (outcome e) w.registry w'.registry
  unfolding run_started record_failure
  run_started-Settled load run current src w = elim (Bool-cases (str_eq load.mode mode_replace)) [
    | inl replace ↦
        elim (Option-cases (prepare_existing sink (new_session sink (target_of load)) w.sink).0.0) [
          | inl fine ↦ rw (replace, fine, run_started) (read_load-Settled load run current src _ _)
          | inr (e, failed) ↦
              rw (replace, failed, run_started) (mark_finished-Settled _ _ _ _ _ _ _)
        ]
    | inr other ↦ rw (other, run_started) (read_load-Settled load run current src _ w)
  ]

  run_load-Reported :
      (load : Load) (src : Source (ReadState K)) (w : World R K P)
      → let ((e, _), w') = run_load env clock store sink load src w in
        Reported (begun_load store load w.repo) load.id e w.registry w'.registry
  unfolding run_load begun_load
  run_load-Reported load src w = elim (Result-cases (store.get_watermark load.id w.repo).0) [
    | inr (e, failed) ↦ rw (failed, run_load, begun_load) (refl, λ q. cc)
    | inl (wm, got) ↦
        elim (Result-cases
          (store.start_run load.id (current_watermark load wm).value
            (store.get_watermark load.id w.repo).1).0) [
              | inr (e, failed) ↦ rw (got, failed, run_load, begun_load) (refl, λ q. cc)
              | inl (run, began) ↦
                  rw (got, began, run_load, begun_load)
                    (Settled-mark_running load.id _ run.run_uuid run.started_at w.registry _
                      (run_started-Settled load run _ src _))
            ]
  ]

  run_load-Reported_at :
      (id : ℕ) (load : Load) (src : Source (ReadState K)) (w : World R K P)
      → load.id ≡ id
      → let ((e, _), w') = run_load env clock store sink load src w in
        Reported (begun_load store load w.repo) id e w.registry w'.registry
  run_load-Reported_at id load src w h = rw (← h) (run_load-Reported load src w)

pub force_append-id : (load : Load) → (force_append load).id ≡ load.id
unfolding force_append
force_append-id load = ground arith

-- Where the run has not begun (a parameter does not resolve, or the source, the watermark or the
-- row of the run cannot be had) the registry is as it was, and an error is returned. Once it has begun,
-- whatever fails afterwards, the entry of the load is not running, its status is "success" exactly when
-- no error is returned, and the entries of other loads are untouched.
pub execute-Settled :
    {R K P : Type 0} (env : Env) (clock : Clock) (store : RunStore R) (sink : Sink K)
    (sessions : SourceSession P (ReadState K)) (load : Load) (w : World R K P)
    → let (e, w') = execute env clock store sink sessions load w in
      Reported (begun env store sessions load w) load.id e w.registry w'.registry
unfolding execute begun
execute-Settled env clock store sink sessions load w =
    elim (Result-cases
      (resolve_params env.unmarshal env.getenv (force_append load).source.params_json)) [
        | inr (e, failed) ↦ rw (failed, execute, begun) (refl, λ q. cc)
        | inl (params, resolved) ↦
            elim (Result-cases
              (sessions.obtain (source_config (force_append load) params) w.sessions).0) [
                | inr (e, failed) ↦ rw (resolved, failed, execute, begun) (refl, λ q. cc)
                | inl ((lease, src), got) ↦
                    rw (resolved, got, execute, begun)
                      (run_load-Reported_at env clock store sink load.id (force_append load) src _
                        (force_append-id load))
              ]
      ]
