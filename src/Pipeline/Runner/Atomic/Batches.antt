-- ===== src/Pipeline/Runner/Atomic/Batches.antt =====
-- The batches of a replace load, and the rows of its live table.
use data_loader.Prelude.{
  ℕ, ◌≡◌, ◌≢◌, ◌∙◌, refl, sym, ap, subst, Bool, true, false, Option, none, some, List, Error,
  Option-cases, Result-cases, inl, inr,
}
use data_loader.Contracts.{Row, Batch, Column, TargetTable}
use data_loader.Metadata.{Load}
use data_loader.Pipeline.Ports.{Sink, SinkLaws, AtomicReplacer, AtomicLaws}
use data_loader.Pipeline.Replace.{ReplaceSession, ensure_first_batch, commit, abort}
use data_loader.Pipeline.Replace.Staging.{
  IsStaged, ensure_first_batch-Opened, abort-kept, commit-kept,
}
use data_loader.Pipeline.Runner.{
  Locals, ReadState, commit_repl, abort_repl, handle_batch, prepare_batch, write_rows,
  first_batch_replace,
}

module _ {K : Type 0} (sink : Sink K) (laws : SinkLaws sink) (ar : AtomicReplacer K)
    (atomic : AtomicLaws ar laws.contents) (live : TargetTable) (before : Option (List Row)) where
  -- Between two batches the live table has the rows that it had before, and once a batch has been
  -- prepared the handler writes to staging.
  pub record Between (st : ReadState K) : Type 0 where
    pub session : ReplaceSession K
    pub is_session : (st.0).repl ≡ some session
    pub staged : IsStaged ar live session
    pub kept : laws.contents live st.1 ≡ before
    pub target : (st.0).first_batch ≡ false → (st.0).write_target ≢ live

  -- The same after the preparation of a batch, which leaves it ready if it succeeds.
  record Ready (r : Option Error × ReadState K) : Type 0 where
    between : Between r.1
    ready : r.0 ≡ none → (r.1.0).first_batch ≡ false

  first_batch_replace-Ready :
      (load : Load) (cols : List Column) (s : ReplaceSession K) (l : Locals K) (k : K)
      → IsStaged ar live s
      → laws.contents live k ≡ before
      → l.first_batch ≡ true
      → Ready (first_batch_replace sink load cols s l k)
  unfolding first_batch_replace
  first_batch_replace-Ready load cols s l k h kept first =
      let opened =
        ensure_first_batch-Opened sink laws ar atomic live before load.auto_create_table cols s k h
          kept in
      elim (Option-cases (ensure_first_batch sink load.auto_create_table cols s k).0.0) [
        | inr (e, bad) ↦
            rw (bad, first_batch_replace)
              (record {
                between = record {
                  session = (ensure_first_batch sink load.auto_create_table cols s k).0.1;
                  is_session = refl;
                  staged = opened.staged;
                  kept = opened.kept;
                  target = λ q. cc;
                };
                ready = λ q. cc;
              })
        | inl good ↦
            rw (good, first_batch_replace)
              (record {
                between = record {
                  session = (ensure_first_batch sink load.auto_create_table cols s k).0.1;
                  is_session = refl;
                  staged = opened.staged;
                  kept = opened.kept;
                  target = λ _ q.
                      opened.staged.apart (opened.active good)
                        (sym (opened.staged.writes (opened.active good)) ∙ q);
                };
                ready = λ _. refl;
              })
      ]

  prepare_batch-Ready :
      (load : Load) (cols : List Column) (rows : ℕ) (first : Bool) (target : TargetTable)
      (s : ReplaceSession K) (k : K)
      → let l : Locals K = record {
        rows_written = rows;
        first_batch = first;
        write_target = target;
        repl = some s;
      } in
        Between (l, k) → IsStaged ar live s → Ready (prepare_batch sink load cols l k)
  unfolding prepare_batch
  prepare_batch-Ready load cols rows true target s k b h =
      first_batch_replace-Ready load cols s
        (record { rows_written = rows; first_batch = true; write_target = target; repl = some s }) k
        h b.kept refl
  prepare_batch-Ready load cols rows false target s k b h = record {
    between = b;
    ready = λ _. refl;
  }

  write_rows-Between :
      (ts : ℕ) (batch : Batch) (l : Locals K) (k : K)
      → Between (l, k)
      → l.first_batch ≡ false
      → Between (write_rows sink ts batch l k).1
  unfolding write_rows
  write_rows-Between ts batch l k b started =
      let kept = laws.write_keeps l.write_target live batch ts k (b.target started) ∙ b.kept in
      elim (Result-cases (sink.write_batch l.write_target batch ts k).0) [
        | inr (e, bad) ↦
            rw (bad, write_rows)
              (record {
                session = b.session;
                is_session = b.is_session;
                staged = b.staged;
                kept = kept;
                target = b.target;
              })
        | inl (n, good) ↦
            rw (good, write_rows)
              (record {
                session = b.session;
                is_session = b.is_session;
                staged = b.staged;
                kept = kept;
                target = b.target;
              })
      ]

  handle_prepared :
      (load : Load) (ts : ℕ) (batch : Batch) (l : Locals K) (k : K)
      → Ready (prepare_batch sink load batch.columns l k)
      → Between (handle_batch sink load ts batch (l, k)).1
  unfolding handle_batch
  handle_prepared load ts batch l k h =
      elim (Option-cases (prepare_batch sink load batch.columns l k).0) [
        | inr (e, bad) ↦ rw (bad, handle_batch) h.between
        | inl good ↦
            rw (good, handle_batch) (write_rows-Between ts batch _ _ h.between (h.ready good))
      ]

  -- Each batch keeps the live table as it was.
  pub handle_batch-Between :
      (load : Load) (ts : ℕ) (batch : Batch) (st : ReadState K)
      → Between st
      → Between (handle_batch sink load ts batch st).1
  handle_batch-Between load ts batch (l, k) b = handle_prepared load ts batch l k (
      subst (λ m. Ready (prepare_batch sink load batch.columns m k)) (sym same)
        (prepare_batch-Ready load batch.columns l.rows_written l.first_batch l.write_target
          b.session k
          (record {
            session = b.session;
            is_session = refl;
            staged = b.staged;
            kept = b.kept;
            target = b.target;
          })
          b.staged))
    where
      same : l ≡ record l { repl = some b.session }
      same = λ i. record l { repl = b.is_session i }

  commit_repl-kept :
      (l : Locals K) (s : ReplaceSession K) (k : K)
      → IsStaged ar live s
      → laws.contents live k ≡ before
      → let r = commit_repl (record l { repl = some s }, k) in
        r.0 ≢ none → laws.contents live (abort_repl r.1) ≡ before
  unfolding commit_repl abort_repl
  commit_repl-kept l s k h kept bad =
      let c = commit-kept sink laws ar atomic live before s k h kept bad in
      abort-kept sink laws ar atomic live before (commit s k).0.1 (commit s k).1 c.0 c.1

  pub abort_repl-kept :
      (st : ReadState K) → Between st → laws.contents live (abort_repl st) ≡ before
  unfolding abort_repl
  abort_repl-kept (l, k) b =
      ap (λ o. laws.contents live (elim o [ none ↦ k | some repl ↦ abort repl k ])) b.is_session
      ∙ abort-kept sink laws ar atomic live before b.session k b.staged b.kept

  pub failed_commit-kept :
      (st : ReadState K)
      → Between st
      → (commit_repl st).0 ≢ none
      → laws.contents live (abort_repl (commit_repl st).1) ≡ before
  failed_commit-kept (l, k) b =
      subst
        (λ (m : Locals K).
          (commit_repl (m, k)).0 ≢ none
          → laws.contents live (abort_repl (commit_repl (m, k)).1) ≡ before)
        (λ i. record l { repl = sym b.is_session i })
        (commit_repl-kept l b.session k b.staged b.kept)
