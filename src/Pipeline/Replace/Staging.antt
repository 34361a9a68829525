-- ===== src/Pipeline/Replace/Staging.antt =====
-- A replace session over an atomic sink: staging stays apart from the live table, and the live table
-- keeps its rows up to the commit.
use data_loader.Prelude.{
  ◌≡◌, ◌≢◌, ◌∙◌, refl, sym, ap, subst, Bool, true, false, Option, none, some, List, [],
  if◌then◌else◌, Error, Bool-cases, Option-cases, Result-cases, inl, inr,
}
use data_loader.Contracts.{Row, Column, TargetTable}
use data_loader.Pipeline.Ports.{Sink, SinkLaws, AtomicReplacer, AtomicLaws}
use data_loader.Pipeline.Replace.{
  ReplaceSession, new_session, prepare_existing, prepare_atomic, prepare_legacy, ensure_legacy,
  on_replacer, begin_staging, ensure_first_batch, commit, commit_staging, abort,
}

-- A session over the replacer whose staging table, once there is one, is not the live table.
pub record IsStaged {K : Type 0} (ar : AtomicReplacer K) (live : TargetTable) (s : ReplaceSession K)
    : Type 0 where
  pub replacer : s.atomic ≡ some ar
  pub is_live : s.live ≡ live
  pub uncommitted : s.committed ≡ false
  pub apart : s.active ≡ true → s.staging ≢ live
  pub writes : s.active ≡ true → s.write_to ≡ s.staging

-- What the two ways to open a staging table have in common.
pub record Opened {K : Type 0} (ar : AtomicReplacer K) (live : TargetTable)
    (contents : TargetTable → K → Option (List Row)) (before : Option (List Row))
    (r : (Option Error × ReplaceSession K) × K) : Type 0 where
  pub staged : IsStaged ar live r.0.1
  pub kept : contents live r.1 ≡ before
  pub active : r.0.0 ≡ none → (r.0.1).active ≡ true

module _ {K : Type 0} (sink : Sink K) (laws : SinkLaws sink) (ar : AtomicReplacer K)
    (atomic : AtomicLaws ar laws.contents) (live : TargetTable) (before : Option (List Row)) where
  prepare_existing-atomic :
      (s : ReplaceSession K) (k : K)
      → s.atomic ≡ some ar
      → prepare_existing sink s k ≡ prepare_atomic ar sink s k
  unfolding prepare_existing
  prepare_existing-atomic s k h =
      ap (λ o. on_replacer o (prepare_legacy sink s k) (λ r. prepare_atomic r sink s k)) h

  ensure_first_batch-active :
      (auto_create : Bool) (cols : List Column) (s : ReplaceSession K) (k : K)
      → s.atomic ≡ some ar
      → (active : Bool) → s.active ≡ active
      → ensure_first_batch sink auto_create cols s k
        ≡ (if active then ((none, s), k) else begin_staging ar cols s k)
  unfolding ensure_first_batch
  ensure_first_batch-active auto_create cols s k h active e =
      ap
        (λ o.
          on_replacer o (ensure_legacy sink auto_create cols s k)
            (λ r. if s.active then ((none, s), k) else begin_staging r cols s k))
        h
      ∙ ap (λ b. if b then ((none, s), k) else begin_staging ar cols s k) e

  commit-active :
      (s : ReplaceSession K) (k : K)
      → s.atomic ≡ some ar
      → (active : Bool) → s.active ≡ active
      → commit s k ≡ (if active then commit_staging ar s k else ((none, s), k))
  unfolding commit
  commit-active s k h active e =
      ap
        (λ o.
          on_replacer o ((none, s), k)
            (λ r. if s.active then commit_staging r s k else ((none, s), k)))
        h
      ∙ ap (λ b. if b then commit_staging ar s k else ((none, s), k)) e

  abort-active :
      (s : ReplaceSession K) (k : K)
      → s.atomic ≡ some ar
      → (active : Bool) → s.active ≡ active
      → s.committed ≡ false
      → abort s k ≡ (if active then (ar.abort_replace s.staging k).1 else k)
  unfolding abort
  abort-active s k h active e c =
      ap
        (λ o. on_replacer o k (λ r.
          if s.active then (if s.committed then k else (r.abort_replace s.staging k).1) else k))
        h
      ∙ ap (λ b. if b then (if s.committed then k else (ar.abort_replace s.staging k).1) else k) e
      ∙ ap (λ b. if active then (if b then k else (ar.abort_replace s.staging k).1) else k) c

  begin_staging-Opened :
      (cols : List Column) (s : ReplaceSession K) (k : K)
      → IsStaged ar live s
      → laws.contents live k ≡ before
      → Opened ar live laws.contents before (begin_staging ar cols s k)
  unfolding begin_staging
  begin_staging-Opened cols s k h kept =
      let same : laws.contents live (ar.begin_replace s.live cols k).1 ≡ before =
        rw h.is_live (atomic.begin_keeps live cols k ∙ kept) in
      elim (Result-cases (ar.begin_replace s.live cols k).0) [
        | inr (e, bad) ↦
            rw (bad, begin_staging) (record { staged = h; kept = same; active = λ q. cc })
        | inl (stg, good) ↦
            rw (good, begin_staging)
              (record {
                staged = record {
                  replacer = h.replacer;
                  is_live = h.is_live;
                  uncommitted = h.uncommitted;
                  apart = λ _. atomic.staging_apart live stg cols k (rw h.is_live at good);
                  writes = λ _. refl;
                };
                kept = same;
                active = λ _. refl;
              })
      ]

  new_session-IsStaged : sink.atomic ≡ some ar → IsStaged ar live (new_session sink live)
  unfolding new_session
  new_session-IsStaged h = record {
    replacer = h;
    is_live = refl;
    uncommitted = refl;
    apart = λ q. cc;
    writes = λ q. cc;
  }

  prepare_atomic-kept :
      (s : ReplaceSession K) (k : K)
      → IsStaged ar live s
      → laws.contents live k ≡ before
      → IsStaged ar live (prepare_atomic ar sink s k).0.1
        × (laws.contents live (prepare_atomic ar sink s k).1 ≡ before)
  unfolding prepare_atomic
  prepare_atomic-kept s k h kept =
      let same = laws.exists_keeps s.live live k ∙ kept in
      elim (Result-cases (sink.table_exists s.live k).0) [
        | inr (e, bad) ↦ rw (bad, prepare_atomic) (h, same)
        | inl (false, good) ↦ rw (good, prepare_atomic) (h, same)
        | inl (true, good) ↦
            let opened = begin_staging-Opened [] s (sink.table_exists s.live k).1 h same in
            rw (good, prepare_atomic) (opened.staged, opened.kept)
      ]

  -- Preparing a new session for the target stages it if the live table exists.
  pub prepare_existing-kept :
      (k : K)
      → sink.atomic ≡ some ar
      → laws.contents live k ≡ before
      → IsStaged ar live (prepare_existing sink (new_session sink live) k).0.1
        × (laws.contents live (prepare_existing sink (new_session sink live) k).1 ≡ before)
  prepare_existing-kept k h kept =
      subst
        (λ (r : (Option Error × ReplaceSession K) × K).
          IsStaged ar live r.0.1 × (laws.contents live r.1 ≡ before))
        (sym (prepare_existing-atomic (new_session sink live) k (new_session-IsStaged h).replacer))
        (prepare_atomic-kept (new_session sink live) k (new_session-IsStaged h) kept)

  -- The first batch finds staging or opens it.
  pub ensure_first_batch-Opened :
      (auto_create : Bool) (cols : List Column) (s : ReplaceSession K) (k : K)
      → IsStaged ar live s
      → laws.contents live k ≡ before
      → Opened ar live laws.contents before (ensure_first_batch sink auto_create cols s k)
  ensure_first_batch-Opened auto_create cols s k h kept =
      let branch = ensure_first_batch-active auto_create cols s k h.replacer in
      elim (Bool-cases s.active) [
        | inl on ↦
            subst (Opened ar live laws.contents before) (sym (branch true on))
              (record { staged = h; kept = kept; active = λ _. on })
        | inr off ↦
            subst (Opened ar live laws.contents before) (sym (branch false off))
              (begin_staging-Opened cols s k h kept)
      ]

  -- An abort with no commit before it leaves the live table as it was.
  pub abort-kept :
      (s : ReplaceSession K) (k : K)
      → IsStaged ar live s
      → laws.contents live k ≡ before
      → laws.contents live (abort s k) ≡ before
  abort-kept s k h kept =
      let branch = abort-active s k h.replacer in
      elim (Bool-cases s.active) [
        | inl on ↦
            ap (laws.contents live) (branch true on h.uncommitted)
            ∙ atomic.abort_keeps live s.staging k (h.apart on)
            ∙ kept
        | inr off ↦ ap (laws.contents live) (branch false off h.uncommitted) ∙ kept
      ]

  -- What a commit leaves behind if it fails.
  abbrev CommitKept : (Option Error × ReplaceSession K) × K → Type 0
  CommitKept r = r.0.0 ≢ none → IsStaged ar live r.0.1 × (laws.contents live r.1 ≡ before)

  commit_staging-kept :
      (s : ReplaceSession K) (k : K)
      → IsStaged ar live s
      → laws.contents live k ≡ before
      → CommitKept (commit_staging ar s k)
  unfolding commit_staging
  commit_staging-kept s k h kept = elim (Option-cases (ar.commit_replace s.live s.staging k).0) [
    | inl good ↦ rw (good, commit_staging) (λ q. absurd (q refl))
    | inr (e, bad) ↦ rw (bad, commit_staging) (λ q. (h, failed_kept e bad))
  ]
    where
      failed_kept :
          (e : Error)
          → (ar.commit_replace s.live s.staging k).0 ≡ some e
          → laws.contents live (ar.commit_replace s.live s.staging k).1 ≡ before
      failed_kept e bad =
          subst (λ t. laws.contents t (ar.commit_replace s.live s.staging k).1 ≡ laws.contents t k)
            h.is_live (atomic.commit_fails s.live s.staging e k bad)
          ∙ kept

  -- A commit that fails leaves the live table as it was, and the session to be aborted.
  pub commit-kept :
      (s : ReplaceSession K) (k : K)
      → IsStaged ar live s
      → laws.contents live k ≡ before
      → CommitKept (commit s k)
  commit-kept s k h kept =
      let branch = commit-active s k h.replacer in
      elim (Bool-cases s.active) [
        | inl on ↦ subst CommitKept (sym (branch true on)) (commit_staging-kept s k h kept)
        | inr off ↦ subst CommitKept (sym (branch false off)) (λ q. absurd (q refl))
      ]
