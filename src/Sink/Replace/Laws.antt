-- ===== src/Sink/Replace/Laws.antt =====
-- What the statements of internal/sink/replace.go leave of the rows of a table, each path of
-- BeginReplace, CommitReplace and AbortReplace taken by itself.
use data_loader.Prelude.{
  ◌≡◌, ◌≢◌, refl, ◌∙◌, Bool, true, false, Option, none, some, List, [], ◌∷◌, ◌++◌, arith, Text,
  Error, Result, Option-cases, Result-cases, inl, inr,
}
use data_loader.Contracts.{TargetTable, Column}
use data_loader.SqlIdent.{Unicode, validate}
use data_loader.Sink.{
  Database, validate_target, table_exists, count_tables, ensure_table, column_defs,
}
use data_loader.Sink.Replace.{
  old_suffix, old_target, drop_if_exists_statement, drop_statement, clone_statement,
  rename_statement, rename_args, drop_table_if_exists, rename_in_tx, in_tx, rename_table, swap,
  swap_live, commit_checked, commit_replace, create_staging, begin_checked, abort_replace,
}
use data_loader.Sink.Replace.Statements.{
  beside, DatabaseLaws, longer-apart, validate_target-parts, validate_target-of,
}

module _ {D : Type 0} (u : Unicode) (db : Database D) (laws : DatabaseLaws u db) where
  pub table_exists-kept :
      (t x : TargetTable) (d : D) → laws.contents t (table_exists db x d).1 ≡ laws.contents t d
  unfolding table_exists
  table_exists-kept t x d =
      elim (Result-cases (db.query_count count_tables (x.schema ∷ x.name ∷ []) d).0) [
        | inl (n, e) ↦
            rw (table_exists, e) (laws.query_keeps t count_tables (x.schema ∷ x.name ∷ []) d)
        | inr (m, e) ↦
            rw (table_exists, e) (laws.query_keeps t count_tables (x.schema ∷ x.name ∷ []) d)
      ]

  ensure_table-kept :
      (t x : TargetTable) (cols : List Column) (d : D)
      → validate_target u x ≡ none
      → x ≢ t
      → laws.contents t (ensure_table u db x cols d).1 ≡ laws.contents t d
  unfolding ensure_table
  ensure_table-kept t x cols d fine apart = elim (Result-cases (table_exists db x d).0) [
    | inr (m, e) ↦ rw (ensure_table, fine, e) (table_exists-kept t x d)
    | inl (true, e) ↦ rw (ensure_table, fine, e) (table_exists-kept t x d)
    | inl (false, e) ↦ elim (Result-cases (column_defs u cols)) [
      | inr (m, f) ↦ rw (ensure_table, fine, e, f) (table_exists-kept t x d)
      | inl (defs, f) ↦
          rw (ensure_table, fine, e, f)
            (laws.create_keeps t x cols defs (table_exists db x d).1 fine f apart
              ∙ table_exists-kept t x d)
    ]
  ]

  create_staging-kept :
      (t x : TargetTable) (cols : List Column) (live : Bool) (d : D)
      → validate_target u t ≡ none
      → validate_target u x ≡ none
      → x ≢ t
      → laws.contents t (create_staging u db t x cols live d).1 ≡ laws.contents t d
  unfolding create_staging
  create_staging-kept t x cols true d ht hx apart =
      elim (Option-cases (db.exec (clone_statement x t) [] d).0) [
        | inl e ↦ rw (create_staging, e) (laws.clone_keeps t x t d hx ht apart)
        | inr (m, e) ↦ rw (create_staging, e) (laws.clone_keeps t x t d hx ht apart)
      ]
  create_staging-kept t x [] false d ht hx apart = refl
  create_staging-kept t x (c ∷ cs) false d ht hx apart =
      elim (Option-cases (ensure_table u db x (c ∷ cs) d).0) [
        | inl e ↦ rw (create_staging, e) (ensure_table-kept t x (c ∷ cs) d hx apart)
        | inr (m, e) ↦ rw (create_staging, e) (ensure_table-kept t x (c ∷ cs) d hx apart)
      ]

  pub begin_checked-kept :
      (t x : TargetTable) (cols : List Column) (d : D)
      → validate_target u t ≡ none
      → validate_target u x ≡ none
      → x ≢ t
      → laws.contents t (begin_checked u db t x cols d).1 ≡ laws.contents t d
  unfolding begin_checked drop_table_if_exists
  begin_checked-kept t x cols d ht hx apart = elim (Option-cases dropped.0) [
    | inr (m, e) ↦ rw (begin_checked, drop_table_if_exists, e) kept
    | inl e ↦ elim (Result-cases (table_exists db t dropped.1).0) [
      | inr (m, f) ↦
          rw (begin_checked, drop_table_if_exists, e, f) (table_exists-kept t t dropped.1 ∙ kept)
      | inl (live, f) ↦
          rw (begin_checked, drop_table_if_exists, e, f)
            (create_staging-kept t x cols live (table_exists db t dropped.1).1 ht hx apart
              ∙ table_exists-kept t t dropped.1
              ∙ kept)
    ]
  ]
    where
      dropped : Option Error × D
      dropped = db.exec (drop_if_exists_statement x) [] d

      kept : laws.contents t dropped.1 ≡ laws.contents t d
      kept = laws.drop_if_exists_keeps t x d hx apart

  -- A body that keeps what is saved loses nothing when it fails.
  in_tx-fails :
      (t : TargetTable) (body : D → Option Error × D) (m : Error) (d : D)
      → ((d' : D) → laws.saved t (body d').1 ≡ laws.saved t d')
      → (in_tx db body d).0 ≡ some m
      → laws.contents t (in_tx db body d).1 ≡ laws.contents t d
  unfolding in_tx
  in_tx-fails t body m d keeps = elim (Option-cases begun.0) [
    | inr (n, e) ↦ rw (in_tx, e) (λ _. laws.begin_tx_keeps t d)
    | inl e ↦ elim (Option-cases (body begun.1).0) [
      | inr (n, f) ↦ rw (in_tx, e, f) (λ _. laws.rollback_restores t (body begun.1).1 ∙ safe)
      | inl f ↦ rw (in_tx, e, f) (λ bad. laws.commit_fails t m (body begun.1).1 bad ∙ safe)
    ]
  ]
    where
      begun : Option Error × D
      begun = db.begin_tx d

      safe : laws.saved t (body begun.1).1 ≡ laws.contents t d
      safe = keeps begun.1 ∙ laws.begin_tx_saves t d

  rename_in_tx-saved :
      (t from : TargetTable) (name : Text) (d : D)
      → laws.saved t (rename_in_tx u db from name d).1 ≡ laws.saved t d
  unfolding rename_in_tx
  rename_in_tx-saved t from name d = elim (Option-cases (validate u name)) [
    | inr (m, e) ↦ rw (rename_in_tx, e) refl
    | inl e ↦ elim (Option-cases (db.exec rename_statement (rename_args from name) d).0) [
      | inl f ↦
          rw (rename_in_tx, e, f) (laws.exec_saves t rename_statement (rename_args from name) d)
      | inr (m, f) ↦
          rw (rename_in_tx, e, f) (laws.exec_saves t rename_statement (rename_args from name) d)
    ]
  ]

  swap-saved :
      (t target staging old : TargetTable) (d : D)
      → laws.saved t (swap u db target staging old d).1 ≡ laws.saved t d
  unfolding swap
  swap-saved t target staging old d = elim (Option-cases moved.0) [
    | inr (m, e) ↦ rw (swap, e) (rename_in_tx-saved t target old.name d)
    | inl e ↦ elim (Option-cases published.0) [
      | inr (m, f) ↦ rw (swap, e, f) both
      | inl f ↦ elim (Option-cases (db.exec (drop_statement old) [] published.1).0) [
        | inr (m, g) ↦
            rw (swap, e, f, g) (laws.exec_saves t (drop_statement old) [] published.1 ∙ both)
        | inl g ↦ rw (swap, e, f, g) (laws.exec_saves t (drop_statement old) [] published.1 ∙ both)
      ]
    ]
  ]
    where
      moved : Option Error × D
      moved = rename_in_tx u db target old.name d

      published : Option Error × D
      published = rename_in_tx u db staging target.name moved.1

      both : laws.saved t published.1 ≡ laws.saved t d
      both =
          rename_in_tx-saved t staging target.name moved.1 ∙ rename_in_tx-saved t target old.name d

  -- What a commit that fails leaves of the target.
  swap_live-fails :
      (t s : TargetTable) (m : Error) (d : D)
      → validate_target u t ≡ none
      → (swap_live u db t s d).0 ≡ some m
      → laws.contents t (swap_live u db t s d).1 ≡ laws.contents t d
  unfolding swap_live old_target drop_table_if_exists
  swap_live-fails t s m d ht = elim (Option-cases (validate u (t.name ++ old_suffix))) [
    | inr (n, e) ↦ rw (swap_live, old_target, e) (λ _. refl)
    | inl e ↦ elim (Option-cases dropped.0) [
      | inr (n, f) ↦ rw (swap_live, old_target, e, drop_table_if_exists, f) (λ _. kept e)
      | inl f ↦
          rw (swap_live, old_target, e, drop_table_if_exists, f)
            (λ bad.
              in_tx-fails t (swap u db t s old) m dropped.1 (swap-saved t t s old) bad ∙ kept e)
    ]
  ]
    where
      old : TargetTable
      old = beside t (t.name ++ old_suffix)

      dropped : Option Error × D
      dropped = db.exec (drop_if_exists_statement old) [] d

      kept :
          validate u (t.name ++ old_suffix) ≡ none → laws.contents t dropped.1 ≡ laws.contents t d
      kept e =
          laws.drop_if_exists_keeps t old d
            (validate_target-of u old (validate_target-parts u t ht).0 e)
            (longer-apart t old_suffix (omega arith))

  commit_checked-fails :
      (t s : TargetTable) (m : Error) (d : D)
      → validate_target u t ≡ none
      → (commit_checked u db t s d).0 ≡ some m
      → laws.contents t (commit_checked u db t s d).1 ≡ laws.contents t d
  unfolding commit_checked rename_table
  commit_checked-fails t s m d ht = elim (Result-cases live.0) [
    | inr (n, e) ↦ rw (commit_checked, e) (λ _. table_exists-kept t t d)
    | inl (there, e) ↦ elim (Result-cases stg.0) [
      | inr (n, f) ↦ rw (commit_checked, e, f) (λ _. kept)
      | inl (false, f) ↦ rw (commit_checked, e, f) (λ _. kept)
      | inl (true, f) ↦ rw (commit_checked, e, f) (exchange there)
    ]
  ]
    where
      live : Result Bool × D
      live = table_exists db t d

      stg : Result Bool × D
      stg = table_exists db s live.1

      kept : laws.contents t stg.1 ≡ laws.contents t d
      kept = table_exists-kept t s live.1 ∙ table_exists-kept t t d

      exchanged : Bool → Option Error × D
      exchanged there = elim there [
        | false ↦ rename_table u db s t.name stg.1
        | true ↦ swap_live u db t s stg.1
      ]

      exchange :
          (there : Bool)
          → (exchanged there).0 ≡ some m
          → laws.contents t (exchanged there).1 ≡ laws.contents t d
      exchange false bad =
          in_tx-fails t (rename_in_tx u db s t.name) m stg.1 (rename_in_tx-saved t s t.name) bad
          ∙ kept
      exchange true bad = swap_live-fails t s m stg.1 ht bad ∙ kept

  pub commit_replace-fails :
      (t s : TargetTable) (m : Error) (d : D)
      → (commit_replace u db t s d).0 ≡ some m
      → laws.contents t (commit_replace u db t s d).1 ≡ laws.contents t d
  unfolding commit_replace
  commit_replace-fails t s m d = elim (Option-cases (validate_target u t)) [
    | inr (n, e) ↦ rw (commit_replace, e) (λ _. refl)
    | inl e ↦ elim (Option-cases (validate_target u s)) [
      | inr (n, f) ↦ rw (commit_replace, e, f) (λ _. refl)
      | inl f ↦ rw (commit_replace, e, f) (commit_checked-fails t s m d e)
    ]
  ]

  pub abort_replace-kept :
      (t s : TargetTable) (d : D)
      → s ≢ t
      → laws.contents t (abort_replace u db s d).1 ≡ laws.contents t d
  unfolding abort_replace drop_table_if_exists
  abort_replace-kept t s d apart = elim (Option-cases (validate_target u s)) [
    | inr (n, e) ↦ rw (abort_replace, e) refl
    | inl e ↦ rw (abort_replace, e) (laws.drop_if_exists_keeps t s d e apart)
  ]
