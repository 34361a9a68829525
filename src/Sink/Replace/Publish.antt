-- ===== src/Sink/Replace/Publish.antt =====
-- What `CommitReplace` publishes, and the contract of `contracts.AtomicReplacer` as a whole.
use data_loader.Prelude.{
  ◌≡◌, ◌≢◌, refl, sym, ap, ◌∙◌, subst, Bool, true, false, Option, none, List, [], ◌∷◌, ◌++◌, arith,
  Text, Error, Result, ok, Option-cases, Result-cases, inl, inr,
}
use data_loader.Contracts.{TargetTable, Column}
use data_loader.SqlIdent.{Unicode, validate}
use data_loader.Sink.{Database, validate_target, table_exists, ensure_table}
use data_loader.Sink.Replace.{
  staging_suffix, old_suffix, staging_target, old_target, drop_if_exists_statement, drop_statement,
  clone_statement, rename_statement, rename_args, drop_table_if_exists, rename_in_tx, in_tx,
  rename_table, swap, swap_live, commit_checked, commit_replace, create_staging, begin_checked,
  begin_replace, mssql_replacer,
}
use data_loader.Sink.Replace.Statements.{
  beside, DatabaseLaws, longer-apart, validate_target-parts, validate_target-of,
}
use data_loader.Sink.Replace.Laws.{
  table_exists-kept, begin_checked-kept, commit_replace-fails, abort_replace-kept,
}
use data_loader.Pipeline.Ports.{AtomicLaws}

suffixes-apart : (name : Text) → name ++ old_suffix ≢ name ++ staging_suffix
suffixes-apart [] same = grind arith
suffixes-apart (c ∷ cs) same = suffixes-apart cs (cc)

module _ {D : Type 0} (u : Unicode) (db : Database D) where
  create_staging-ok :
      (t x s : TargetTable) (cols : List Column) (live : Bool) (d : D)
      → (create_staging u db t x cols live d).0 ≡ ok s
      → s ≡ x
  unfolding create_staging
  create_staging-ok t x s cols true d = elim (Option-cases (db.exec (clone_statement x t) [] d).0) [
    | inl e ↦ rw (create_staging, e) (λ q. cc)
    | inr (m, e) ↦ rw (create_staging, e) (λ q. cc)
  ]
  create_staging-ok t x s [] false d = λ q. cc
  create_staging-ok t x s (c ∷ cs) false d =
      elim (Option-cases (ensure_table u db x (c ∷ cs) d).0) [
        | inl e ↦ rw (create_staging, e) (λ q. cc)
        | inr (m, e) ↦ rw (create_staging, e) (λ q. cc)
      ]

  begin_checked-ok :
      (t x s : TargetTable) (cols : List Column) (d : D)
      → (begin_checked u db t x cols d).0 ≡ ok s
      → s ≡ x
  unfolding begin_checked drop_table_if_exists
  begin_checked-ok t x s cols d = elim (Option-cases dropped.0) [
    | inr (m, e) ↦ rw (begin_checked, drop_table_if_exists, e) (λ q. cc)
    | inl e ↦ elim (Result-cases (table_exists db t dropped.1).0) [
      | inr (m, f) ↦ rw (begin_checked, drop_table_if_exists, e, f) (λ q. cc)
      | inl (live, f) ↦
          rw (begin_checked, drop_table_if_exists, e, f)
            (create_staging-ok t x s cols live (table_exists db t dropped.1).1)
    ]
  ]
    where
      dropped : Option Error × D
      dropped = db.exec (drop_if_exists_statement x) [] d

  -- The staging table is the one beside the target, with a name that is accepted.
  begin_replace-ok :
      (t s : TargetTable) (cols : List Column) (d : D)
      → (begin_replace u db t cols d).0 ≡ ok s
      → (s ≡ beside t (t.name ++ staging_suffix))
        × (validate_target u t ≡ none)
        × (validate u (t.name ++ staging_suffix) ≡ none)
  unfolding begin_replace staging_target
  begin_replace-ok t s cols d = elim (Option-cases (validate_target u t)) [
    | inr (n, e) ↦ rw (begin_replace, e) (λ q. cc)
    | inl e ↦ elim (Option-cases (validate u (t.name ++ staging_suffix))) [
      | inr (n, f) ↦ rw (begin_replace, staging_target, e, f) (λ q. cc)
      | inl f ↦
          rw (begin_replace, staging_target, e, f)
            (λ q. (begin_checked-ok t (beside t (t.name ++ staging_suffix)) s cols d q, refl, refl))
    ]
  ]

module _ {D : Type 0} (u : Unicode) (db : Database D) (laws : DatabaseLaws u db) where
  in_tx-succeeds :
      (t : TargetTable) (body : D → Option Error × D) (d : D)
      → (in_tx db body d).0 ≡ none
      → ((body (db.begin_tx d).1).0 ≡ none)
        × (laws.contents t (in_tx db body d).1 ≡ laws.contents t (body (db.begin_tx d).1).1)
  unfolding in_tx
  in_tx-succeeds t body d = elim (Option-cases (db.begin_tx d).0) [
    | inr (n, e) ↦ rw (in_tx, e) (λ q. cc)
    | inl e ↦ elim (Option-cases (body (db.begin_tx d).1).0) [
      | inr (n, f) ↦ rw (in_tx, e, f) (λ q. cc)
      | inl f ↦ rw (in_tx, e, f) (λ q. (refl, laws.commit_keeps t (body (db.begin_tx d).1).1 q))
    ]
  ]

  rename_in_tx-moves :
      (from : TargetTable) (name : Text) (d : D)
      → validate_target u from ≡ none
      → (rename_in_tx u db from name d).0 ≡ none
      → laws.contents (beside from name) (rename_in_tx u db from name d).1 ≡ laws.contents from d
  unfolding rename_in_tx
  rename_in_tx-moves from name d fine = elim (Option-cases (validate u name)) [
    | inr (m, e) ↦ rw (rename_in_tx, e) (λ q. cc)
    | inl e ↦ elim (Option-cases (db.exec rename_statement (rename_args from name) d).0) [
      | inl f ↦ rw (rename_in_tx, e, f) (λ _. laws.rename_moves from name d fine e f)
      | inr (m, f) ↦ rw (rename_in_tx, e, f) (λ q. cc)
    ]
  ]

  rename_in_tx-others :
      (t from : TargetTable) (name : Text) (d : D)
      → validate_target u from ≡ none
      → from ≢ t
      → beside from name ≢ t
      → laws.contents t (rename_in_tx u db from name d).1 ≡ laws.contents t d
  unfolding rename_in_tx
  rename_in_tx-others t from name d fine a b = elim (Option-cases (validate u name)) [
    | inr (m, e) ↦ rw (rename_in_tx, e) refl
    | inl e ↦ elim (Option-cases (db.exec rename_statement (rename_args from name) d).0) [
      | inl f ↦ rw (rename_in_tx, e, f) (laws.rename_others t from name d fine e a b)
      | inr (m, f) ↦ rw (rename_in_tx, e, f) (laws.rename_others t from name d fine e a b)
    ]
  ]

  module _ (t : TargetTable) (ht : validate_target u t ≡ none)
      (hs : validate u (t.name ++ staging_suffix) ≡ none) where
    abbrev stg : TargetTable
    stg = beside t (t.name ++ staging_suffix)

    abbrev old : TargetTable
    old = beside t (t.name ++ old_suffix)

    stg-valid : validate_target u stg ≡ none
    stg-valid = validate_target-of u stg (validate_target-parts u t ht).0 hs

    stg-apart : stg ≢ t
    stg-apart = longer-apart t staging_suffix (omega arith)

    old-apart : old ≢ t
    old-apart = longer-apart t old_suffix (omega arith)

    old-stg : old ≢ stg
    old-stg same = suffixes-apart t.name (ap (λ (x : TargetTable). x.name) same)

    swap-publishes :
        (d : D)
        → validate_target u old ≡ none
        → (swap u db t stg old d).0 ≡ none
        → laws.contents t (swap u db t stg old d).1 ≡ laws.contents stg d
    unfolding swap
    swap-publishes d ho = elim (Option-cases moved.0) [
      | inr (m, e) ↦ rw (swap, e) (λ q. cc)
      | inl e ↦ elim (Option-cases published.0) [
        | inr (m, f) ↦ rw (swap, e, f) (λ q. cc)
        | inl f ↦ elim (Option-cases (db.exec (drop_statement old) [] published.1).0) [
          | inr (m, g) ↦ rw (swap, e, f, g) (λ q. cc)
          | inl g ↦
              rw (swap, e, f, g)
                (λ _.
                  laws.drop_keeps t old published.1 ho old-apart
                  ∙ rename_in_tx-moves stg t.name moved.1 stg-valid f
                  ∙ rename_in_tx-others stg t old.name d ht (λ same. stg-apart (sym same)) old-stg)
        ]
      ]
    ]
      where
        moved : Option Error × D
        moved = rename_in_tx u db t old.name d

        published : Option Error × D
        published = rename_in_tx u db stg t.name moved.1

    swap_live-publishes :
        (d : D)
        → (swap_live u db t stg d).0 ≡ none
        → laws.contents t (swap_live u db t stg d).1 ≡ laws.contents stg d
    unfolding swap_live old_target drop_table_if_exists
    swap_live-publishes d = elim (Option-cases (validate u (t.name ++ old_suffix))) [
      | inr (n, e) ↦ rw (swap_live, old_target, e) (λ q. cc)
      | inl e ↦ elim (Option-cases dropped.0) [
        | inr (n, f) ↦ rw (swap_live, old_target, e, drop_table_if_exists, f) (λ q. cc)
        | inl f ↦
            rw (swap_live, old_target, e, drop_table_if_exists, f)
              (λ good.
                let ho = validate_target-of u old (validate_target-parts u t ht).0 e in
                let (fine, same) = in_tx-succeeds t (swap u db t stg old) dropped.1 good in
                same
                ∙ swap-publishes (db.begin_tx dropped.1).1 ho fine
                ∙ laws.begin_tx_keeps stg dropped.1
                ∙ laws.drop_if_exists_keeps stg old d ho old-stg)
      ]
    ]
      where
        dropped : Option Error × D
        dropped = db.exec (drop_if_exists_statement old) [] d

    commit_checked-publishes :
        (d : D)
        → (commit_checked u db t stg d).0 ≡ none
        → laws.contents t (commit_checked u db t stg d).1 ≡ laws.contents stg d
    unfolding commit_checked rename_table
    commit_checked-publishes d = elim (Result-cases live.0) [
      | inr (n, e) ↦ rw (commit_checked, e) (λ q. cc)
      | inl (there, e) ↦ elim (Result-cases stage.0) [
        | inr (n, f) ↦ rw (commit_checked, e, f) (λ q. cc)
        | inl (false, f) ↦ rw (commit_checked, e, f) (λ q. cc)
        | inl (true, f) ↦ rw (commit_checked, e, f) (exchange there)
      ]
    ]
      where
        live : Result Bool × D
        live = table_exists db t d

        stage : Result Bool × D
        stage = table_exists db stg live.1

        kept : laws.contents stg stage.1 ≡ laws.contents stg d
        kept = table_exists-kept u db laws stg stg live.1 ∙ table_exists-kept u db laws stg t d

        exchanged : Bool → Option Error × D
        exchanged there = elim there [
          | false ↦ rename_table u db stg t.name stage.1
          | true ↦ swap_live u db t stg stage.1
        ]

        exchange :
            (there : Bool)
            → (exchanged there).0 ≡ none
            → laws.contents t (exchanged there).1 ≡ laws.contents stg d
        exchange false good =
            let (fine, same) = in_tx-succeeds t (rename_in_tx u db stg t.name) stage.1 good in
            same
            ∙ rename_in_tx-moves stg t.name (db.begin_tx stage.1).1 stg-valid fine
            ∙ laws.begin_tx_keeps stg stage.1
            ∙ kept
        exchange true good = swap_live-publishes stage.1 good ∙ kept

    commit_replace-publishes :
        (d : D)
        → (commit_replace u db t stg d).0 ≡ none
        → laws.contents t (commit_replace u db t stg d).1 ≡ laws.contents stg d
    unfolding commit_replace
    commit_replace-publishes d = rw (commit_replace, ht, stg-valid) (commit_checked-publishes d)

  begin_replace-kept :
      (t : TargetTable) (cols : List Column) (d : D)
      → laws.contents t (begin_replace u db t cols d).1 ≡ laws.contents t d
  unfolding begin_replace staging_target
  begin_replace-kept t cols d = elim (Option-cases (validate_target u t)) [
    | inr (n, e) ↦ rw (begin_replace, e) refl
    | inl e ↦ elim (Option-cases (validate u (t.name ++ staging_suffix))) [
      | inr (n, f) ↦ rw (begin_replace, staging_target, e, f) refl
      | inl f ↦
          rw (begin_replace, staging_target, e, f)
            (begin_checked-kept u db laws t (stg t e f) cols d e (stg-valid t e f)
              (stg-apart t e f))
    ]
  ]

-- On a database that keeps its documented laws, the SQL Server sink is an atomic replacer: staging is
-- another table than the target, nothing but a commit that succeeds changes the rows of the target,
-- a commit that fails at any of its statements leaves them as they were, and one that succeeds
-- leaves there the rows of the staging table.
pub mssql_replacer-AtomicLaws :
    {D : Type 0} (u : Unicode) (db : Database D) (laws : DatabaseLaws u db)
    → AtomicLaws (mssql_replacer u db) laws.contents
mssql_replacer-AtomicLaws u db laws = record {
  staging_apart = λ t s cols d good same.
      longer-apart t staging_suffix (omega arith)
        (sym (begin_replace-ok u db t s cols d good).0 ∙ same);
  begin_keeps = begin_replace-kept u db laws;
  commit_publishes = λ t s cols d₀ d good done.
      let (same, ht, hs) = begin_replace-ok u db t s cols d₀ good in
      subst
        (λ x.
          (commit_replace u db t x d).0 ≡ none
          → laws.contents t (commit_replace u db t x d).1 ≡ laws.contents x d)
        (sym same) (commit_replace-publishes u db laws t ht hs d) done;
  commit_fails = commit_replace-fails u db laws;
  abort_keeps = abort_replace-kept u db laws;
}
