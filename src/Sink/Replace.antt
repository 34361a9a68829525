-- ===== src/Sink/Replace.antt =====
-- internal/sink/replace.go: the atomic replace of a table (ADR-020), clone to a staging table and
-- swap by two renames in one transaction. A `tx.Rollback()` that is deferred past a `Commit` does
-- nothing (`sql.ErrTxDone`), so it stands only on the paths that do not commit.
pub mod Statements
pub mod Laws
pub mod Publish
mod Tests
use data_loader.Prelude.{
  ℕ, Bool, true, false, Option, none, some, List, [], ◌∷◌, ◌++◌, Text, lit, txt, Error, format,
  wrap, wrap_format, Result, ok, err,
}
use data_loader.Contracts.{TargetTable, Column}
use data_loader.SqlIdent.{Unicode, validate}
use data_loader.Sink.{Database, full_name, validate_target, table_exists, ensure_table}
use data_loader.Pipeline.Ports.{AtomicReplacer}

abbrev pub staging_suffix : Text
staging_suffix = lit "_stg"

abbrev pub old_suffix : Text
old_suffix = lit "_old"

-- `stagingTarget`.
unfoldable pub staging_target : Unicode → TargetTable → Result TargetTable
staging_target u t = elim (validate u (t.name ++ staging_suffix)) [
  | some e ↦ err (wrap "staging table name" e)
  | none ↦ ok (record { schema = t.schema; name = t.name ++ staging_suffix })
]

-- `oldTarget`.
unfoldable pub old_target : Unicode → TargetTable → Result TargetTable
old_target u t = elim (validate u (t.name ++ old_suffix)) [
  | some e ↦ err (wrap "old table name" e)
  | none ↦ ok (record { schema = t.schema; name = t.name ++ old_suffix })
]

abbrev pub drop_if_exists_statement : TargetTable → Text
drop_if_exists_statement t = lit "DROP TABLE IF EXISTS " ++ full_name t

abbrev pub drop_statement : TargetTable → Text
drop_statement t = lit "DROP TABLE " ++ full_name t

abbrev pub clone_statement : TargetTable → TargetTable → Text
clone_statement s t =
    lit "SELECT * INTO " ++ full_name s ++ lit " FROM " ++ full_name t ++ lit " WHERE 1 = 0"

abbrev pub rename_statement : Text
rename_statement = lit "EXEC sp_rename @objname, @newname;"

-- The two arguments of `sp_rename`.
abbrev pub rename_args : TargetTable → Text → List Text
rename_args from new_name = (from.schema ++ (b'.' ∷ from.name)) ∷ new_name ∷ []

-- `dropTableIfExists`.
unfoldable pub drop_table_if_exists : {D : Type 0} → Database D → TargetTable → D → Option Error × D
drop_table_if_exists db t d = db.exec (drop_if_exists_statement t) [] d

-- `renameInTx`.
unfoldable pub rename_in_tx :
    {D : Type 0} → Unicode → Database D → TargetTable → Text → D → Option Error × D
rename_in_tx u db from new_name d = elim (validate u new_name) [
  | some e ↦ (some (wrap "rename target" e), d)
  | none ↦
      let (r, d') = db.exec rename_statement (rename_args from new_name) d in
      elim r [
        | some e ↦ (
          some (
              wrap_format "sp_rename %s -> %s: %w"
                (txt (from.schema ++ (b'.' ∷ from.name)) ∷ txt new_name ∷ []) e),
          d',
        )
        | none ↦ (none, d')
      ]
]

-- A transaction around a body, which `tx.Rollback` ends if the body fails.
unfoldable pub in_tx : {D : Type 0} → Database D → (D → Option Error × D) → D → Option Error × D
in_tx db body d =
    let (r, d1) = db.begin_tx d in
    elim r [
      | some e ↦ (some e, d1)
      | none ↦
          let (r2, d2) = body d1 in
          elim r2 [ some e ↦ (some e, db.rollback d2) | none ↦ db.commit d2 ]
    ]

-- `renameTable`.
unfoldable pub rename_table :
    {D : Type 0} → Unicode → Database D → TargetTable → Text → D → Option Error × D
unfolding in_tx rename_in_tx
rename_table u db from new_name d = in_tx db (rename_in_tx u db from new_name) d

-- The statements of the swap.
unfoldable pub swap :
    {D : Type 0}
    → Unicode
    → Database D
    → TargetTable
    → TargetTable
    → TargetTable
    → D
    → Option Error × D
unfolding rename_in_tx
swap u db target staging old d =
    let (r, d1) = rename_in_tx u db target old.name d in
    elim r [
      | some e ↦ (some e, d1)
      | none ↦
          let (r2, d2) = rename_in_tx u db staging target.name d1 in
          elim r2 [
            | some e ↦ (some e, d2)
            | none ↦
                let (r3, d3) = db.exec (drop_statement old) [] d2 in
                elim r3 [ some e ↦ (some (wrap "drop old table" e), d3) | none ↦ (none, d3) ]
          ]
    ]

-- `CommitReplace` from the point where the live table is known to exist.
unfoldable pub swap_live :
    {D : Type 0} → Unicode → Database D → TargetTable → TargetTable → D → Option Error × D
unfolding old_target drop_table_if_exists in_tx swap
swap_live u db target staging d = elim (old_target u target) [
  | err e ↦ (some e, d)
  | ok old ↦
      let (r, d1) = drop_table_if_exists db old d in
      elim r [
        | some e ↦ (some (wrap "drop previous old table" e), d1)
        | none ↦ in_tx db (swap u db target staging old) d1
      ]
]

-- The part of `CommitReplace` that looks for the two tables.
unfoldable pub commit_checked :
    {D : Type 0} → Unicode → Database D → TargetTable → TargetTable → D → Option Error × D
unfolding table_exists rename_table swap_live
commit_checked u db target staging d =
    let (live, d1) = table_exists db target d in
    elim live [
      | err e ↦ (some e, d1)
      | ok live_exists ↦
          let (stg, d2) = table_exists db staging d1 in
          elim stg [
            | err e ↦ (some e, d2)
            | ok false ↦ (
              some (
                  format "commit replace: staging %s.%s does not exist"
                    (txt staging.schema ∷ txt staging.name ∷ [])),
              d2,
            )
            | ok true ↦ elim live_exists [
              | false ↦ rename_table u db staging target.name d2
              | true ↦ swap_live u db target staging d2
            ]
          ]
    ]

-- `CommitReplace`.
unfoldable pub commit_replace :
    {D : Type 0} → Unicode → Database D → TargetTable → TargetTable → D → Option Error × D
unfolding validate_target commit_checked
commit_replace u db target staging d = elim (validate_target u target) [
  | some e ↦ (some e, d)
  | none ↦ elim (validate_target u staging) [
    | some e ↦ (some e, d)
    | none ↦ commit_checked u db target staging d
  ]
]

-- The staging table as a clone of the live table, or from the columns of the first batch.
unfoldable pub create_staging :
    {D : Type 0}
    → Unicode
    → Database D
    → TargetTable
    → TargetTable
    → List Column
    → Bool
    → D
    → Result TargetTable × D
unfolding ensure_table
create_staging u db target staging cols true d =
    let (r, d') = db.exec (clone_statement staging target) [] d in
    elim r [ some e ↦ (err (wrap "clone staging schema" e), d') | none ↦ (ok staging, d') ]
create_staging u db target staging [] false d = (
  err (
      format "begin replace: columns required when target %s.%s does not exist"
        (txt target.schema ∷ txt target.name ∷ [])),
  d,
)
create_staging u db target staging (c ∷ cs) false d =
    let (r, d') = ensure_table u db staging (c ∷ cs) d in
    elim r [ some e ↦ (err (wrap "create staging" e), d') | none ↦ (ok staging, d') ]

-- `BeginReplace` for two names that are valid.
unfoldable pub begin_checked :
    {D : Type 0}
    → Unicode
    → Database D
    → TargetTable
    → TargetTable
    → List Column
    → D
    → Result TargetTable × D
unfolding drop_table_if_exists table_exists create_staging
begin_checked u db target staging cols d =
    let (r, d1) = drop_table_if_exists db staging d in
    elim r [
      | some e ↦ (err (wrap "drop staging" e), d1)
      | none ↦
          let (live, d2) = table_exists db target d1 in
          elim live [
            | err e ↦ (err e, d2)
            | ok live_exists ↦ create_staging u db target staging cols live_exists d2
          ]
    ]

-- `BeginReplace`.
unfoldable pub begin_replace :
    {D : Type 0} → Unicode → Database D → TargetTable → List Column → D → Result TargetTable × D
unfolding validate_target staging_target begin_checked
begin_replace u db target cols d = elim (validate_target u target) [
  | some e ↦ (err e, d)
  | none ↦ elim (staging_target u target) [
    | err e ↦ (err e, d)
    | ok staging ↦ begin_checked u db target staging cols d
  ]
]

-- `AbortReplace`.
unfoldable pub abort_replace :
    {D : Type 0} → Unicode → Database D → TargetTable → D → Option Error × D
unfolding validate_target drop_table_if_exists
abort_replace u db staging d = elim (validate_target u staging) [
  | some e ↦ (some e, d)
  | none ↦ drop_table_if_exists db staging d
]

-- `*MSSQLSink` as a `contracts.AtomicReplacer`.
abbrev pub mssql_replacer : {D : Type 0} → Unicode → Database D → AtomicReplacer D
mssql_replacer u db = record {
  begin_replace = begin_replace u db;
  commit_replace = commit_replace u db;
  abort_replace = abort_replace u db;
}
