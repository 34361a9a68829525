-- ===== src/Sink/Replace/Statements.antt =====
-- What a database promises of the statements of internal/sink/replace.go, and the names in them.
use data_loader.Prelude.{
  ◌<◌, ◌≡◌, ◌≢◌, refl, ap, Option, none, some, List, [], ◌++◌, arith, Text, Error, ok, length,
  length-append,
}
use data_loader.Contracts.{TargetTable, Column, Row}
use data_loader.SqlIdent.{Unicode, validate}
use data_loader.Sink.{Database, validate_target, column_defs, create_statement}
use data_loader.Sink.Replace.{
  drop_if_exists_statement, drop_statement, clone_statement, rename_statement, rename_args,
}

-- The table of a name in the schema of another table.
abbrev pub beside : TargetTable → Text → TargetTable
beside t name = record { schema = t.schema; name = name }

-- The documented behaviour of the statements on the rows of the tables, for names that `validate`
-- accepts, compared exactly. `saved` is what a rollback of the open transaction restores. A dotted
-- name is one that `sp_rename` refuses, as it reads more than two parts.
pub record DatabaseLaws {D : Type 0} (u : Unicode) (db : Database D) : Type 0 where
  pub contents : TargetTable → D → Option (List Row)
  pub saved : TargetTable → D → Option (List Row)
  pub query_keeps :
      (t : TargetTable) (q : Text) (args : List Text) (d : D)
      → contents t (db.query_count q args d).1 ≡ contents t d
  pub drop_if_exists_keeps :
      (t x : TargetTable) (d : D)
      → validate_target u x ≡ none
      → x ≢ t
      → contents t (db.exec (drop_if_exists_statement x) [] d).1 ≡ contents t d
  pub clone_keeps :
      (t x y : TargetTable) (d : D)
      → validate_target u x ≡ none
      → validate_target u y ≡ none
      → x ≢ t
      → contents t (db.exec (clone_statement x y) [] d).1 ≡ contents t d
  pub create_keeps :
      (t x : TargetTable) (cols : List Column) (defs : List Text) (d : D)
      → validate_target u x ≡ none
      → column_defs u cols ≡ ok defs
      → x ≢ t
      → contents t (db.exec (create_statement x defs) [] d).1 ≡ contents t d
  pub begin_tx_keeps : (t : TargetTable) (d : D) → contents t (db.begin_tx d).1 ≡ contents t d
  pub begin_tx_saves : (t : TargetTable) (d : D) → saved t (db.begin_tx d).1 ≡ contents t d
  pub exec_saves :
      (t : TargetTable) (q : Text) (args : List Text) (d : D)
      → saved t (db.exec q args d).1 ≡ saved t d
  pub rollback_restores : (t : TargetTable) (d : D) → contents t (db.rollback d) ≡ saved t d
  pub commit_fails :
      (t : TargetTable) (e : Error) (d : D)
      → (db.commit d).0 ≡ some e
      → contents t (db.commit d).1 ≡ saved t d
  pub commit_keeps :
      (t : TargetTable) (d : D) → (db.commit d).0 ≡ none → contents t (db.commit d).1 ≡ contents t d
  pub rename_moves :
      (from : TargetTable) (name : Text) (d : D)
      → validate_target u from ≡ none
      → validate u name ≡ none
      → (db.exec rename_statement (rename_args from name) d).0 ≡ none
      → contents (beside from name) (db.exec rename_statement (rename_args from name) d).1
        ≡ contents from d
  pub rename_others :
      (t from : TargetTable) (name : Text) (d : D)
      → validate_target u from ≡ none
      → validate u name ≡ none
      → from ≢ t
      → beside from name ≢ t
      → contents t (db.exec rename_statement (rename_args from name) d).1 ≡ contents t d
  pub drop_keeps :
      (t x : TargetTable) (d : D)
      → validate_target u x ≡ none
      → x ≢ t
      → contents t (db.exec (drop_statement x) [] d).1 ≡ contents t d

-- A table whose name is longer is another table.
pub longer-apart :
    (t : TargetTable) (suffix : Text) → 0 < length suffix → beside t (t.name ++ suffix) ≢ t
longer-apart t suffix more same =
    omega (arith, length-append t.name suffix, ap (λ (x : TargetTable). length x.name) same)

pub validate_target-parts :
    (u : Unicode) (t : TargetTable)
    → validate_target u t ≡ none
    → (validate u t.schema ≡ none) × (validate u t.name ≡ none)
unfolding validate_target
validate_target-parts u t h = (grind arith, grind arith)

pub validate_target-of :
    (u : Unicode) (t : TargetTable)
    → validate u t.schema ≡ none
    → validate u t.name ≡ none
    → validate_target u t ≡ none
unfolding validate_target
validate_target-of u t h k = rw (validate_target, h, k) refl
