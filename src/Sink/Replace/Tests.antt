-- ===== src/Sink/Replace/Tests.antt =====
-- A server that accepts every statement and whose tables are all empty, with a log of the statements.
use data_loader.Prelude.{
  ◌≡◌, refl, true, false, ◌&&◌, ◌||◌, leb, Option, none, some, List, [], ◌∷◌, Text, lit, length, ok,
  err, plain,
}
use data_loader.Contracts.{TargetTable, Batch, Row, string}
use data_loader.SqlIdent.{Unicode, validate}
use data_loader.Sink.{
  Database, write_batch, validate_target, column_names, add_rows, row_values, prepare_value,
  row_value,
}
use data_loader.Sink.Columns.{write_batch-counts}
use data_loader.Sink.Replace.{mssql_replacer}
use data_loader.Sink.Replace.Statements.{DatabaseLaws}
use data_loader.Sink.Replace.Publish.{mssql_replacer-AtomicLaws}
use data_loader.Pipeline.Ports.{AtomicLaws}

abbrev ascii : Unicode
ascii = record {
  is_letter = λ c. (leb b'A' c && leb c b'Z') || (leb b'a' c && leb c b'z');
  is_number = λ c. leb b'0' c && leb c b'9';
  letter_ascii = λ c small. refl;
  number_ascii = λ c small. refl;
}

abbrev empty_server : Database (List Text)
empty_server = record {
  exec = λ q args d. (none, q ∷ d);
  query_count = λ q args d. (ok 1, q ∷ d);
  begin_tx = λ d. (none, lit "BEGIN" ∷ d);
  commit = λ d. (none, lit "COMMIT" ∷ d);
  rollback = λ d. lit "ROLLBACK" ∷ d;
  conn = λ d. (none, d);
  has_bulk = true;
  create_bulk = λ table columns d. table ∷ d;
  add_row = λ values d. (none, d);
  bulk_done = λ d. (none, d);
  scan_guid = λ t. err (plain "no guid");
  scan_guid_bytes = λ t. err (plain "no guid");
}

abbrev empty_contents : TargetTable → List Text → Option (List Row)
empty_contents t d = some []

empty_server-DatabaseLaws : DatabaseLaws ascii empty_server
empty_server-DatabaseLaws = record {
  contents = empty_contents;
  saved = empty_contents;
  query_keeps = λ t q args d. refl;
  drop_if_exists_keeps = λ t x d valid apart. refl;
  clone_keeps = λ t x y d vx vy apart. refl;
  create_keeps = λ t x cols defs d valid made apart. refl;
  begin_tx_keeps = λ t d. refl;
  begin_tx_saves = λ t d. refl;
  exec_saves = λ t q args d. refl;
  rollback_restores = λ t d. refl;
  commit_fails = λ t e d bad. refl;
  commit_keeps = λ t d good. refl;
  rename_moves = λ from name d vf vn good. refl;
  rename_others = λ t from name d vf vn a b. refl;
  drop_keeps = λ t x d valid apart. refl;
}

mssql_replacer-AtomicLaws_example :
    AtomicLaws (mssql_replacer ascii empty_server) empty_server-DatabaseLaws.contents
mssql_replacer-AtomicLaws_example =
    mssql_replacer-AtomicLaws ascii empty_server empty_server-DatabaseLaws

abbrev people : Batch
people = record {
  columns = record { name = lit "name"; data_type = "string"; nullable = false } ∷ [];
  rows = ((lit "name", string (lit "Ann")) ∷ []) ∷ ((lit "name", string (lit "Bob")) ∷ []) ∷ [];
}

abbrev people_table : TargetTable
people_table = record { schema = lit "dbo"; name = lit "people" }

people_written : (write_batch ascii empty_server people_table people 5 []).0 ≡ ok 2
unfolding write_batch validate_target column_names add_rows row_values prepare_value row_value
    validate
people_written = refl

write_batch-counts_example : 2 ≡ length people.rows
write_batch-counts_example =
    write_batch-counts ascii empty_server people_table people 5 2 [] people_written
