-- ===== src/Sink.antt =====
-- internal/sink/mssql.go: the SQL Server sink. The connection pool `*sql.DB` and the bulk copy of
-- go-mssqldb are parameters, over a state `D` of the database; the statements that the sink sends are
-- built here as texts.
pub mod Replace
pub mod Columns
use data_loader.Prelude.{
  ℕ, suc, String, Bool, true, false, Option, none, some, List, [], ◌∷◌, ◌++◌, ◌==◌, length, ltb,
  if◌then◌else◌, Text, same_text, lit, to_lower, txt, str, Error, format, wrap, wrap_format, plain,
  Result, ok, err,
}
use data_loader.Contracts.{
  TargetTable, Column, Batch, Row, Value, null, boolean, string, bytes, integer, float, datetime,
  uuid,
}
use data_loader.SqlIdent.{Unicode, validate, quote_mssql}

-- What the sink uses of `*sql.DB`, `*sql.Tx` and the bulk copy.
pub record Database (D : Type 0) : Type 0 where
  pub exec : Text → List Text → D → Option Error × D
  -- `QueryRowContext(...).Scan(&n)`
  pub query_count : Text → List Text → D → Result ℕ × D
  pub begin_tx : D → Option Error × D
  pub commit : D → Option Error × D
  pub rollback : D → D
  pub conn : D → Option Error × D
  -- the type assertion for `CreateBulk`
  pub has_bulk : Bool
  pub create_bulk : Text → List Text → D → D
  pub add_row : List Value → D → Option Error × D
  pub bulk_done : D → Option Error × D
  -- `mssql.UniqueIdentifier.Scan` of a string and of `string(x)` for bytes
  pub scan_guid : Text → Result (List ℕ)
  pub scan_guid_bytes : List ℕ → Result (List ℕ)

abbrev pub load_timestamp_column : Text
load_timestamp_column = lit "yb_load_timestamp"

-- `%s.%s` of the two quoted names.
abbrev pub full_name : TargetTable → Text
full_name t = quote_mssql t.schema ++ (b'.' ∷ quote_mssql t.name)

-- `validateTarget`.
unfoldable pub validate_target : Unicode → TargetTable → Option Error
unfolding validate
validate_target u t = elim (validate u t.schema) [
  | some e ↦ some (wrap "target schema" e)
  | none ↦ elim (validate u t.name) [ some e ↦ some (wrap "target table" e) | none ↦ none ]
]

abbrev pub count_tables : Text
count_tables =
    lit
      "\n\t\tSELECT COUNT(*) FROM INFORMATION_SCHEMA.TABLES\n\t\tWHERE TABLE_SCHEMA = @p1 AND TABLE_NAME = @p2\n\t"

-- `tableExists`.
unfoldable pub table_exists : {D : Type 0} → Database D → TargetTable → D → Result Bool × D
table_exists db t d =
    let (r, d') = db.query_count count_tables (t.schema ∷ t.name ∷ []) d in
    elim r [ err e ↦ (err e, d') | ok n ↦ (ok (ltb 0 n), d') ]

-- `TableExists`.
unfoldable pub table_exists_checked :
    {D : Type 0} → Unicode → Database D → TargetTable → D → Result Bool × D
unfolding validate_target
table_exists_checked u db t d = elim (validate_target u t) [
  | some e ↦ (err e, d)
  | none ↦ table_exists db t d
]

-- `mapToSQLType`.
unfoldable pub map_to_sql_type : Text → Text
unfolding same_text
map_to_sql_type canonical =
    let t = to_lower canonical in
    if same_text t (lit "string")
    then lit "nvarchar(max)"
    else if same_text t (lit "int32")
    then lit "int"
    else if same_text t (lit "int64")
    then lit "bigint"
    else if same_text t (lit "float32")
    then lit "real"
    else if same_text t (lit "float64")
    then lit "float"
    else if same_text t (lit "bool")
    then lit "bit"
    else if same_text t (lit "datetime")
    then lit "datetime2"
    else if same_text t (lit "bytes")
    then lit "varbinary(max)"
    else if same_text t (lit "decimal")
    then lit "decimal(38,10)"
    else if same_text t (lit "guid")
    then lit "uniqueidentifier"
    else lit "nvarchar(max)"

abbrev nullability : Bool → Text
nullability true = lit "NULL"
nullability false = lit "NOT NULL"

-- `fmt.Sprintf("%s %s %s", ...)` for a column.
abbrev pub column_def : Column → Text
column_def c =
    quote_mssql c.name
    ++ (b' ' ∷ map_to_sql_type (lit c.data_type) ++ b' ' ∷ nullability c.nullable)

abbrev pub timestamp_def : Text
timestamp_def = quote_mssql load_timestamp_column ++ lit " datetime2 NOT NULL"

-- The loop of `EnsureTable` over the columns, with what it appends to `cols` after it.
unfoldable pub column_defs : Unicode → List Column → Result (List Text)
unfolding validate
column_defs u [] = ok (timestamp_def ∷ [])
column_defs u (c ∷ cs) = elim (validate u c.name) [
  | some e ↦ err (wrap "column name" e)
  | none ↦ elim (column_defs u cs) [ err e ↦ err e | ok defs ↦ ok (column_def c ∷ defs) ]
]

-- `strings.Join(cols, ",\n  ")`.
abbrev join_defs : List Text → Text
join_defs [] = []
join_defs (t ∷ []) = t
join_defs (t ∷ s ∷ ts) = t ++ lit ",\n  " ++ join_defs (s ∷ ts)

abbrev pub create_statement : TargetTable → List Text → Text
create_statement t defs =
    lit "CREATE TABLE " ++ full_name t ++ lit " (\n  " ++ join_defs defs ++ lit "\n);"

-- `EnsureTable`.
unfoldable pub ensure_table :
    {D : Type 0} → Unicode → Database D → TargetTable → List Column → D → Option Error × D
unfolding validate_target table_exists column_defs
ensure_table u db t cols d = elim (validate_target u t) [
  | some e ↦ (some e, d)
  | none ↦
      let (r, d') = table_exists db t d in
      elim r [
        | err e ↦ (some e, d')
        | ok true ↦ (none, d')
        | ok false ↦ elim (column_defs u cols) [
          | err e ↦ (some e, d')
          | ok defs ↦ db.exec (create_statement t defs) [] d'
        ]
      ]
]

-- `Truncate`.
unfoldable pub truncate : {D : Type 0} → Unicode → Database D → TargetTable → D → Option Error × D
unfolding validate_target
truncate u db t d = elim (validate_target u t) [
  | some e ↦ (some e, d)
  | none ↦ db.exec (lit "TRUNCATE TABLE " ++ full_name t) [] d
]

-- `toGUID`.
unfoldable pub to_guid : {D : Type 0} → Database D → Value → Result Value
to_guid db null = ok null
to_guid db (uuid x) = ok (uuid x)
to_guid db (string x) = elim (db.scan_guid x) [
  | err e ↦ err (wrap_format "parse guid %q: %w" (txt x ∷ []) e)
  | ok g ↦ ok (uuid g)
]
to_guid db (bytes x) = if length x == 16 then ok (uuid x) else elim (db.scan_guid_bytes x) [
  | err e ↦ err (wrap_format "parse guid %q: %w" (txt x ∷ []) e)
  | ok g ↦ ok (uuid g)
]
to_guid db (boolean _) = err (plain "unsupported type bool for guid column")
to_guid db (integer _) = err (plain "unsupported type int64 for guid column")
to_guid db (float _) = err (plain "unsupported type float64 for guid column")
to_guid db (datetime _) = err (plain "unsupported type time.Time for guid column")

-- `prepareValue`.
unfoldable pub prepare_value : {D : Type 0} → Database D → Column → Value → Result Value
unfolding to_guid same_text
prepare_value db c v = if same_text (lit c.data_type) (lit "guid") then to_guid db v else ok v

-- `row[name]`: nil if the row has no such column.
unfoldable pub row_value : Row → Text → Value
unfolding same_text
row_value [] name = null
row_value ((k, v) ∷ row) name =
    let rest = row_value row name in if same_text k name then v else rest

-- The inner loop of `WriteBatch`: a row's values in the order of the columns.
unfoldable pub row_values : {D : Type 0} → Database D → List Column → Row → Result (List Value)
unfolding prepare_value row_value
row_values db [] row = ok []
row_values db (c ∷ cs) row = elim (prepare_value db c (row_value row c.name)) [
  | err e ↦ err (wrap_format "column %q: %w" (txt c.name ∷ []) e)
  | ok v ↦ elim (row_values db cs row) [ err e ↦ err e | ok vs ↦ ok (v ∷ vs) ]
]

-- The outer loop, with `rowsWritten`, and `bulk.Done` after it.
unfoldable pub add_rows :
    {D : Type 0} → Database D → List Column → ℕ → List Row → ℕ → D → Result ℕ × D
unfolding row_values
add_rows db cols ts [] written d =
    let (r, d') = db.bulk_done d in elim r [ some e ↦ (err e, d') | none ↦ (ok written, d') ]
add_rows db cols ts (row ∷ rows) written d = elim (row_values db cols row) [
  | err e ↦ (err e, d)
  | ok vals ↦
      let (r, d') = db.add_row (vals ++ (datetime ts ∷ [])) d in
      let rest = add_rows db cols ts rows (suc written) d' in
      elim r [ some e ↦ (err e, d') | none ↦ rest ]
]

-- The column names in the order of the values.
unfoldable pub column_names : Unicode → List Column → Result (List Text)
unfolding validate
column_names u [] = ok (load_timestamp_column ∷ [])
column_names u (c ∷ cs) = elim (validate u c.name) [
  | some e ↦ err (wrap "column name" e)
  | none ↦ elim (column_names u cs) [ err e ↦ err e | ok names ↦ ok (c.name ∷ names) ]
]

-- `WriteBatch`.
unfoldable pub write_batch :
    {D : Type 0} → Unicode → Database D → TargetTable → Batch → ℕ → D → Result ℕ × D
unfolding validate_target column_names add_rows
write_batch u db t b ts d = elim b.rows [
  | [] ↦ (ok 0, d)
  | row ∷ rows ↦
      let (r, d') = db.conn d in
      elim r [
        | some e ↦ (err e, d')
        | none ↦ elim (validate_target u t) [
          | some e ↦ (err e, d')
          | none ↦ elim (column_names u b.columns) [
            | err e ↦ (err e, d')
            | ok names ↦
                if db.has_bulk
                then add_rows db b.columns ts (row ∷ rows) 0 (db.create_bulk (full_name t) names d')
                else (err (plain "driver does not support bulk copy"), d')
          ]
        ]
      ]
]
