-- ===== src/Sources/SqlServer.antt =====
-- internal/sources/sqlserver/source.go: reading a table or a window of it from SQL Server.
pub mod Guid
use data_loader.Prelude.{
  ℕ, String, Bool, true, false, ◌||◌, Option, none, some, List, [], ◌∷◌, ◌++◌, if◌then◌else◌,
  str_eq, Text, same_text, lit, to_upper, one_of, Error, wrap, plain, Result, ok, err,
}
use data_loader.Contracts.{
  Column, Batch, Row, Value, null, boolean, string, bytes, integer, float, datetime, uuid,
  LoadConfig, ReadResult, Watermark, mode_append, mode_replace, watermark_none, watermark_datetime,
  watermark_numeric, empty_result,
}
use data_loader.SqlIdent.{Unicode, validate, quote_mssql, quote_mssql_qualified}
use data_loader.Pipeline.Ports.{Source}
use data_loader.Sources.Driver.{
  Cursor, SqlArg, string_arg, SourceDb, Conversions, trim_space, typed, time_watermark,
  text_watermark, Query, is_blank,
}
use data_loader.Sources.Cursor.{fill_row, columns_of, batch_size_of, is_first_run, deliver}
use data_loader.Sources.SqlServer.Guid.{format_guid}

-- `canonicalType`.
unfoldable pub canonical_type : Text → String
unfolding same_text
canonical_type db_type =
    let t = to_upper db_type in
    if one_of t ("BIT" ∷ [])
    then "bool"
    else if one_of t ("TINYINT" ∷ "SMALLINT" ∷ "INT" ∷ [])
    then "int32"
    else if one_of t ("BIGINT" ∷ [])
    then "int64"
    else if one_of t ("REAL" ∷ [])
    then "float32"
    else if one_of t ("FLOAT" ∷ [])
    then "float64"
    else if one_of t ("DECIMAL" ∷ "NUMERIC" ∷ "MONEY" ∷ "SMALLMONEY" ∷ [])
    then "decimal"
    else if one_of t
        ("DATE" ∷ "DATETIME" ∷ "DATETIME2" ∷ "SMALLDATETIME" ∷ "DATETIMEOFFSET" ∷ "TIME" ∷ [])
    then "datetime"
    else if one_of t ("BINARY" ∷ "VARBINARY" ∷ "IMAGE" ∷ [])
    then "bytes"
    else if one_of t ("UNIQUEIDENTIFIER" ∷ [])
    then "guid"
    else "string"

abbrev decimal_value : Conversions → Value → Value
decimal_value go (bytes b) = string (go.text_of_bytes b)
decimal_value go (float x) = string (go.format_float x)
decimal_value go (integer x) = string (go.format_int x)
decimal_value go v = v

abbrev string_value : Conversions → Value → Value
string_value go (bytes b) = string (go.text_of_bytes b)
string_value go v = v

abbrev pub guid_value : Conversions → Value → Value
unfolding format_guid
guid_value go (bytes b) = elim (format_guid b) [
  | ok s ↦ string s
  | err e ↦ string (go.text_of_bytes b)
]
guid_value go v = v

-- `normalizeValue`.
unfoldable pub normalize_value : Conversions → Value → String → Value
normalize_value go v canonical =
    if str_eq canonical "decimal"
    then decimal_value go v
    else if str_eq canonical "string"
    then string_value go v
    else if str_eq canonical "guid"
    then guid_value go v
    else v

-- The query and the scan of `currentMaxWatermark`, by the type of the watermark.
unfoldable pub query_max :
    {D : Type 0} → Conversions → SourceDb D → Text → Text → String → D → Result Watermark × D
unfolding trim_space
query_max go db column object type d =
    if str_eq type watermark_datetime
    then (let (r, d') = db.query_time (lit "SELECT MAX(" ++ column ++ lit ") FROM " ++ object) d in
        elim r [ err e ↦ (err e, d') | ok t ↦ (ok (time_watermark go type t), d') ])
    else if str_eq type watermark_numeric
    then (let (r, d') =
          db.query_string
            (lit "SELECT CONVERT(varchar(40), MAX(" ++ column ++ lit ")) FROM " ++ object) d in
        elim r [ err e ↦ (err e, d') | ok s ↦ (ok (text_watermark type trim_space s), d') ])
    else (let (r, d') =
          db.query_string
            (lit "SELECT CONVERT(varchar(400), MAX(" ++ column ++ lit ")) FROM " ++ object) d in
        elim r [ err e ↦ (err e, d') | ok s ↦ (ok (text_watermark type (λ x. x) s), d') ])

-- `currentMaxWatermark`, of an object that is quoted already.
unfoldable pub current_max_watermark :
    {D : Type 0}
    → Unicode
    → Conversions
    → SourceDb D
    → Text
    → Text
    → String
    → D
    → Result Watermark × D
unfolding validate quote_mssql query_max
current_max_watermark u go db object column type d = elim (validate u column) [
  | some e ↦ (err (wrap "watermark column" e), d)
  | none ↦ query_max go db (quote_mssql column) object type d
]

abbrev window_query : Text → Text → Text
window_query object column =
    lit "SELECT * FROM "
    ++ object
    ++ lit " WHERE "
    ++ column
    ++ lit " > @p1 AND "
    ++ column
    ++ lit " <= @p2 ORDER BY "
    ++ column

-- The query over the window between two watermarks.
abbrev window : Text → Text → Watermark → Watermark → Query
window object column last upper = record {
  text = window_query object column;
  args = string_arg last.value ∷ string_arg upper.value ∷ [];
  new_watermark = upper;
}

-- `buildQuery`.
unfoldable pub build_query :
    {D : Type 0} → Unicode → Conversions → SourceDb D → LoadConfig → D → Result Query × D
unfolding quote_mssql_qualified validate quote_mssql current_max_watermark
build_query u go db load d = elim (quote_mssql_qualified u load.object_name) [
  | err e ↦ (err e, d)
  | ok object ↦
      if str_eq load.mode mode_append || str_eq load.mode mode_replace
      then (
        ok (record {
          text = lit "SELECT * FROM " ++ object;
          args = [];
          new_watermark = typed watermark_none "";
        }),
        d,
      )
      else if is_blank load.watermark_column || str_eq load.watermark_type watermark_none
      then (err (plain "delta load requires watermark column and type"), d)
      else elim (validate u load.watermark_column) [
        | some e ↦ (err (wrap "watermark column" e), d)
        | none ↦
            let (r, d') =
              current_max_watermark u go db object load.watermark_column load.watermark_type d in
            elim r [
              | err e ↦ (err e, d')
              | ok upper ↦ (
                ok (window object (quote_mssql load.watermark_column) load.last_watermark upper),
                d',
              )
            ]
      ]
]

module _ {D : Type 0} (u : Unicode) (go : Conversions) (db : SourceDb D) where
  -- The read of the rows of a query: the columns, then the batches.
  unfoldable pub read_query :
      {S : Type 0}
      → LoadConfig
      → Query
      → (Batch → S → Option Error × S)
      → D
      → S
      → (ReadResult × Option Error) × (D × S)
  unfolding columns_of fill_row deliver normalize_value canonical_type
  read_query load q handler d s =
      let (r, d') = db.query q.text q.args d in
      elim r [
        | err e ↦ ((empty_result, some (wrap "query source" e)), (d', s))
        | ok cursor ↦ elim cursor.column_types [
          | err e ↦ ((empty_result, some e), (d', s))
          | ok types ↦
              let columns = columns_of canonical_type types in
              let (n, s') =
                deliver handler columns (λ vs. fill_row (normalize_value go) columns vs []) (λ e. e)
                  (batch_size_of load.batch_size) (λ e. e) cursor s in
              elim n [
                | err e ↦ ((empty_result, some e), (d', s'))
                | ok rows_read ↦ (
                  (
                    record {
                      rows_read = rows_read;
                      new_watermark = q.new_watermark;
                      watermark_init = false;
                    },
                    none,
                  ),
                  (d', s'),
                )
              ]
        ]
      ]

  -- The first run of a delta load: the watermark of now, and no rows.
  unfoldable pub first_run : LoadConfig → D → (ReadResult × Option Error) × D
  unfolding quote_mssql_qualified current_max_watermark
  first_run load d = elim (quote_mssql_qualified u load.object_name) [
    | err e ↦ ((empty_result, some e), d)
    | ok object ↦
        let (r, d') =
          current_max_watermark u go db object load.watermark_column load.watermark_type d in
        elim r [
          | err e ↦ ((empty_result, some (wrap "initialize watermark" e)), d')
          | ok upper ↦
              ((record { rows_read = 0; new_watermark = upper; watermark_init = true }, none), d')
        ]
  ]

  -- `Read`.
  unfoldable pub read :
      {S : Type 0}
      → LoadConfig
      → (Batch → S → Option Error × S)
      → D
      → S
      → (ReadResult × Option Error) × (D × S)
  unfolding is_first_run first_run build_query read_query
  read load handler d s =
      if is_first_run load
      then (let (r, d') = first_run load d in (r, (d', s)))
      else (let (r, d') = build_query u go db load d in
          elim r [
            | err e ↦ ((empty_result, some e), (d', s))
            | ok q ↦ read_query load q handler d' s
          ])

  -- The source as the runner sees it, over an open connection.
  abbrev pub source : {S : Type 0} → D → Source S
  source d = record { read = λ cfg handler s. let (r, ds) = read cfg handler d s in (r, ds.1) }
