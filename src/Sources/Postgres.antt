-- ===== src/Sources/Postgres.antt =====
-- internal/sources/postgres/source.go: reading a table or a window of it from Postgres.
use data_loader.Prelude.{
  String, true, false, ◌||◌, Option, none, some, [], ◌∷◌, ◌++◌, if◌then◌else◌, str_eq, Text,
  same_text, lit, to_upper, one_of, Error, wrap, plain, Result, ok, err,
}
use data_loader.Contracts.{
  Batch, Value, string, bytes, integer, float, LoadConfig, ReadResult, Watermark, mode_append,
  mode_replace, watermark_none, watermark_datetime, watermark_numeric, empty_result,
}
use data_loader.SqlIdent.{Unicode, validate, quote_postgres, quote_postgres_qualified}
use data_loader.Pipeline.Ports.{Source}
use data_loader.Sources.Driver.{
  SqlArg, string_arg, time_arg, SourceDb, Conversions, trim_space, typed, time_watermark,
  text_watermark, Query, is_blank,
}
use data_loader.Sources.Cursor.{fill_row, columns_of, batch_size_of, is_first_run, deliver}

-- `mapDriverType`.
unfoldable pub map_driver_type : Text → String
unfolding same_text
map_driver_type db_type =
    let t = to_upper db_type in
    if one_of t ("INT8" ∷ "BIGINT" ∷ [])
    then "int64"
    else if one_of t ("INT4" ∷ "INTEGER" ∷ "INT2" ∷ "SMALLINT" ∷ [])
    then "int32"
    else if one_of t ("FLOAT4" ∷ "REAL" ∷ [])
    then "float32"
    else if one_of t ("FLOAT8" ∷ "DOUBLE PRECISION" ∷ [])
    then "float64"
    else if one_of t ("NUMERIC" ∷ "DECIMAL" ∷ "MONEY" ∷ [])
    then "decimal"
    else if one_of t ("BOOL" ∷ "BOOLEAN" ∷ [])
    then "bool"
    else if one_of t ("TIMESTAMP" ∷ "TIMESTAMPTZ" ∷ "DATE" ∷ "TIME" ∷ "TIMETZ" ∷ [])
    then "datetime"
    else if one_of t ("BYTEA" ∷ [])
    then "bytes"
    else "string"

abbrev decimal_value : Conversions → Value → Value
decimal_value go (bytes b) = string (go.text_of_bytes b)
decimal_value go (float x) = string (go.format_float x)
decimal_value go (integer x) = string (go.format_int x)
decimal_value go v = v

abbrev string_value : Conversions → Value → Value
string_value go (bytes b) = string (go.text_of_bytes b)
string_value go v = v

-- `normalizeValue`; a time is an instant here, so `UTC` changes nothing.
unfoldable pub normalize_value : Conversions → Value → String → Value
normalize_value go v canonical =
    if str_eq canonical "decimal"
    then decimal_value go v
    else if str_eq canonical "string"
    then string_value go v
    else v

-- `parseWatermark`.
unfoldable pub parse_watermark : Conversions → Watermark → Result SqlArg
parse_watermark go w =
    if str_eq w.type watermark_datetime
    then elim (go.parse_time w.value) [ err e ↦ err e | ok t ↦ ok (time_arg t) ]
    else ok (string_arg w.value)

-- The query and the scan of `currentMaxWatermark`, by the type of the watermark.
unfoldable pub query_max :
    {D : Type 0} → Conversions → SourceDb D → Text → Text → String → D → Result Watermark × D
unfolding trim_space
query_max go db column object type d =
    if str_eq type watermark_datetime
    then (let (r, d') = db.query_time (lit "SELECT MAX(" ++ column ++ lit ") FROM " ++ object) d in
        elim r [ err e ↦ (err e, d') | ok t ↦ (ok (time_watermark go type t), d') ])
    else (let (r, d') =
          db.query_string (lit "SELECT MAX(" ++ column ++ lit ")::text FROM " ++ object) d in
        elim r [
          | err e ↦ (err e, d')
          | ok s ↦ (
            ok (
                text_watermark type (if str_eq type watermark_numeric then trim_space else λ x. x)
                  s),
            d',
          )
        ])

-- `currentMaxWatermark`.
unfoldable pub current_max_watermark :
    {D : Type 0}
    → Unicode
    → Conversions
    → SourceDb D
    → Text
    → Text
    → String
    → D
    → Result Watermark × D
unfolding validate quote_postgres quote_postgres_qualified query_max
current_max_watermark u go db object column type d = elim (validate u column) [
  | some e ↦ (err (wrap "watermark column" e), d)
  | none ↦ elim (quote_postgres_qualified u object) [
    | err e ↦ (err e, d)
    | ok quoted ↦ query_max go db (quote_postgres column) quoted type d
  ]
]

abbrev window_query : Text → Text → Text
window_query object column =
    lit "SELECT * FROM "
    ++ object
    ++ lit " WHERE "
    ++ column
    ++ lit " > $1 AND "
    ++ column
    ++ lit " <= $2 ORDER BY "
    ++ column
    ++ lit " ASC"

-- The two bounds of the window, and the query over it.
unfoldable pub window : Conversions → Text → Text → Watermark → Watermark → Result Query
unfolding parse_watermark
window go object column last upper = elim (parse_watermark go last) [
  | err e ↦ err e
  | ok low ↦ elim (parse_watermark go upper) [
    | err e ↦ err e
    | ok high ↦ ok (record {
      text = window_query object column;
      args = low ∷ high ∷ [];
      new_watermark = upper;
    })
  ]
]

-- `buildQuery`.
unfoldable pub build_query :
    {D : Type 0} → Unicode → Conversions → SourceDb D → LoadConfig → D → Result Query × D
unfolding quote_postgres_qualified validate quote_postgres current_max_watermark window
build_query u go db load d = elim (quote_postgres_qualified u load.object_name) [
  | err e ↦ (err e, d)
  | ok object ↦
      if str_eq load.mode mode_append || str_eq load.mode mode_replace
      then (
        ok (record {
          text = lit "SELECT * FROM " ++ object;
          args = [];
          new_watermark = typed watermark_none "";
        }),
        d,
      )
      else if is_blank load.watermark_column || str_eq load.watermark_type watermark_none
      then (err (plain "delta load requires watermark column and type"), d)
      else elim (validate u load.watermark_column) [
        | some e ↦ (err (wrap "watermark column" e), d)
        | none ↦
            let (r, d') =
              current_max_watermark u go db load.object_name load.watermark_column
                load.watermark_type d in
            elim r [
              | err e ↦ (err e, d')
              | ok upper ↦ (
                window go object (quote_postgres load.watermark_column) load.last_watermark upper,
                d',
              )
            ]
      ]
]

module _ {D : Type 0} (u : Unicode) (go : Conversions) (db : SourceDb D) where
  -- The read of the rows of a query: the columns, then the batches.
  unfoldable pub read_query :
      {S : Type 0}
      → LoadConfig
      → Query
      → (Batch → S → Option Error × S)
      → D
      → S
      → (ReadResult × Option Error) × (D × S)
  unfolding columns_of fill_row deliver normalize_value map_driver_type
  read_query load q handler d s =
      let (r, d') = db.query q.text q.args d in
      elim r [
        | err e ↦ ((empty_result, some (wrap "execute source query" e)), (d', s))
        | ok cursor ↦ elim cursor.column_types [
          | err e ↦ ((empty_result, some (wrap "column types" e)), (d', s))
          | ok types ↦
              let columns = columns_of map_driver_type types in
              let (n, s') =
                deliver handler columns (λ vs. fill_row (normalize_value go) columns vs [])
                  (wrap "scan row") (batch_size_of load.batch_size) (wrap "iterate rows") cursor
                  s in
              elim n [
                | err e ↦ ((empty_result, some e), (d', s'))
                | ok rows_read ↦ (
                  (
                    record {
                      rows_read = rows_read;
                      new_watermark = q.new_watermark;
                      watermark_init = false;
                    },
                    none,
                  ),
                  (d', s'),
                )
              ]
        ]
      ]

  -- `Read`.
  unfoldable pub read :
      {S : Type 0}
      → LoadConfig
      → (Batch → S → Option Error × S)
      → D
      → S
      → (ReadResult × Option Error) × (D × S)
  unfolding is_first_run current_max_watermark build_query read_query
  read load handler d s =
      if is_first_run load
      then (let (r, d') =
            current_max_watermark u go db load.object_name load.watermark_column load.watermark_type
              d in
          elim r [
            | err e ↦ ((empty_result, some (wrap "initialize watermark" e)), (d', s))
            | ok upper ↦ (
              (record { rows_read = 0; new_watermark = upper; watermark_init = true }, none),
              (d', s),
            )
          ])
      else (let (r, d') = build_query u go db load d in
          elim r [
            | err e ↦ ((empty_result, some e), (d', s))
            | ok q ↦ read_query load q handler d' s
          ])

  -- The source as the runner sees it, over an open connection.
  abbrev pub source : {S : Type 0} → D → Source S
  source d = record { read = λ cfg handler s. let (r, ds) = read cfg handler d s in (r, ds.1) }
