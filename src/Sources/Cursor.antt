-- ===== src/Sources/Cursor.antt =====
-- internal/sources/postgres and internal/sources/sqlserver: the loop of `Read` over the rows of a
-- result set, which is the same in both.
pub mod Batches
pub mod Handlers
use data_loader.Prelude.{
  ℕ, suc, Bool, true, false, Option, none, some, List, [], ◌∷◌, ◌++◌, String, ltb, leb, length,
  if◌then◌else◌, Text, same_text, Error, Result, ok, err, str_eq,
}
use data_loader.Contracts.{Column, Batch, Row, Value, LoadConfig, mode_delta, watermark_none}
use data_loader.Sources.Driver.{ColumnType, Cursor}

-- `row[name] = v` on a Go map.
unfoldable pub put : Text → Value → Row → Row
unfolding same_text
put name v [] = (name, v) ∷ []
put name v ((k, w) ∷ row) =
    let rest = put name v row in if same_text k name then (name, v) ∷ row else (k, w) ∷ rest

-- The loop that fills a row, for as many values as there are columns.
unfoldable pub fill_row : (Value → String → Value) → List Column → List Value → Row → Row
unfolding put
fill_row normalize [] vs row = row
fill_row normalize (c ∷ cs) [] row = row
fill_row normalize (c ∷ cs) (v ∷ vs) row =
    fill_row normalize cs vs (put c.name (normalize v c.data_type) row)

-- The columns of a result set, with their canonical types.
unfoldable pub columns_of : (Text → String) → List ColumnType → List Column
columns_of canonical [] = []
columns_of canonical (ct ∷ cts) =
    record { name = ct.name; data_type = canonical ct.type_name; nullable = ct.nullable }
    ∷ columns_of canonical cts

-- `load.BatchSize`, or 1000.
abbrev pub batch_size_of : ℕ → ℕ
batch_size_of n = if ltb 0 n then n else 1000

-- The part of a load that both sources test for the first run of a delta load.
unfoldable pub is_first_run : LoadConfig → Bool
is_first_run load = elim load.watermark_column [
  | [] ↦ false
  | c ∷ cs ↦
      if str_eq load.mode mode_delta
      then (if str_eq load.watermark_type watermark_none
          then false
          else str_eq load.last_watermark.value "")
      else false
]

module _ {S : Type 0} (handler : Batch → S → Option Error × S) (columns : List Column)
    (make : List Value → Row) (scan_error : Error → Error) (batch_size : ℕ) where
  -- `for rows.Next()`: the rows that are not delivered yet, and the count of the rows read.
  unfoldable pub read_rows :
      List (Result (List Value)) → List Row → ℕ → S → Result (List Row × ℕ) × S
  read_rows [] pending n s = (ok (pending, n), s)
  read_rows (err e ∷ rows) pending n s = (err (scan_error e), s)
  read_rows (ok vs ∷ rows) pending n s =
      let batch = pending ++ (make vs ∷ []) in
      let (r, s') = handler (record { columns = columns; rows = batch }) s in
      elim (leb batch_size (length batch)) [
        | true ↦ elim r [ some e ↦ (err e, s') | none ↦ read_rows rows [] (suc n) s' ]
        | false ↦ read_rows rows batch (suc n) s
      ]

  -- The last batch, after `rows.Err()`.
  unfoldable pub flush : List Row → ℕ → S → Result ℕ × S
  flush [] n s = (ok n, s)
  flush (row ∷ rows) n s =
      let (r, s') = handler (record { columns = columns; rows = row ∷ rows }) s in
      elim r [ some e ↦ (err e, s') | none ↦ (ok n, s') ]

  -- The delivery of a result set: the number of rows read.
  unfoldable pub deliver : (Error → Error) → Cursor → S → Result ℕ × S
  unfolding read_rows flush
  deliver rows_error cursor s =
      let (r, s') = read_rows cursor.rows [] 0 s in
      elim r [
        | err e ↦ (err e, s')
        | ok (pending, n) ↦ elim cursor.rows_err [
          | some e ↦ (err (rows_error e), s')
          | none ↦ flush pending n s'
        ]
      ]
