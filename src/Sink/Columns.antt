-- ===== src/Sink/Columns.antt =====
-- What `WriteBatch` and `EnsureTable` do with columns and rows.
use data_loader.Prelude.{
  ok_inj, ℕ, suc, ◌+◌, ◌≡◌, sym, ap, ◌∙◌, Bool, true, false, Option, List, [], ◌∷◌, ◌++◌, length,
  arith, Error, Result, ok, err, Option-cases, Result-cases, if◌then◌else◌, inl, inr,
}
use data_loader.Contracts.{TargetTable, Column, Batch, Row, Value, datetime}
use data_loader.SqlIdent.{Unicode}
use data_loader.Sink.{
  Database, full_name, validate_target, column_names, row_values, row_value, prepare_value,
  add_rows, write_batch,
}

module _ {D : Type 0} (db : Database D) where
  -- A row that is passed on has one value for each column.
  length-row_values :
      (cols : List Column) (row : Row) (vals : List Value)
      → row_values db cols row ≡ ok vals
      → length vals ≡ length cols
  unfolding row_values
  length-row_values [] row vals = λ h. ap length (sym (ok_inj h))
  length-row_values (c ∷ cs) row vals =
      elim (Result-cases (prepare_value db c (row_value row c.name))) [
        | inr (m, e) ↦ rw (row_values, e) (λ q. cc)
        | inl (v, e) ↦ elim (Result-cases (row_values db cs row)) [
          | inr (m, f) ↦ rw (row_values, e, f) (λ q. cc)
          | inl (vs, f) ↦
              rw (row_values, e, f)
                (λ q. sym (ap length (ok_inj q)) ∙ ap suc (length-row_values cs row vs f))
        ]
      ]

  add_rows-counts :
      (cols : List Column) (ts : ℕ) (rows : List Row) (written n : ℕ) (d : D)
      → (add_rows db cols ts rows written d).0 ≡ ok n
      → n ≡ written + length rows
  unfolding add_rows
  add_rows-counts cols ts [] written n d = elim (Option-cases (db.bulk_done d).0) [
    | inr (m, e) ↦ rw (add_rows, e) (λ q. cc)
    | inl e ↦ rw (add_rows, e) (λ q. omega (arith, ok_inj q))
  ]
  add_rows-counts cols ts (row ∷ rows) written n d = elim (Result-cases (row_values db cols row)) [
    | inr (m, e) ↦ rw (add_rows, e) (λ q. cc)
    | inl (vals, e) ↦
        let added = db.add_row (vals ++ (datetime ts ∷ [])) d in
        elim (Option-cases added.0) [
          | inr (m, f) ↦ rw (add_rows, e, f) (λ q. cc)
          | inl f ↦
              rw (add_rows, e, f)
                (λ q. omega (arith, add_rows-counts cols ts rows (suc written) n added.1 q))
        ]
  ]

then-ok :
    {D : Type 0} (x : Result ℕ × D) (e : Error) (d : D) (b : Bool) (n : ℕ)
    → (if b then x else (err e, d)).0 ≡ ok n
    → x.0 ≡ ok n
then-ok x e d true n = λ q. q
then-ok x e d false n = λ q. cc

write_batch-rows :
    {D : Type 0} (u : Unicode) (db : Database D) (t : TargetTable) (cols : List Column)
    (rows : List Row) (ts n : ℕ) (d : D)
    → (write_batch u db t (record { columns = cols; rows = rows }) ts d).0 ≡ ok n
    → n ≡ length rows
unfolding write_batch
write_batch-rows {D = D} u db t cols [] ts n d = λ q. sym (ok_inj q)
write_batch-rows {D = D} u db t cols (row ∷ rows) ts n d = elim (Option-cases conn.0) [
  | inr (m, e) ↦ rw (write_batch, e) (λ q. cc)
  | inl e ↦ elim (Option-cases (validate_target u t)) [
    | inr (m, f) ↦ rw (write_batch, e, f) (λ q. cc)
    | inl f ↦ elim (Result-cases (column_names u cols)) [
      | inr (m, g) ↦ rw (write_batch, e, f, g) (λ q. cc)
      | inl (names, g) ↦
          rw (write_batch, e, f, g)
            (λ q. omega (
              arith,
              add_rows-counts db cols ts (row ∷ rows) 0 n
                  (db.create_bulk (full_name t) names conn.1) (then-ok _ _ _ db.has_bulk n q),
            ))
    ]
  ]
]
  where
    conn : Option Error × D
    conn = db.conn d

-- A `WriteBatch` that succeeds reports exactly the number of rows of the batch.
pub write_batch-counts :
    {D : Type 0} (u : Unicode) (db : Database D) (t : TargetTable) (b : Batch) (ts n : ℕ) (d : D)
    → (write_batch u db t b ts d).0 ≡ ok n
    → n ≡ length b.rows
write_batch-counts u db t b ts n d = write_batch-rows u db t b.columns b.rows ts n d
