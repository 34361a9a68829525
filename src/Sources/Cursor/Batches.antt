-- ===== src/Sources/Cursor/Batches.antt =====
-- The batches that the sources of databases deliver.
use mathlib.Core.List.{append-nil, append_assoc}
use data_loader.Prelude.{
  ℕ, suc, ◌+◌, ◌≤◌, ◌<◌, ◌≡◌, refl, sym, ◌∙◌, ap, Bool, true, false, Option, none, List, [], ◌∷◌,
  ◌++◌, map, length, length-append, leb, Bool-cases, inl, inr, arith, Error, Result, ok, err,
}
use data_loader.Contracts.{Column, Batch, Row, Value}
use data_loader.Sources.Driver.{ColumnType}
use data_loader.Sources.Cursor.{read_rows, flush, deliver}

-- A handler that accepts every batch and keeps it.
abbrev pub recorder : Batch → List Batch → Option Error × List Batch
recorder b seen = (none, seen ++ (b ∷ []))

-- The rows of batches, one batch after the other.
abbrev pub rows_of : List Batch → List Row
rows_of [] = []
rows_of (b ∷ bs) = b.rows ++ rows_of bs

-- Each batch has a row at least, and no more rows than the batch size.
abbrev pub AreSized : ℕ → List Batch → Type 0
AreSized size [] = Unit
AreSized size (b ∷ bs) = ((0 < length b.rows) × (length b.rows ≤ size)) × AreSized size bs

rows_of-append : (bs : List Batch) (b : Batch) → rows_of (bs ++ (b ∷ [])) ≡ rows_of bs ++ b.rows
rows_of-append [] b = append-nil b.rows
rows_of-append (c ∷ bs) b = rw (rows_of-append bs b, append_assoc c.rows (rows_of bs) b.rows)

rows_of_sent :
    (seen : List Batch) (b : Batch) (rows : List Row)
    → rows_of (seen ++ (b ∷ [])) ++ rows ≡ rows_of seen ++ (b.rows ++ rows)
rows_of_sent seen b rows =
    ap (λ (rs : List Row). rs ++ rows) (rows_of-append seen b)
    ∙ append_assoc (rows_of seen) b.rows rows

append-AreSized :
    (size : ℕ) (bs : List Batch) (b : Batch)
    → AreSized size bs
    → 0 < length b.rows
    → length b.rows ≤ size
    → AreSized size (bs ++ (b ∷ []))
append-AreSized size [] b hs lo hi = ((lo, hi), tt)
append-AreSized size (c ∷ bs) b hs lo hi = (hs.0, append-AreSized size bs b hs.1 lo hi)

module _ (columns : List Column) (make : List Value → Row) (scan_error : Error → Error)
    (batch_size : ℕ) where
  abbrev batch_of : List Row → Batch
  batch_of rows = record { columns = columns; rows = rows }

  abbrev run : List (List Value) → List Row → ℕ → List Batch → Result (List Row × ℕ) × List Batch
  run vs = read_rows recorder columns make scan_error batch_size (map (λ v. ok v) vs)

  run_full :
      (v : List Value) (vs : List (List Value)) (pending : List Row) (n : ℕ) (seen : List Batch)
      → leb batch_size (length (pending ++ (make v ∷ []))) ≡ true
      → run (v ∷ vs) pending n seen
        ≡ run vs [] (suc n) (seen ++ (batch_of (pending ++ (make v ∷ [])) ∷ []))
  unfolding read_rows
  run_full v vs pending n seen e =
      ap
        (λ (b : Bool). elim b [
          | true ↦ run vs [] (suc n) (seen ++ (batch_of (pending ++ (make v ∷ [])) ∷ []))
          | false ↦ run vs (pending ++ (make v ∷ [])) (suc n) seen
        ])
        e

  run_part :
      (v : List Value) (vs : List (List Value)) (pending : List Row) (n : ℕ) (seen : List Batch)
      → leb batch_size (length (pending ++ (make v ∷ []))) ≡ false
      → run (v ∷ vs) pending n seen ≡ run vs (pending ++ (make v ∷ [])) (suc n) seen
  unfolding read_rows
  run_part v vs pending n seen e =
      ap
        (λ (b : Bool). elim b [
          | true ↦ run vs [] (suc n) (seen ++ (batch_of (pending ++ (make v ∷ [])) ∷ []))
          | false ↦ run vs (pending ++ (make v ∷ [])) (suc n) seen
        ])
        e

  -- What the loop leaves of rows that all scan: the rows that wait, and the batches.
  abbrev Reads : List (List Value) → List Row → ℕ → List Batch → Type 0
  Reads vs pending n seen =
      (rest : List Row) × (m : ℕ) × (bs : List Batch) × (run vs pending n seen ≡ (ok (rest, m), bs))
      × (m ≡ n + length vs)
      × (rows_of bs ++ rest ≡ rows_of seen ++ (pending ++ map make vs))
      × (length rest < batch_size)
      × AreSized batch_size bs

  read_rows_exact :
      (vs : List (List Value)) (pending : List Row) (n : ℕ) (seen : List Batch)
      → length pending < batch_size
      → AreSized batch_size seen
      → Reads vs pending n seen
  unfolding read_rows
  read_rows_exact [] pending n seen lt hs =
      (pending, n, seen, refl, omega arith, rw (append-nil pending), lt, hs)
  read_rows_exact (v ∷ vs) pending n seen lt hs =
      let batch = pending ++ (make v ∷ []) in
      let size = length-append pending (make v ∷ []) in
      let one =
        ap (λ (rs : List Row). rows_of seen ++ rs)
          (append_assoc pending (make v ∷ []) (map make vs)) in
      elim (Bool-cases (leb batch_size (length batch))) [
        | inl e ↦
            let sent = seen ++ (batch_of batch ∷ []) in
            let (rest, m, bs, eq, total, rows, small, sized) =
              read_rows_exact vs [] (suc n) sent (omega arith) (
                append-AreSized batch_size seen (batch_of batch) hs (omega (arith, size))
                  (omega (arith, size))) in
            (
              rest,
              m,
              bs,
              run_full v vs pending n seen e ∙ eq,
              omega (arith, total),
              rows ∙ rows_of_sent seen (batch_of batch) (map make vs) ∙ one,
              small,
              sized,
            )
        | inr e ↦
            let (rest, m, bs, eq, total, rows, small, sized) =
              read_rows_exact vs batch (suc n) seen (ground (arith, size)) hs in
            (
              rest,
              m,
              bs,
              run_part v vs pending n seen e ∙ eq,
              omega (arith, total),
              rows ∙ one,
              small,
              sized,
            )
      ]

  flush_exact :
      (rest : List Row) (m : ℕ) (bs : List Batch)
      → length rest < batch_size
      → AreSized batch_size bs
      → (all : List Batch) × (flush recorder columns make scan_error batch_size rest m bs
          ≡ (ok m, all))
        × (rows_of all ≡ rows_of bs ++ rest)
        × AreSized batch_size all
  unfolding flush
  flush_exact [] m bs small sized = (bs, refl, sym (append-nil (rows_of bs)), sized)
  flush_exact (r ∷ rs) m bs small sized = (
    bs ++ (batch_of (r ∷ rs) ∷ []),
    refl,
    rows_of-append bs (batch_of (r ∷ rs)),
    append-AreSized batch_size bs (batch_of (r ∷ rs)) sized (omega arith) (omega arith),
  )

  -- Over rows that all scan, of a cursor that ends without an error, the loop with a handler that
  -- accepts reads every row: it returns their number, and the batches that it delivers have all of
  -- the rows in their order, each batch a row at least and no more than the batch size.
  pub deliver_exact :
      (rows_error : Error → Error) (types : Result (List ColumnType)) (vs : List (List Value))
      → 0 < batch_size
      → (bs : List Batch) × (deliver recorder columns make scan_error batch_size rows_error
            (record { column_types = types; rows = map (λ v. ok v) vs; rows_err = none })
            []
          ≡ (ok (length vs), bs))
        × (rows_of bs ≡ map make vs)
        × AreSized batch_size bs
  unfolding deliver read_rows flush
  deliver_exact rows_error types vs lo =
      let (rest, m, bs, eq, total, rows, small, sized) = read_rows_exact vs [] 0 [] lo tt in
      let (all, flushed, whole, fit) = flush_exact rest m bs small sized in
      let looped =
        ap
          (λ (o : Result (List Row × ℕ) × List Batch). elim o.0 [
            | err e ↦ (err e, o.1)
            | ok (pending, n) ↦ flush recorder columns make scan_error batch_size pending n o.1
          ])
          eq in
      (all, looped ∙ flushed ∙ ap (λ (k : ℕ). (ok k, all)) (total ∙ omega arith), whole ∙ rows, fit)
