-- ===== src/Sources/Cursor/Handlers.antt =====
-- What the loop over the rows of a result set does with its handler: the state of the handler changes
-- by its calls alone, and its first error ends the loop.
use data_loader.Prelude.{
  ℕ, suc, Bool, true, false, Option, none, some, List, [], ◌∷◌, ◌++◌, length, leb, if◌then◌else◌,
  Error, Result, ok, err,
}
use data_loader.Contracts.{Column, Batch, Row, Value, ReadResult, empty_result}
use data_loader.Sources.Driver.{Cursor}
use data_loader.Sources.Cursor.{read_rows, flush, deliver}

-- What holds of a state after a call: one predicate if the call succeeds, another if it fails.
abbrev pub After : {S : Type 0} → (S → Type 0) → (S → Type 0) → Option Error × S → Type 0
After good bad (none, s) = good s
After good bad (some e, s) = bad s

abbrev pub Outcome : {S A : Type 0} → (S → Type 0) → (S → Type 0) → Result A × S → Type 0
Outcome good bad (ok a, s) = good s
Outcome good bad (err e, s) = bad s

module _ {S A : Type 0} (good bad : S → Type 0) where
  branch :
      (b : Bool) (x y : Result A × S)
      → Outcome {A = A} good bad x
      → Outcome {A = A} good bad y
      → Outcome {A = A} good bad (elim b [ true ↦ x | false ↦ y ])
  branch true x y p q = p
  branch false x y p q = q

  chain :
      (o : Option Error × S) (next : S → Result A × S)
      → After good bad o
      → ((t : S) → good t → Outcome {A = A} good bad (next t))
      → Outcome {A = A} good bad (elim o.0 [ some e ↦ (err e, o.1) | none ↦ next o.1 ])
  chain (none, s) next p q = q s p
  chain (some e, s) next p q = p

  unless :
      (o : Option Error) (f : Error → Error) (s : S) (next : Result A × S)
      → bad s
      → Outcome {A = A} good bad next
      → Outcome {A = A} good bad (elim o [ some e ↦ (err (f e), s) | none ↦ next ])
  unless none f s next p q = q
  unless (some e) f s next p q = p

chain_result :
    {S A B : Type 0} (good bad : S → Type 0) (o : Result A × S) (next : A → S → Result B × S)
    → Outcome {A = A} good bad o
    → ((a : A) (t : S) → good t → Outcome {A = B} good bad (next a t))
    → Outcome {A = B} good bad (elim o.0 [ err e ↦ (err e, o.1) | ok a ↦ next a o.1 ])
chain_result good bad (ok a, s) next p q = q a s p
chain_result good bad (err e, s) next p q = p

-- A read of a source that fails, or succeeds, without a further call of the handler.
unfoldable pub AfterRead :
    {D S : Type 0} → (S → Type 0) → (S → Type 0) → (ReadResult × Option Error) × (D × S) → Type 0
AfterRead {D = D} good bad r = After good bad (r.0.1, r.1.1)

module _ {D S : Type 0} (good bad : S → Type 0) where
  pub fail_or :
      {A : Type 0} (r : Result A) (f : Error → Error) (d : D) (s : S)
      (next : A → (ReadResult × Option Error) × (D × S))
      → bad s
      → ((a : A) → AfterRead {D = D} good bad (next a))
      → AfterRead {D = D} good bad
          (elim r [ err e ↦ ((empty_result, some (f e)), (d, s)) | ok a ↦ next a ])
  unfolding AfterRead
  fail_or (ok a) f d s next p q = q a
  fail_or (err e) f d s next p q = p

  pub either_read :
      (b : Bool) (x y : (ReadResult × Option Error) × (D × S))
      → AfterRead {D = D} good bad x
      → AfterRead {D = D} good bad y
      → AfterRead {D = D} good bad (if b then x else y)
  unfolding AfterRead
  either_read true x y p q = p
  either_read false x y p q = q

  pub conclude :
      {A : Type 0} (o : Result A × S) (result : A → ReadResult) (d : D)
      → Outcome {A = A} good bad o
      → AfterRead {D = D} good bad (elim o.0 [
        | err e ↦ ((empty_result, some e), (d, o.1))
        | ok a ↦ ((result a, none), (d, o.1))
      ])
  unfolding AfterRead
  conclude (ok a, s) result d p = p
  conclude (err e, s) result d p = p

module _ {S : Type 0} (handler : Batch → S → Option Error × S) (columns : List Column)
    (make : List Value → Row) (scan_error : Error → Error) (batch_size : ℕ) (good bad : S → Type 0)
    (calls : (b : Batch) (t : S) → good t → After good bad (handler b t))
    (weaken : (t : S) → good t → bad t) where
  read_rows_after :
      (rows : List (Result (List Value))) (pending : List Row) (n : ℕ) (s : S)
      → good s
      → Outcome good bad (read_rows handler columns make scan_error batch_size rows pending n s)
  unfolding read_rows
  read_rows_after [] pending n s p = p
  read_rows_after (err e ∷ rows) pending n s p = weaken s p
  read_rows_after (ok vs ∷ rows) pending n s p =
      let batch = pending ++ (make vs ∷ []) in
      branch good bad (leb batch_size (length batch)) _ _
        (chain good bad _ (read_rows handler columns make scan_error batch_size rows [] (suc n))
          (calls _ s p) (λ t q. read_rows_after rows [] (suc n) t q))
        (read_rows_after rows batch (suc n) s p)

  flush_after :
      (pending : List Row) (n : ℕ) (s : S)
      → good s
      → Outcome good bad (flush handler columns make scan_error batch_size pending n s)
  unfolding flush
  flush_after [] n s p = p
  flush_after (r ∷ rs) n s p = chain good bad _ (λ t. (ok n, t)) (calls _ s p) (λ t q. q)

  -- If every call of the handler in a good state leaves a good one, or fails and leaves a bad one,
  -- then so does the loop.
  pub deliver_after :
      (rows_error : Error → Error) (cursor : Cursor) (s : S)
      → good s
      → Outcome good bad (deliver handler columns make scan_error batch_size rows_error cursor s)
  unfolding deliver
  deliver_after rows_error cursor s p =
      chain_result good bad _
        (λ read t. elim cursor.rows_err [
          | some e ↦ (err (rows_error e), t)
          | none ↦ flush handler columns make scan_error batch_size read.0 read.1 t
        ])
        (read_rows_after cursor.rows [] 0 s p)
        (λ read t q.
          unless good bad cursor.rows_err rows_error t _ (weaken t q)
            (flush_after read.0 read.1 t q))
