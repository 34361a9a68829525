-- ===== src/SqlIdent/Qualified.antt =====
-- The quoting of `schema.table`: whatever passes the validation is read back by the database as
-- one or two delimited identifiers and nothing else.
use mathlib.Core.List.{append-nil}
use mathlib.Core.Option
use data_loader.Prelude.{
  ℕ, zero, suc, ◌≤◌, ◌≡◌, refl, Bool, none, some, List, [], ◌∷◌, map, arith, ◌==◌, length,
  if◌then◌else◌, Text, Option, ok, Option-cases, Bool-cases, inl, inr,
}
use data_loader.SqlIdent.{
  Unicode, trim, brackets, quote_mark, quote_mssql, quote_postgres, split_dots, extend_first,
  join_dots, validate_qualified, quote_mssql_parts, quote_postgres_parts, quote_mssql_qualified,
  quote_postgres_qualified,
}
use data_loader.SqlIdent.Lexer.{
  read_delimited, read_delimited-quote_mssql, read_delimited-quote_postgres,
}

-- After one identifier: the end, or a dot and more.
abbrev continue_path : Text → Text → (Text → Option (List Text)) → Option (List Text)
continue_path name [] more = some (name ∷ [])
continue_path name (c ∷ rest) more =
    if c == b'.' then Option.map (λ names. name ∷ names) (more rest) else none

-- Delimited identifiers joined by dots, up to `n` of them, to the end of the text.
pub read_path : ℕ → ℕ → ℕ → Text → Option (List Text)
read_path zero open_mark q s = none
read_path (suc n) open_mark q s = elim (read_delimited open_mark q s) [
  | none ↦ none
  | some (name, rest) ↦ continue_path name rest (read_path n open_mark q)
]

-- The names that the quoted parts stand for.
abbrev pub trimmed : (ℕ → Bool) → List Text → List Text
trimmed cut = map (λ p. trim cut (trim cut p))

read_path-mssql :
    (n : ℕ) (p : Text) (ps : List Text)
    → length (p ∷ ps) ≤ n
    → read_path n b'[' b']' (join_dots (quote_mssql_parts (p ∷ ps)))
      ≡ some (trimmed brackets (p ∷ ps))
unfolding read_path quote_mssql_parts join_dots
read_path-mssql zero p ps h = absurd (omega arith)
read_path-mssql (suc n) p [] h =
    rw (← append-nil (quote_mssql (trim brackets p)))
      (rw (read_delimited-quote_mssql (trim brackets p) [] tt, read_path) refl)
read_path-mssql (suc n) p (r ∷ ps) h =
    rw
      (
        read_delimited-quote_mssql (trim brackets p) (b'.' ∷ join_dots (quote_mssql_parts (r ∷ ps)))
            (omega arith),
        read_path,
      )
      (rw (read_path-mssql n r ps (omega arith)) refl)

read_path-postgres :
    (n : ℕ) (p : Text) (ps : List Text)
    → length (p ∷ ps) ≤ n
    → read_path n b'"' b'"' (join_dots (quote_postgres_parts (p ∷ ps)))
      ≡ some (trimmed quote_mark (p ∷ ps))
unfolding read_path quote_postgres_parts join_dots
read_path-postgres zero p ps h = absurd (omega arith)
read_path-postgres (suc n) p [] h =
    rw (← append-nil (quote_postgres (trim quote_mark p)))
      (rw (read_delimited-quote_postgres (trim quote_mark p) [] tt, read_path) refl)
read_path-postgres (suc n) p (r ∷ ps) h =
    rw
      (
        read_delimited-quote_postgres (trim quote_mark p)
            (b'.' ∷ join_dots (quote_postgres_parts (r ∷ ps))) (omega arith),
        read_path,
      )
      (rw (read_path-postgres n r ps (omega arith)) refl)

split_dots-cons : (name : Text) → (p : Text) × (ps : List Text) × (split_dots name ≡ p ∷ ps)
unfolding split_dots extend_first
split_dots-cons [] = ([], [], refl)
split_dots-cons (c ∷ cs) =
    let (p, ps, e) = split_dots-cons cs in
    elim (Bool-cases (c == b'.')) [
      | inl dot ↦ ([], split_dots cs, rw dot refl)
      | inr other ↦ (c ∷ p, ps, rw other (rw e refl))
    ]

validate_qualified-segments :
    (u : Unicode) (name : Text) → validate_qualified u name ≡ none → length (split_dots name) ≤ 2
unfolding validate_qualified
validate_qualified-segments u name h = ground arith

-- Whatever name `QuoteMSSQLQualified` accepts, SQL Server reads its result to the end as one or two
-- delimited identifiers: the parts between the dots of the name, without their outer brackets.
pub read_path-quote_mssql_qualified :
    (u : Unicode) (name quoted : Text)
    → quote_mssql_qualified u name ≡ ok quoted
    → (read_path 2 b'[' b']' quoted ≡ some (trimmed brackets (split_dots name)))
      × (length (split_dots name) ≤ 2)
unfolding quote_mssql_qualified
read_path-quote_mssql_qualified u name quoted h = elim (Option-cases (validate_qualified u name)) [
  | inl fine ↦
      let few = validate_qualified-segments u name fine in
      let (p, ps, e) = split_dots-cons name in
      let q : quoted ≡ join_dots (quote_mssql_parts (split_dots name)) = ground arith in
      (rw (q, e) (read_path-mssql 2 p ps (rw e at few)), few)
  | inr (e, bad) ↦ absurd (ground arith)
]

-- The same of `QuotePostgresQualified`, Postgres and double quotes.
pub read_path-quote_postgres_qualified :
    (u : Unicode) (name quoted : Text)
    → quote_postgres_qualified u name ≡ ok quoted
    → (read_path 2 b'"' b'"' quoted ≡ some (trimmed quote_mark (split_dots name)))
      × (length (split_dots name) ≤ 2)
unfolding quote_postgres_qualified
read_path-quote_postgres_qualified u name quoted h =
    elim (Option-cases (validate_qualified u name)) [
      | inl fine ↦
          let few = validate_qualified-segments u name fine in
          let (p, ps, e) = split_dots-cons name in
          let q : quoted ≡ join_dots (quote_postgres_parts (split_dots name)) = ground arith in
          (rw (q, e) (read_path-postgres 2 p ps (rw e at few)), few)
      | inr (e, bad) ↦ absurd (ground arith)
    ]
