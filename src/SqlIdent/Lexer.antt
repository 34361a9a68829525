-- ===== src/SqlIdent/Lexer.antt =====
-- How a database reads a delimited identifier, stated apart from the code, and that the quoting
-- functions write what it reads back.
use mathlib.Core.List.{append_assoc}
use data_loader.Prelude.{
  ℕ, ◌≡◌, ◌≢◌, refl, Option, none, some, [], ◌∷◌, ◌++◌, arith, ◌==◌, if◌then◌else◌, Text, ==_refl,
  Bool-cases, inl, inr,
}
use data_loader.SqlIdent.{trim, double, brackets, quote_mark, quote_mssql, quote_postgres}

-- One more character of the identifier.
abbrev consing : ℕ → Option (Text × Text) → Option (Text × Text)
consing c none = none
consing c (some (name, rest)) = some (c ∷ name, rest)

-- The text after an opening delimiter, up to the first closing delimiter `q` that is not doubled:
-- the identifier, and the SQL text that follows. A delimiter that is never closed is an error.
unfoldable pub read_body : ℕ → Text → Option (Text × Text)
read_body q [] = none
read_body q (c ∷ []) = if c == q then some ([], []) else none
read_body q (c ∷ d ∷ r) =
    let tail = read_body q (d ∷ r) in
    let after = read_body q r in
    if c == q then (if d == q then consing q after else some ([], d ∷ r)) else consing c tail

-- A delimited identifier: `[name]` for SQL Server and `"name"` for Postgres.
unfoldable pub read_delimited : ℕ → ℕ → Text → Option (Text × Text)
unfolding read_body
read_delimited open_mark q [] = none
read_delimited open_mark q (c ∷ cs) = if c == open_mark then read_body q cs else none

-- What follows is no second closing delimiter.
abbrev pub Stops : ℕ → Text → Type 0
Stops q [] = Unit {0}
Stops q (c ∷ cs) = c ≢ q

read_body-end : (q : ℕ) (rest : Text) → Stops q rest → read_body q (q ∷ rest) ≡ some ([], rest)
unfolding read_body
read_body-end q [] h = rw (==_refl q)
read_body-end q (c ∷ cs) h = ground arith

read_body-cons : (q c : ℕ) (cs : Text) → c ≢ q → read_body q (c ∷ cs) ≡ consing c (read_body q cs)
unfolding read_body
read_body-cons q c [] h = ground arith
read_body-cons q c (d ∷ ds) h = ground arith

read_body-escape : (q : ℕ) (cs : Text) → read_body q (q ∷ q ∷ cs) ≡ consing q (read_body q cs)
unfolding read_body
read_body-escape q cs = rw (==_refl q) refl

read_body-double :
    (q : ℕ) (name rest : Text)
    → Stops q rest
    → read_body q (double q name ++ (q ∷ rest)) ≡ some (name, rest)
unfolding double
read_body-double q [] rest h = read_body-end q rest h
read_body-double q (c ∷ cs) rest h = elim (Bool-cases (c == q)) [
  | inl same ↦ rw same (
      rw (read_body-escape q (double q cs ++ (q ∷ rest)), read_body-double q cs rest h)
        (ground arith))
  | inr other ↦ rw other (
      rw
        (
          read_body-cons q c (double q cs ++ (q ∷ rest)) (ground arith),
          read_body-double q cs rest h,
        )
        refl)
]

-- The delimited form of any name at all, before any SQL text that does not begin with the closing
-- bracket, is read by SQL Server as one identifier, the name without outer brackets, and the SQL
-- text after it is left as it was: nothing in the name can end the identifier early.
pub read_delimited-quote_mssql :
    (name rest : Text)
    → Stops b']' rest
    → read_delimited b'[' b']' (quote_mssql name ++ rest) ≡ some (trim brackets name, rest)
unfolding quote_mssql read_delimited
read_delimited-quote_mssql name rest h =
    rw append_assoc (read_body-double b']' (trim brackets name) rest h)

-- The same of Postgres and double quotes.
pub read_delimited-quote_postgres :
    (name rest : Text)
    → Stops b'"' rest
    → read_delimited b'"' b'"' (quote_postgres name ++ rest) ≡ some (trim quote_mark name, rest)
unfolding quote_postgres read_delimited
read_delimited-quote_postgres name rest h =
    rw append_assoc (read_body-double b'"' (trim quote_mark name) rest h)
