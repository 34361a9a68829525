-- ===== src/Sources/Driver.antt =====
-- internal/sources/postgres and internal/sources/sqlserver: the driver that both read through, which
-- is a parameter, and the watermarks and queries that they build.
use Prim.Native.Char.{Char, code}
use Prim.Native.String.{String}
use data_loader.Prelude.{
  ℕ, Bool, true, false, Option, none, some, is_space, List, [], ◌∷◌, if◌then◌else◌, Text, Error,
  Result,
}
use data_loader.Contracts.{Value, Watermark}

-- A column of a result set: `Name`, `DatabaseTypeName` and `Nullable`.
pub record ColumnType : Type 0 where
  pub name : Text
  pub type_name : Text
  pub nullable : Bool

-- The rows that `Next` and `Scan` give, an error where `Scan` fails, and what `Err` returns after them.
pub record Cursor : Type 0 where
  pub column_types : Result (List ColumnType)
  pub rows : List (Result (List Value))
  pub rows_err : Option Error

-- An argument of a query.
pub data SqlArg : Type 0 where
  string_arg : String → SqlArg
  time_arg : ℕ → SqlArg

-- `*sql.DB` of a source: a query, and `QueryRowContext(...).Scan` into `sql.NullTime` and
-- `sql.NullString`.
pub record SourceDb (D : Type 0) : Type 0 where
  pub query : Text → List SqlArg → D → Result Cursor × D
  pub query_time : Text → D → Result (Option ℕ) × D
  pub query_string : Text → D → Result (Option String) × D

-- Conversions of Go, `strconv` and `time`: `string(b)`, `FormatFloat(x, 'f', -1, 64)`, `FormatInt`,
-- and `RFC3339Nano` in both directions.
pub record Conversions : Type 0 where
  pub text_of_bytes : List ℕ → Text
  pub format_float : ℕ → Text
  pub format_int : ℕ → Text
  pub format_time : ℕ → String
  pub parse_time : String → Result ℕ

cons_unless_space : Char → String → String
cons_unless_space c String.[] = if is_space (code c) then String.[] else String.◌∷◌ c String.[]
cons_unless_space c (String.◌∷◌ d s) = String.◌∷◌ c (String.◌∷◌ d s)

trim_left_space : String → String
trim_left_space String.[] = String.[]
trim_left_space (String.◌∷◌ c s) =
    let rest = trim_left_space s in if is_space (code c) then rest else String.◌∷◌ c s

trim_right_space : String → String
unfolding cons_unless_space
trim_right_space String.[] = String.[]
trim_right_space (String.◌∷◌ c s) = cons_unless_space c (trim_right_space s)

-- `strings.TrimSpace`.
unfoldable pub trim_space : String → String
unfolding trim_left_space trim_right_space
trim_space s = trim_right_space (trim_left_space s)

-- `contracts.Watermark{Type: type, Value: value}`.
abbrev pub typed : String → String → Watermark
typed type value = record { type = type; value = value }

-- The watermark of a `sql.NullTime`, in UTC.
abbrev pub time_watermark : Conversions → String → Option ℕ → Watermark
time_watermark go type none = typed type ""
time_watermark go type (some t) = typed type (go.format_time t)

-- The watermark of a `sql.NullString`.
abbrev pub text_watermark : String → (String → String) → Option String → Watermark
text_watermark type trim none = typed type ""
text_watermark type trim (some s) = typed type (trim s)

-- What `buildQuery` returns beside an error.
pub record Query : Type 0 where
  pub text : Text
  pub args : List SqlArg
  pub new_watermark : Watermark

abbrev pub is_blank : Text → Bool
is_blank [] = true
is_blank (c ∷ cs) = false
