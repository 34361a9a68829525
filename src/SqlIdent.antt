-- ===== src/SqlIdent.antt =====
-- internal/sqlident/ident.go: identifiers that are put into SQL text. The functions of the standard
-- library that the file calls (`strings.Trim`, `Split`, `Join`, `ReplaceAll`, `utf8.ValidString`)
-- stand here on code points; the tables behind `\p{L}` and `\p{N}` are a parameter.
pub mod Lexer
pub mod Accepted
pub mod Qualified
mod Tests
use data_loader.Prelude.{
  ℕ, suc, ◌+◌, ◌<◌, ◌≡◌, Bool, true, false, ◌&&◌, ◌||◌, Option, none, some, List, [], ◌∷◌, ◌++◌,
  ◌==◌, ltb, leb, length, if◌then◌else◌, Text, txt, not, Error, format, plain, Result, ok, err,
  ◌>>=◌,
}

-- The classes of Go's `unicode` package that the regular expression names. On ASCII they are the
-- letters and the digits.
pub record Unicode : Type 0 where
  pub is_letter : ℕ → Bool
  pub is_number : ℕ → Bool
  pub letter_ascii :
      (c : ℕ) → c < 128 → is_letter c ≡ ((leb b'A' c && leb c b'Z') || (leb b'a' c && leb c b'z'))
  pub number_ascii : (c : ℕ) → c < 128 → is_number c ≡ (leb b'0' c && leb c b'9')

abbrev pub max_ident_len : ℕ
max_ident_len = 128

-- `utf8.RuneLen`, and one byte for a byte that is not valid.
rune_len : ℕ → ℕ
rune_len c =
    if ltb c 0x80
    then 1
    else if ltb c 0x800
    then 2
    else if ltb c 0x10000
    then 3
    else if ltb c 0x110000
    then 4
    else 1

-- `len(s)`.
pub byte_len : Text → ℕ
unfolding rune_len
byte_len [] = 0
byte_len (c ∷ cs) = rune_len c + byte_len cs

-- `utf8.ValidString(s)`.
valid_string : Text → Bool
valid_string [] = true
valid_string (c ∷ cs) = ltb c 0x110000 && valid_string cs

-- The two classes of the pattern `^[\p{L}_][\p{L}\p{N}_@$# .\-]{0,127}$`.
ident_start : Unicode → ℕ → Bool
ident_start u c = u.is_letter c || c == b'_'

ident_part : Unicode → ℕ → Bool
ident_part u c =
    u.is_letter c
    || u.is_number c
    || c == b'_'
    || c == b'@'
    || c == b'$'
    || c == b'#'
    || c == b' '
    || c == b'.'
    || c == b'-'

ident_parts : Unicode → Text → Bool
unfolding ident_part
ident_parts u [] = true
ident_parts u (c ∷ cs) = ident_part u c && ident_parts u cs

-- `identRE.MatchString(name)`.
ident_re : Unicode → Text → Bool
unfolding ident_start ident_parts
ident_re u [] = false
ident_re u (c ∷ cs) = ident_start u c && ident_parts u cs && leb (length cs) 127

abbrev is_empty : Text → Bool
is_empty [] = true
is_empty (c ∷ cs) = false

-- `Validate`.
unfoldable pub validate : Unicode → Text → Option Error
unfolding byte_len valid_string ident_re
validate u name =
    if is_empty name
    then some (plain "identifier is empty")
    else if not (valid_string name)
    then some (plain "identifier is not valid UTF-8")
    else if ltb max_ident_len (byte_len name)
    then some (format "identifier %q exceeds 128 characters" (txt name ∷ []))
    else if not (ident_re u name)
    then some (format "identifier %q contains illegal characters" (txt name ∷ []))
    else none

-- `strings.Split(s, ".")`: the parts between the dots, at least one.
extend_first : ℕ → List Text → List Text
extend_first c [] = (c ∷ []) ∷ []
extend_first c (p ∷ ps) = (c ∷ p) ∷ ps

pub split_dots : Text → List Text
unfolding extend_first
split_dots [] = [] ∷ []
split_dots (c ∷ cs) =
    let parts = split_dots cs in if c == b'.' then [] ∷ parts else extend_first c parts

-- `strings.Join(parts, ".")`.
join_dots : List Text → Text
join_dots [] = []
join_dots (p ∷ []) = p
join_dots (p ∷ q ∷ ps) = p ++ (b'.' ∷ join_dots (q ∷ ps))

-- `strings.Trim(s, cutset)`, with the cutset as a test.
trim_left : (ℕ → Bool) → Text → Text
trim_left cut [] = []
trim_left cut (c ∷ cs) = let rest = trim_left cut cs in if cut c then rest else c ∷ cs

cons_unless : (ℕ → Bool) → ℕ → Text → Text
cons_unless cut c [] = if cut c then [] else c ∷ []
cons_unless cut c (d ∷ ds) = c ∷ d ∷ ds

trim_right : (ℕ → Bool) → Text → Text
unfolding cons_unless
trim_right cut [] = []
trim_right cut (c ∷ cs) = cons_unless cut c (trim_right cut cs)

pub trim : (ℕ → Bool) → Text → Text
unfolding trim_left trim_right
trim cut s = trim_right cut (trim_left cut s)

-- The cutsets `[]"`, `[]` and `"`.
abbrev brackets_quote : ℕ → Bool
brackets_quote c = c == b'[' || c == b']' || c == b'"'

abbrev brackets : ℕ → Bool
brackets c = c == b'[' || c == b']'

abbrev quote_mark : ℕ → Bool
quote_mark c = c == b'"'

validate_parts : Unicode → List Text → Option Error
unfolding trim validate
validate_parts u [] = none
validate_parts u (p ∷ ps) = elim (validate u (trim brackets_quote p)) [
  | some e ↦ some e
  | none ↦ validate_parts u ps
]

-- `ValidateQualified`.
unfoldable pub validate_qualified : Unicode → Text → Option Error
unfolding split_dots validate_parts
validate_qualified u name =
    if is_empty name
    then some (plain "identifier is empty")
    else if ltb 2 (length (split_dots name))
    then some (format "identifier %q has too many segments" (txt name ∷ []))
    else validate_parts u (split_dots name)

-- `strings.ReplaceAll(s, q, qq)` for one character `q`.
double : ℕ → Text → Text
double q [] = []
double q (c ∷ cs) = let rest = double q cs in if c == q then q ∷ q ∷ rest else c ∷ rest

-- `QuoteMSSQL`.
unfoldable pub quote_mssql : Text → Text
unfolding trim double
quote_mssql name = b'[' ∷ (double b']' (trim brackets name) ++ b']' ∷ [])

-- `QuotePostgres`.
unfoldable pub quote_postgres : Text → Text
unfolding trim double
quote_postgres name = b'"' ∷ (double b'"' (trim quote_mark name) ++ b'"' ∷ [])

quote_mssql_parts : List Text → List Text
unfolding quote_mssql
quote_mssql_parts [] = []
quote_mssql_parts (p ∷ ps) = quote_mssql (trim brackets p) ∷ quote_mssql_parts ps

quote_postgres_parts : List Text → List Text
unfolding quote_postgres
quote_postgres_parts [] = []
quote_postgres_parts (p ∷ ps) = quote_postgres (trim quote_mark p) ∷ quote_postgres_parts ps

-- `QuoteMSSQLQualified`.
unfoldable pub quote_mssql_qualified : Unicode → Text → Result Text
unfolding validate_qualified quote_mssql_parts join_dots
quote_mssql_qualified u name = elim (validate_qualified u name) [
  | some e ↦ err e
  | none ↦ ok (join_dots (quote_mssql_parts (split_dots name)))
]

-- `QuotePostgresQualified`.
unfoldable pub quote_postgres_qualified : Unicode → Text → Result Text
unfolding validate_qualified quote_postgres_parts join_dots
quote_postgres_qualified u name = elim (validate_qualified u name) [
  | some e ↦ err e
  | none ↦ ok (join_dots (quote_postgres_parts (split_dots name)))
]
