-- ===== src/SqlIdent/Tests.antt =====
-- Names with delimiters, and a Unicode of ASCII letters and digits.
use data_loader.Prelude.{
  ◌≡◌, ◌≤◌, refl, ◌&&◌, ◌||◌, leb, none, some, [], ◌∷◌, ◌++◌, Text, lit, length, ok, arith,
}
use data_loader.SqlIdent.{
  Unicode, validate, quote_mssql, quote_postgres, quote_mssql_qualified, quote_postgres_qualified,
  byte_len, max_ident_len, split_dots, trim, brackets, quote_mark, validate_qualified,
  validate_parts, quote_mssql_parts, quote_postgres_parts, join_dots, valid_string, rune_len,
  ident_re, ident_start, ident_parts, ident_part, trim_left, trim_right, cons_unless, double,
  extend_first,
}
use data_loader.SqlIdent.Lexer.{
  read_delimited, read_delimited-quote_mssql, read_delimited-quote_postgres,
}
use data_loader.SqlIdent.Accepted.{HasNoDelimiter, validate-quote}
use data_loader.SqlIdent.Qualified.{
  read_path, trimmed, read_path-quote_mssql_qualified, read_path-quote_postgres_qualified,
}

abbrev ascii : Unicode
ascii = record {
  is_letter = λ c. (leb b'A' c && leb c b'Z') || (leb b'a' c && leb c b'z');
  is_number = λ c. leb b'0' c && leb c b'9';
  letter_ascii = λ c small. refl;
  number_ascii = λ c small. refl;
}

-- A name that tries to end the identifier and to drop a table.
abbrev hostile : Text
hostile = lit "a]; DROP TABLE b; --"

read_delimited-quote_mssql_example :
    read_delimited b'[' b']' (quote_mssql hostile ++ lit " WHERE")
    ≡ some (trim brackets hostile, lit " WHERE")
read_delimited-quote_mssql_example =
    read_delimited-quote_mssql hostile (lit " WHERE") (λ q. omega (arith, q))

read_delimited-quote_postgres_example :
    read_delimited b'"' b'"' (quote_postgres (lit "a\"b") ++ lit " WHERE")
    ≡ some (trim quote_mark (lit "a\"b"), lit " WHERE")
read_delimited-quote_postgres_example =
    read_delimited-quote_postgres (lit "a\"b") (lit " WHERE") (λ q. omega (arith, q))

orders_valid : validate ascii (lit "orders_2") ≡ none
unfolding validate byte_len rune_len valid_string ident_re ident_start ident_parts ident_part
orders_valid = refl

validate-quote_example :
    (1 ≤ length (lit "orders_2"))
    × (length (lit "orders_2") ≤ max_ident_len)
    × (byte_len (lit "orders_2") ≤ max_ident_len)
    × HasNoDelimiter (lit "orders_2")
    × (quote_mssql (lit "orders_2") ≡ b'[' ∷ (lit "orders_2" ++ b']' ∷ []))
    × (quote_postgres (lit "orders_2") ≡ b'"' ∷ (lit "orders_2" ++ b'"' ∷ []))
validate-quote_example = validate-quote ascii (lit "orders_2") orders_valid

mssql_quoted : quote_mssql_qualified ascii (lit "dbo.orders") ≡ ok (lit "[dbo].[orders]")
unfolding quote_mssql_qualified validate_qualified validate_parts split_dots extend_first trim
    trim_left trim_right cons_unless validate byte_len rune_len valid_string ident_re ident_start
    ident_parts ident_part quote_mssql_parts quote_mssql double join_dots
mssql_quoted = refl

read_path-quote_mssql_qualified_example :
    (read_path 2 b'[' b']' (lit "[dbo].[orders]")
      ≡ some (trimmed brackets (split_dots (lit "dbo.orders"))))
    × (length (split_dots (lit "dbo.orders")) ≤ 2)
read_path-quote_mssql_qualified_example =
    read_path-quote_mssql_qualified ascii (lit "dbo.orders") (lit "[dbo].[orders]") mssql_quoted

postgres_quoted :
    quote_postgres_qualified ascii (lit "public.orders") ≡ ok (lit "\"public\".\"orders\"")
unfolding quote_postgres_qualified validate_qualified validate_parts split_dots extend_first trim
    trim_left trim_right cons_unless validate byte_len rune_len valid_string ident_re ident_start
    ident_parts ident_part quote_postgres_parts quote_postgres double join_dots
postgres_quoted = refl

read_path-quote_postgres_qualified_example :
    (read_path 2 b'"' b'"' (lit "\"public\".\"orders\"")
      ≡ some (trimmed quote_mark (split_dots (lit "public.orders"))))
    × (length (split_dots (lit "public.orders")) ≤ 2)
read_path-quote_postgres_qualified_example =
    read_path-quote_postgres_qualified ascii (lit "public.orders") (lit "\"public\".\"orders\"")
      postgres_quoted
