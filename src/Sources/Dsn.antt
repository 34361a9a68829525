-- ===== src/Sources/Dsn.antt =====
-- `buildDSN` of the two database sources, up to the printing of the URL by net/url.
use data_loader.Prelude.{
  ◌||◌, Bool, true, false, Option, none, some, List, [], ◌∷◌, ◌++◌, if◌then◌else◌, Text, same_text,
  lit, plain, Result, ok, err,
}

-- A URL before it is printed. The user may come with a password.
pub record Url : Type 0 where
  pub scheme : Text
  pub host : Text
  pub path : Text
  pub user : Option (Text × Option Text)
  pub query : List (Text × Text)

abbrev pub is_empty : Text → Bool
is_empty [] = true
is_empty (c ∷ cs) = false

-- `params[key]`, the empty string if it is not there.
unfoldable pub param : Text → List (Text × Text) → Text
unfolding same_text
param key [] = []
param key ((k, v) ∷ params) = let rest = param key params in if same_text k key then v else rest

abbrev pub param_or : Text → Text → List (Text × Text) → Text
param_or key default params = if is_empty (param key params) then default else param key params

abbrev optional : Text → Text → List (Text × Text) → List (Text × Text)
optional key name params = if is_empty (param key params) then [] else (name, param key params) ∷ []

abbrev user_info : List (Text × Text) → Option (Text × Option Text)
user_info params =
    if is_empty (param (lit "user") params)
    then none
    else if is_empty (param (lit "password") params)
    then some (param (lit "user") params, none)
    else some (param (lit "user") params, some (param (lit "password") params))

-- `buildDSN` of internal/sources/postgres.
unfoldable pub postgres_dsn : List (Text × Text) → Result Url
unfolding param
postgres_dsn params =
    if is_empty (param (lit "host") params) || is_empty (param (lit "database") params)
    then err (plain "postgres source requires 'host' and 'database' params")
    else ok (record {
      scheme = lit "postgres";
      host = param (lit "host") params ++ (b':' ∷ param_or (lit "port") (lit "5432") params);
      path = b'/' ∷ param (lit "database") params;
      user = user_info params;
      query =
          (lit "sslmode", param_or (lit "sslmode") (lit "disable") params)
          ∷ (optional (lit "search_path") (lit "search_path") params
              ++ ((
                lit "application_name",
                param_or (lit "application_name") (lit "data-loader") params,
              )
                  ∷ []));
    })

-- `buildDSN` of internal/sources/sqlserver.
unfoldable pub sqlserver_dsn : List (Text × Text) → Result Url
unfolding param
sqlserver_dsn params =
    if is_empty (param (lit "server") params) || is_empty (param (lit "database") params)
    then err (plain "sqlserver source requires 'server' and 'database' params")
    else ok (record {
      scheme = lit "sqlserver";
      host = param (lit "server") params ++ (b':' ∷ param_or (lit "port") (lit "1433") params);
      path = [];
      user = user_info params;
      query =
          (lit "database", param (lit "database") params)
          ∷ (optional (lit "encrypt") (lit "encrypt") params
              ++ optional (lit "trustservercertificate") (lit "TrustServerCertificate") params);
    })
