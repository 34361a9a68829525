-- ===== src/Sources/OpcUa/Options.antt =====
-- internal/sources/opcua/source.go: the options of a client, from the parameters of the source.
use data_loader.Prelude.{
  ◌*◌, ◌%◌, ◌^◌, ℕ, none, some, List, [], ◌∷◌, ◌++◌, if◌then◌else◌, Text, same_text, lit, to_lower,
  atoi, txt, format, plain, Result, ok, err,
}
use data_loader.Sources.Dsn.{param, param_or, is_empty}

-- The options of gopcua that the source sets. A duration is its 64 bits, in nanoseconds.
pub data ClientOption : Type 0 where
  security_policy : Text → ClientOption
  security_mode : Text → ClientOption
  auth_anonymous : ClientOption
  auth_username : Text → Text → ClientOption
  session_timeout : ℕ → ClientOption
  request_timeout : ℕ → ClientOption

-- `policyURI`.
unfoldable pub policy_uri : Text → Text
unfolding same_text
policy_uri short =
    let s = to_lower short in
    let base = lit "http://opcfoundation.org/UA/SecurityPolicy#" in
    if same_text s (lit "none")
    then base ++ lit "None"
    else if same_text s (lit "basic128rsa15")
    then base ++ lit "Basic128Rsa15"
    else if same_text s (lit "basic256")
    then base ++ lit "Basic256"
    else if same_text s (lit "basic256sha256")
    then base ++ lit "Basic256Sha256"
    else if same_text s (lit "aes128_sha256_rsaoaep")
    then base ++ lit "Aes128_Sha256_RsaOaep"
    else if same_text s (lit "aes256_sha256_rsapss")
    then base ++ lit "Aes256_Sha256_RsaPss"
    else base ++ lit "None"

-- A timeout, if the parameter is there and is a number.
abbrev timeout : (ℕ → ClientOption) → Text → List ClientOption
unfolding atoi
timeout option v =
    if is_empty v
    then []
    else elim (atoi v) [ none ↦ [] | some ms ↦ option (ms * 1000000 % 2 ^ 64) ∷ [] ]

-- The switch on `auth`.
unfoldable pub auth_option : List (Text × Text) → Result ClientOption
unfolding param same_text
auth_option params =
    let auth = to_lower (param_or (lit "auth") (lit "anonymous") params) in
    if same_text auth (lit "anonymous")
    then ok auth_anonymous
    else if same_text auth (lit "username")
    then (if is_empty (param (lit "username") params)
        then err (plain "auth=username requires 'username' param")
        else ok (auth_username (param (lit "username") params) (param (lit "password") params)))
    else err (format "unsupported auth type %q" (txt (param (lit "auth") params) ∷ []))

-- `buildClientOptions`.
unfoldable pub build_client_options : List (Text × Text) → Result (List ClientOption)
unfolding param policy_uri auth_option atoi
build_client_options params = elim (auth_option params) [
  | err e ↦ err e
  | ok auth ↦ ok (
      security_policy (policy_uri (param_or (lit "security_policy") (lit "None") params))
      ∷ security_mode (param_or (lit "security_mode") (lit "None") params)
      ∷ auth
      ∷ (timeout session_timeout (param (lit "session_timeout_ms") params)
          ++ timeout request_timeout (param (lit "request_timeout_ms") params)))
]
