-- ===== src/Config.antt =====
-- internal/config/config.go: environment settings and the parameters of a source. The environment
-- and `json.Unmarshal` are parameters; a Go map is the list of its entries in the order in which a
-- walk meets them.
pub mod Environment
use data_loader.Prelude.{
  Option, none, some, List, [], ◌∷◌, ◌==◌, if◌then◌else◌, Text, txt, Error, format, wrap, Result,
  ok, err, ◌>>=◌,
}

-- The prefix `$env:`.
abbrev env_prefix : Text
env_prefix = b'$' ∷ b'e' ∷ b'n' ∷ b'v' ∷ b':' ∷ []

-- `strings.CutPrefix`: the rest of a text that has the prefix.
strip_prefix : Text → Text → Option Text
strip_prefix [] s = some s
strip_prefix (p ∷ ps) [] = none
strip_prefix (p ∷ ps) (c ∷ cs) = let rest = strip_prefix ps cs in if c == p then rest else none

abbrev unless_empty : Text → Error → Result Text
unless_empty [] e = err e
unless_empty (c ∷ cs) e = ok (c ∷ cs)

-- One parameter: a reference to the environment is replaced by its value, which must not be empty.
resolve_param : (Text → Text) → Text → Text → Result Text
unfolding strip_prefix
resolve_param getenv k v = elim (strip_prefix env_prefix v) [
  | some env_key ↦
      unless_empty (getenv env_key)
        (format "env var %q referenced by param %q is not set" (txt env_key ∷ txt k ∷ []))
  | none ↦ ok v
]

unfoldable pub resolve_entries : (Text → Text) → List (Text × Text) → Result (List (Text × Text))
unfolding resolve_param
resolve_entries getenv [] = ok []
resolve_entries getenv ((k, v) ∷ raw) = do
  value ← resolve_param getenv k v
  resolved ← resolve_entries getenv raw
  ok ((k, value) ∷ resolved)

-- `ResolveParams`.
unfoldable pub resolve_params :
    (Text → Result (List (Text × Text))) → (Text → Text) → Text → Result (List (Text × Text))
unfolding resolve_entries
resolve_params unmarshal getenv params_json = elim (unmarshal params_json) [
  | err e ↦ err (wrap "invalid params JSON" e)
  | ok raw ↦ resolve_entries getenv raw
]
