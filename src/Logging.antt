-- ===== src/Logging.antt =====
-- internal/logging/dbhandler.go: the handler that mirrors log records into the metadata store. The base
-- handler, the encoding of details and the texts of values are parameters.
pub mod Buffer
mod Tests
use data_loader.Prelude.{
  ℕ, ◌+◌, ◌-◌, ◌%◌, ◌^◌, String, Bool, true, false, Option, none, some, List, [], ◌∷◌, ◌++◌, ◌==◌,
  leb, if◌then◌else◌, Text, same_text, lit, Error,
}

-- `metadata.LogEntry`; a nil key is none.
pub record LogEntry : Type 0 where
  pub created_at : ℕ
  pub level : String
  pub category : Text
  pub message : Text
  pub run_uuid : Text
  pub load_id : Option ℕ
  pub source_id : Option ℕ
  pub details : Text

-- A resolved `slog.Value`: the kinds that the handler looks at, by their 64 bits, and all others.
pub data LogValue : Type 0 where
  int64_kind : ℕ → LogValue
  uint64_kind : ℕ → LogValue
  float64_kind : ℕ → LogValue
  other_kind : Text → LogValue

abbrev pub Attrs : Type 0
Attrs = List (Text × LogValue)

-- `slog.Record`; a level is its 64 bits.
pub record LogRecord : Type 0 where
  pub time : ℕ
  pub level : ℕ
  pub message : Text
  pub attrs : Attrs

-- `json.Marshal` of the details, none if it fails, `Value.String`, and the conversion of a float64 to
-- an int64.
pub record Encoding : Type 0 where
  pub marshal : Attrs → Option Text
  pub render : LogValue → Text
  pub int_of_float : ℕ → ℕ

-- A clone of the handler beside the state that the clones share.
pub record DbHandler : Type 0 where
  pub attrs : Attrs
  pub groups : List Text

abbrev signed_le : ℕ → ℕ → Bool
signed_le a b = leb ((a + 2 ^ 63) % 2 ^ 64) ((b + 2 ^ 63) % 2 ^ 64)

-- `levelString`; debug is -4, info 0 and warn 4.
unfoldable pub level_string : ℕ → String
level_string l =
    if signed_le l (2 ^ 64 - 4)
    then "debug"
    else if signed_le l 0
    then "info"
    else if signed_le l 4
    then "warn"
    else "error"

-- `int64FromAttr`.
unfoldable pub int64_from_attr : Encoding → LogValue → ℕ
int64_from_attr enc (int64_kind n) = n
int64_from_attr enc (uint64_kind n) = n
int64_from_attr enc (float64_kind x) = enc.int_of_float x
int64_from_attr enc (other_kind t) = 0

abbrev key_or : ℕ → Option ℕ → Option ℕ
key_or v old = if v == 0 then old else some v

-- `details[key] = value`.
unfoldable pub put_detail : Text → LogValue → Attrs → Attrs
unfolding same_text
put_detail key v [] = (key, v) ∷ []
put_detail key v ((k, w) ∷ details) =
    let rest = put_detail key v details in
    if same_text k key then (key, v) ∷ details else (k, w) ∷ rest

-- The closure `apply`, on the entry and the details.
unfoldable pub apply : Encoding → Text × LogValue → LogEntry × Attrs → LogEntry × Attrs
unfolding same_text int64_from_attr put_detail
apply enc (key, v) (entry, details) =
    if same_text key (lit "run_uuid")
    then (record entry { run_uuid = enc.render v }, details)
    else if same_text key (lit "load_id")
    then (record entry { load_id = key_or (int64_from_attr enc v) entry.load_id }, details)
    else if same_text key (lit "source_id")
    then (record entry { source_id = key_or (int64_from_attr enc v) entry.source_id }, details)
    else if same_text key (lit "category")
    then (record entry { category = enc.render v }, details)
    else (entry, put_detail key v details)

unfoldable pub apply_all : Encoding → Attrs → LogEntry × Attrs → LogEntry × Attrs
unfolding apply
apply_all enc [] entry = entry
apply_all enc (a ∷ more) entry = apply_all enc more (apply enc a entry)

-- `strings.Join(groups, ".")`.
unfoldable pub join : List Text → Text
join [] = []
join (g ∷ []) = g
join (g ∷ h ∷ groups) = g ++ (b'.' ∷ join (h ∷ groups))

abbrev prefixed_key : Text → Text → Text
prefixed_key [] key = key
prefixed_key (c ∷ cs) key = (c ∷ cs) ++ (b'.' ∷ key)

-- The attributes of a record or of `WithAttrs`, under the active groups.
unfoldable pub prefixed : Text → Attrs → Attrs
prefixed p [] = []
prefixed p ((key, v) ∷ more) = (prefixed_key p key, v) ∷ prefixed p more

-- `WithAttrs`, as far as the handler's own fields go.
unfoldable pub with_attrs : Attrs → DbHandler → DbHandler
unfolding join prefixed
with_attrs attrs h = record h { attrs = h.attrs ++ prefixed (join h.groups) attrs }

-- `WithGroup`.
unfoldable pub with_group : Text → DbHandler → DbHandler
with_group [] h = h
with_group (c ∷ cs) h = record h { groups = h.groups ++ ((c ∷ cs) ∷ []) }

abbrev with_details : Encoding → LogEntry × Attrs → LogEntry
with_details enc (entry, []) = entry
with_details enc (entry, (a ∷ more)) = elim (enc.marshal (a ∷ more)) [
  | none ↦ entry
  | some t ↦ record entry { details = t }
]

-- The entry that `Handle` makes of a record.
unfoldable pub entry_of : Encoding → DbHandler → LogRecord → LogEntry
unfolding level_string apply_all join prefixed
entry_of enc h r =
    let blank : LogEntry = record {
      created_at = r.time;
      level = level_string r.level;
      category = [];
      message = r.message;
      run_uuid = [];
      load_id = none;
      source_id = none;
      details = [];
    } in
    with_details enc
      (apply_all enc (prefixed (join h.groups) r.attrs) (apply_all enc h.attrs (blank, [])))
