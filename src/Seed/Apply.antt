-- ===== src/Seed/Apply.antt =====
-- internal/seed/seed.go: `Apply`, which reconciles a seed file with the metadata store. The database is a
-- parameter, and so is `json.Marshal`.
pub mod Reconcile
use data_loader.Prelude.{
  ℕ, ◌+◌, String, Bool, true, false, ◌||◌, Option, none, some, List, [], ◌∷◌, ◌++◌, if◌then◌else◌,
  str_eq, length, Text, str, txt, Error, format, plain, wrap, wrap_format, Result, ok, err,
}
use data_loader.Metadata.{Source, Load}
use data_loader.Metadata.Telemetry.{ModbusTag, OpcUaNode}
use data_loader.Seed.{
  SourceSpec, LoadSpec, ModbusTagSpec, OpcUaNodeSpec, SeedFile, value_or, modbus_rows, opcua_rows,
}

-- `Report`.
pub record Report : Type 0 where
  pub sources_created : List String
  pub sources_updated : List String
  pub loads_created : List String
  pub loads_updated : List String
  pub modbus_tags : ℕ
  pub opcua_nodes : ℕ

abbrev pub empty_report : Report
empty_report = record {
  sources_created = [];
  sources_updated = [];
  loads_created = [];
  loads_updated = [];
  modbus_tags = 0;
  opcua_nodes = 0;
}

-- What `Apply` calls: gorm on the four tables, where a first row that is not found is `none`, and
-- `json.Marshal`. A create gives the row with its key.
pub record SeedDb (D : Type 0) : Type 0 where
  pub marshal : List (Text × Text) → Result Text
  pub first_source : String → D → Result (Option Source) × D
  pub create_source : Source → D → Result Source × D
  pub save_source : Source → D → Option Error × D
  pub first_load : String → D → Result (Option Load) × D
  pub create_load : Load → D → Result Load × D
  pub save_load : Load → D → Option Error × D
  pub delete_modbus_tags : ℕ → D → Option Error × D
  pub create_modbus_tags : List ModbusTag → D → Option Error × D
  pub delete_opcua_nodes : ℕ → D → Option Error × D
  pub create_opcua_nodes : List OpcUaNode → D → Option Error × D
  pub transaction : (D → (Report × Option Error) × D) → D → (Report × Option Error) × D

pub data Action : Type 0 where
  created : Action
  updated : Action

-- `recordSource`.
abbrev pub record_source : Action → String → Report → Report
record_source created name r = record r { sources_created = r.sources_created ++ (name ∷ []) }
record_source updated name r = record r { sources_updated = r.sources_updated ++ (name ∷ []) }

-- `recordLoad`.
abbrev pub record_load : Action → String → Report → Report
record_load created name r = record r { loads_created = r.loads_created ++ (name ∷ []) }
record_load updated name r = record r { loads_updated = r.loads_updated ++ (name ∷ []) }

abbrev saved : {A D : Type 0} → A → Option Error × D → Result (A × Action) × D
saved x (none, d) = (ok (x, updated), d)
saved x (some e, d) = (err e, d)

abbrev made : {A D : Type 0} → Result A × D → Result (A × Action) × D
made (ok x, d) = (ok (x, created), d)
made (err e, d) = (err e, d)

-- The rows that an upsert creates, and the changes that it makes to a row that is there.
abbrev new_source : SourceSpec → Text → Source
new_source spec params = record {
  id = 0;
  name = spec.name;
  kind = spec.kind;
  params_json = params;
  is_enabled = value_or spec.is_enabled true;
}

abbrev changed_source : SourceSpec → Text → Source → Source
changed_source spec params s = record s {
  kind = spec.kind;
  params_json = params;
  is_enabled = value_or spec.is_enabled s.is_enabled;
}

abbrev no_source : Source
no_source = record { id = 0; name = ""; kind = ""; params_json = []; is_enabled = false }

abbrev new_load : LoadSpec → ℕ → Load
new_load spec source_id = record {
  id = 0;
  source_id = source_id;
  source = no_source;
  name = spec.name;
  object_name = spec.object_name;
  target_schema = spec.target_schema;
  target_table = spec.target_table;
  mode = spec.mode;
  watermark_column = spec.watermark_column;
  watermark_type = spec.watermark_type;
  batch_size = spec.batch_size;
  auto_create_table = value_or spec.auto_create_table true;
  cron_expression = spec.cron_expression;
  is_enabled = value_or spec.is_enabled true;
}

abbrev changed_load : LoadSpec → ℕ → Load → Load
changed_load spec source_id l = record l {
  source_id = source_id;
  object_name = spec.object_name;
  target_schema = spec.target_schema;
  target_table = spec.target_table;
  mode = spec.mode;
  watermark_column = spec.watermark_column;
  watermark_type = spec.watermark_type;
  batch_size = spec.batch_size;
  auto_create_table = value_or spec.auto_create_table l.auto_create_table;
  cron_expression = spec.cron_expression;
  is_enabled = value_or spec.is_enabled l.is_enabled;
}

module _ {D : Type 0} (db : SeedDb D) where
  -- `upsertSource`.
  unfoldable pub upsert_source : SourceSpec → D → Result (Source × Action) × D
  upsert_source spec d =
      if str_eq spec.name "" || str_eq spec.kind ""
      then (err (plain "name and kind are required"), d)
      else elim (db.marshal spec.params) [
        | err e ↦ (err (wrap "marshal params" e), d)
        | ok params ↦
            let (r, d') = db.first_source spec.name d in
            elim r [
              | err e ↦ (err e, d')
              | ok found ↦ elim found [
                | none ↦ made (db.create_source (new_source spec params) d')
                | some s ↦
                    saved (changed_source spec params s)
                      (db.save_source (changed_source spec params s) d')
              ]
            ]
      ]

  -- `upsertLoad`.
  unfoldable pub upsert_load : LoadSpec → ℕ → D → Result (Load × Action) × D
  upsert_load spec source_id d =
      if str_eq spec.name ""
      then (err (plain "name is required"), d)
      else (let (r, d') = db.first_load spec.name d in
          elim r [
            | err e ↦ (err e, d')
            | ok found ↦ elim found [
              | none ↦ made (db.create_load (new_load spec source_id) d')
              | some l ↦
                  saved (changed_load spec source_id l)
                    (db.save_load (changed_load spec source_id l) d')
            ]
          ])

  -- The end of a replacement: the rows are created unless there are none.
  abbrev pub put_rows : {A : Type 0} → (List A → D → Option Error × D) → List A → D → Result ℕ × D
  put_rows create [] d = (ok 0, d)
  put_rows create (x ∷ xs) d =
      let (r, d') = create (x ∷ xs) d in
      elim r [ some e ↦ (err e, d') | none ↦ (ok (length (x ∷ xs)), d') ]

  -- `replaceModbusTags`.
  unfoldable pub replace_modbus_tags : ℕ → List ModbusTagSpec → D → Result ℕ × D
  unfolding modbus_rows
  replace_modbus_tags load_id specs d =
      let (r, d') = db.delete_modbus_tags load_id d in
      elim r [
        | some e ↦ (err e, d')
        | none ↦ elim (modbus_rows load_id specs) [
          | err e ↦ (err e, d')
          | ok rows ↦ put_rows db.create_modbus_tags rows d'
        ]
      ]

  -- `replaceOPCUANodes`.
  unfoldable pub replace_opcua_nodes : ℕ → List OpcUaNodeSpec → D → Result ℕ × D
  unfolding opcua_rows
  replace_opcua_nodes load_id specs d =
      let (r, d') = db.delete_opcua_nodes load_id d in
      elim r [
        | some e ↦ (err e, d')
        | none ↦ elim (opcua_rows load_id specs) [
          | err e ↦ (err e, d')
          | ok rows ↦ put_rows db.create_opcua_nodes rows d'
        ]
      ]
