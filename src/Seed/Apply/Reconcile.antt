-- ===== src/Seed/Apply/Reconcile.antt =====
-- internal/seed/seed.go: the checks of `Apply`, and its transaction.
pub mod Counts
pub mod Complete
use data_loader.Prelude.{
  ℕ, ◌+◌, Bool, true, false, Option, none, some, List, [], ◌∷◌, if◌then◌else◌, String, str_eq, str,
  txt, Text, Error, format, wrap_format, Result, ok, err,
}
use data_loader.Metadata.{Source}
use data_loader.Seed.{SourceSpec, LoadSpec, ModbusTagSpec, OpcUaNodeSpec, SeedFile}
use data_loader.Seed.Apply.{
  Report, empty_report, SeedDb, record_source, record_load, upsert_source, upsert_load,
  replace_modbus_tags, replace_opcua_nodes,
}

-- The load names of tags and of nodes, with their own names.
abbrev References : Type 0
References = List (String × Text)

abbrev pub tag_references : List ModbusTagSpec → References
tag_references [] = []
tag_references (t ∷ ts) = (t.load, t.tag_name) ∷ tag_references ts

abbrev node_references : List OpcUaNodeSpec → References
node_references [] = []
node_references (n ∷ ns) = (n.load, n.tag_name) ∷ node_references ns

-- The first entry without a load.
unfoldable pub missing_load : String → References → Option Error
missing_load context [] = none
missing_load context ((load, tag) ∷ refs) =
    let rest = missing_load context refs in
    if str_eq load "" then some (format context (txt tag ∷ [])) else rest

-- `declaredLoads[name]`.
unfoldable pub declared : String → List LoadSpec → Bool
declared name [] = false
declared name (l ∷ ls) = let rest = declared name ls in if str_eq l.name name then true else rest

-- An entry whose load the file does not declare. The source walks a map, and may report another one.
unfoldable pub undeclared_load : String → List LoadSpec → References → Option Error
unfolding declared
undeclared_load context loads [] = none
undeclared_load context loads ((load, tag) ∷ refs) =
    let rest = undeclared_load context loads refs in
    if declared load loads then rest else some (format context (str load ∷ []))

abbrev pub or_else : Option Error → Option Error → Option Error
or_else none e = e
or_else (some x) e = some x

-- All checks before the transaction, in order.
unfoldable pub check_references : SeedFile → Option Error
unfolding missing_load undeclared_load
check_references f =
    or_else (missing_load "modbus_tag %q missing load reference" (tag_references f.modbus_tags)) (
      or_else (missing_load "opcua_node %q missing load reference" (node_references f.opcua_nodes))
        (or_else
          (undeclared_load "modbus_tags reference undeclared load %q" f.loads
            (tag_references f.modbus_tags))
          (undeclared_load "opcua_nodes reference undeclared load %q" f.loads
            (node_references f.opcua_nodes))))

-- `modbusByLoad[name]` and `opcuaByLoad[name]`.
unfoldable pub tags_of : String → List ModbusTagSpec → List ModbusTagSpec
tags_of name [] = []
tags_of name (t ∷ ts) = let rest = tags_of name ts in if str_eq t.load name then t ∷ rest else rest

unfoldable pub nodes_of : String → List OpcUaNodeSpec → List OpcUaNodeSpec
nodes_of name [] = []
nodes_of name (n ∷ ns) =
    let rest = nodes_of name ns in if str_eq n.load name then n ∷ rest else rest

-- `srcByName[name]`, the latest entry.
unfoldable pub source_named : String → List (String × Source) → Option Source
source_named name [] = none
source_named name ((n, s) ∷ sources) =
    let rest = source_named name sources in if str_eq n name then some s else rest

module _ {D : Type 0} (db : SeedDb D) where
  -- The loop over the sources.
  unfoldable pub apply_sources :
      List SourceSpec
      → List (String × Source)
      → Report
      → D
      → ((Report × Option Error) × List (String × Source)) × D
  unfolding upsert_source
  apply_sources [] by_name rep d = (((rep, none), by_name), d)
  apply_sources (spec ∷ specs) by_name rep d =
      let (r, d') = upsert_source db spec d in
      elim r [
        | err e ↦ (((rep, some (wrap_format "source %q" (str spec.name ∷ []) e)), by_name), d')
        | ok (s, action) ↦
            apply_sources specs ((spec.name, s) ∷ by_name) (record_source action spec.name rep) d'
      ]

  -- The source of a load: of this file, or of the store.
  unfoldable pub source_of : LoadSpec → List (String × Source) → D → Result Source × D
  unfolding source_named
  source_of spec by_name d = elim (source_named spec.source by_name) [
    | some s ↦ (ok s, d)
    | none ↦
        let (r, d') = db.first_source spec.source d in
        elim r [
          | err e ↦ (err e, d')
          | ok found ↦ elim found [
            | none ↦ (
              err (
                  format "load %q references unknown source %q"
                    (str spec.name ∷ str spec.source ∷ [])),
              d',
            )
            | some s ↦ (ok s, d')
          ]
        ]
  ]

  unfoldable pub apply_tags :
      LoadSpec → ℕ → List ModbusTagSpec → Report → D → (Report × Option Error) × D
  unfolding replace_modbus_tags
  apply_tags spec load_id [] rep d = ((rep, none), d)
  apply_tags spec load_id (t ∷ ts) rep d =
      let (r, d') = replace_modbus_tags db load_id (t ∷ ts) d in
      elim r [
        | err e ↦ ((rep, some (wrap_format "load %q modbus tags" (str spec.name ∷ []) e)), d')
        | ok n ↦ ((record rep { modbus_tags = rep.modbus_tags + n }, none), d')
      ]

  unfoldable pub apply_nodes :
      LoadSpec → ℕ → List OpcUaNodeSpec → Report → D → (Report × Option Error) × D
  unfolding replace_opcua_nodes
  apply_nodes spec load_id [] rep d = ((rep, none), d)
  apply_nodes spec load_id (n ∷ ns) rep d =
      let (r, d') = replace_opcua_nodes db load_id (n ∷ ns) d in
      elim r [
        | err e ↦ ((rep, some (wrap_format "load %q opcua nodes" (str spec.name ∷ []) e)), d')
        | ok k ↦ ((record rep { opcua_nodes = rep.opcua_nodes + k }, none), d')
      ]

  -- The body of the loop over the loads.
  unfoldable pub apply_load :
      SeedFile → List (String × Source) → LoadSpec → Report → D → (Report × Option Error) × D
  unfolding source_of upsert_load tags_of nodes_of apply_tags apply_nodes
  apply_load f by_name spec rep d =
      let (src, d₁) = source_of spec by_name d in
      elim src [
        | err e ↦ ((rep, some e), d₁)
        | ok s ↦
            let (r, d₂) = upsert_load db spec s.id d₁ in
            elim r [
              | err e ↦ ((rep, some (wrap_format "load %q" (str spec.name ∷ []) e)), d₂)
              | ok (l, action) ↦
                  let ((rep₁, e₁), d₃) =
                    apply_tags spec l.id (tags_of spec.name f.modbus_tags)
                      (record_load action spec.name rep) d₂ in
                  elim e₁ [
                    | some e ↦ ((rep₁, some e), d₃)
                    | none ↦ apply_nodes spec l.id (nodes_of spec.name f.opcua_nodes) rep₁ d₃
                  ]
            ]
      ]

  -- The loop over the loads.
  unfoldable pub apply_loads :
      SeedFile → List (String × Source) → List LoadSpec → Report → D → (Report × Option Error) × D
  unfolding apply_load
  apply_loads f by_name [] rep d = ((rep, none), d)
  apply_loads f by_name (spec ∷ specs) rep d =
      let ((rep', e), d') = apply_load f by_name spec rep d in
      elim e [ some x ↦ ((rep', some x), d') | none ↦ apply_loads f by_name specs rep' d' ]

  -- The function that `Apply` gives to the transaction.
  unfoldable pub apply_in : SeedFile → D → (Report × Option Error) × D
  unfolding apply_sources apply_loads
  apply_in f d =
      let (((rep, e), by_name), d') = apply_sources f.sources [] empty_report d in
      elim e [ some x ↦ ((rep, some x), d') | none ↦ apply_loads f by_name f.loads rep d' ]

  -- `Apply`.
  unfoldable pub apply : SeedFile → D → (Report × Option Error) × D
  unfolding check_references apply_in
  apply f d = elim (check_references f) [
    | some e ↦ ((empty_report, some e), d)
    | none ↦ db.transaction (apply_in f) d
  ]
