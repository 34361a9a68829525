-- ===== src/Seed/Tests.antt =====
-- Small seed files.
use data_loader.Prelude.{ℕ, suc, ◌≤◌, ◌≡◌, refl, true, none, some, [], ◌∷◌, lit, ok, same_text}
use data_loader.Metadata.Telemetry.{ModbusTag}
use data_loader.Seed.Apply.{SeedDb, upsert_source, upsert_load, replace_modbus_tags}
use data_loader.Seed.Apply.Reconcile.{
  missing_load, declared, undeclared_load, check_references, tags_of, nodes_of, source_named,
  apply_sources, source_of, apply_tags, apply_nodes, apply_load, apply_loads, apply_in, apply,
}
use data_loader.Seed.Apply.Reconcile.Complete.{apply_complete}
use data_loader.Seed.{SeedFile, ModbusTagSpec, default_quantity, modbus_row, modbus_rows}
use data_loader.Seed.Rows.{AreSeeded, modbus_rows-AreSeeded}

abbrev pressure : ModbusTagSpec
pressure = record {
  load = "plant";
  tag_name = lit "p";
  correlation_id = [];
  unit_id = 1;
  register_type = lit "input";
  address = 10;
  quantity = 0;
  data_type = lit "Float32";
  byte_order = [];
  word_order = lit "low_first";
  scale = none;
  offset = some 7;
  is_enabled = none;
}

abbrev pressure_row : ModbusTag
pressure_row = record {
  load_id = 3;
  correlation_id = [];
  tag_name = lit "p";
  unit_id = 1;
  register_type = lit "input";
  address = 10;
  quantity = 2;
  data_type = lit "Float32";
  byte_order = lit "big";
  word_order = lit "low_first";
  scale = 0x3FF0000000000000;
  offset = 7;
  is_enabled = true;
}

pressure_rows : modbus_rows 3 (pressure ∷ []) ≡ ok (pressure_row ∷ [])
unfolding modbus_rows modbus_row default_quantity same_text
pressure_rows = refl

modbus_rows-AreSeeded_example : AreSeeded 3 (pressure ∷ []) (pressure_row ∷ [])
modbus_rows-AreSeeded_example =
    modbus_rows-AreSeeded 3 (pressure ∷ []) (pressure_row ∷ []) pressure_rows

-- A file with one source, one load and one tag.
abbrev plant_file : SeedFile
plant_file = record {
  sources = (record { name = "gateway"; kind = "modbus"; params = []; is_enabled = none }) ∷ [];
  loads =
      (record {
        name = "plant";
        source = "gateway";
        cron_expression = "@hourly";
        mode = "full";
        object_name = [];
        watermark_column = [];
        watermark_type = "";
        target_schema = [];
        target_table = lit "plant";
        batch_size = 10;
        auto_create_table = none;
        is_enabled = none;
      })
      ∷ [];
  modbus_tags = pressure ∷ [];
  opcua_nodes = [];
}

-- An empty store that counts its calls, and that takes every row.
abbrev empty_db : SeedDb ℕ
empty_db = record {
  marshal = λ params. ok [];
  first_source = λ name d. (ok none, suc d);
  create_source = λ s d. (ok s, suc d);
  save_source = λ s d. (none, suc d);
  first_load = λ name d. (ok none, suc d);
  create_load = λ l d. (ok l, suc d);
  save_load = λ l d. (none, suc d);
  delete_modbus_tags = λ id d. (none, suc d);
  create_modbus_tags = λ rows d. (none, suc d);
  delete_opcua_nodes = λ id d. (none, suc d);
  create_opcua_nodes = λ rows d. (none, suc d);
  transaction = λ body d. body d;
}

plant_applied : (apply empty_db plant_file 0).0.1 ≡ none
unfolding apply apply_in check_references missing_load undeclared_load declared apply_sources
    upsert_source apply_loads apply_load source_of source_named upsert_load tags_of nodes_of
    apply_tags apply_nodes replace_modbus_tags modbus_rows modbus_row default_quantity same_text
plant_applied = refl

apply_complete_example : 1 ≤ (apply empty_db plant_file 0).0.0.modbus_tags
apply_complete_example = apply_complete empty_db plant_file 0 (λ g e done. refl) plant_applied
