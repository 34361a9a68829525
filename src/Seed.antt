-- ===== src/Seed.antt =====
-- internal/seed: the seed file, and the rows that it stands for. Descriptions are left out.
pub mod Rows
pub mod Apply
mod Tests
use data_loader.Prelude.{
  ℕ, String, Bool, true, false, ◌||◌, Option, none, some, List, [], ◌∷◌, ltb, if◌then◌else◌, Text,
  same_text, lit, to_lower, txt, Error, format, plain, Result, ok, err, ◌>>=◌,
}
use data_loader.Metadata.Telemetry.{ModbusTag, OpcUaNode}

pub record SourceSpec : Type 0 where
  pub name : String
  pub kind : String
  pub is_enabled : Option Bool
  pub params : List (Text × Text)

pub record LoadSpec : Type 0 where
  pub name : String
  pub source : String
  pub cron_expression : String
  pub mode : String
  pub object_name : Text
  pub watermark_column : Text
  pub watermark_type : String
  pub target_schema : Text
  pub target_table : Text
  pub batch_size : ℕ
  pub auto_create_table : Option Bool
  pub is_enabled : Option Bool

pub record ModbusTagSpec : Type 0 where
  pub load : String
  pub tag_name : Text
  pub correlation_id : Text
  pub unit_id : ℕ
  pub register_type : Text
  pub address : ℕ
  pub quantity : ℕ
  pub data_type : Text
  pub byte_order : Text
  pub word_order : Text
  pub scale : Option ℕ
  pub offset : Option ℕ
  pub is_enabled : Option Bool

pub record OpcUaNodeSpec : Type 0 where
  pub load : String
  pub tag_name : Text
  pub node_id : Text
  pub scale : Option ℕ
  pub offset : Option ℕ
  pub is_enabled : Option Bool

-- `File`.
pub record SeedFile : Type 0 where
  pub sources : List SourceSpec
  pub loads : List LoadSpec
  pub modbus_tags : List ModbusTagSpec
  pub opcua_nodes : List OpcUaNodeSpec

-- `boolOr` and `float64Or`.
abbrev pub value_or : {A : Type 0} → Option A → A → A
value_or none default = default
value_or (some x) default = x

-- `stringOr`.
abbrev pub text_or : Text → Text → Text
text_or [] default = default
text_or (c ∷ cs) default = c ∷ cs

-- The float64 1.0.
abbrev one : ℕ
one = 0x3FF0000000000000

-- `defaultQuantity`.
unfoldable pub default_quantity : ModbusTagSpec → ℕ
unfolding same_text
default_quantity t =
    let d = to_lower t.data_type in
    if ltb 0 t.quantity
    then t.quantity
    else if same_text d (lit "int16") || same_text d (lit "uint16") || same_text d (lit "bool")
    then 1
    else if same_text d (lit "int32") || same_text d (lit "uint32") || same_text d (lit "float32")
    then 2
    else if same_text d (lit "int64") || same_text d (lit "uint64") || same_text d (lit "float64")
    then 4
    else 1

abbrev pub is_empty : Text → Bool
is_empty [] = true
is_empty (c ∷ cs) = false

-- The body of the loop of `replaceModbusTags`.
unfoldable pub modbus_row : ℕ → ModbusTagSpec → Result ModbusTag
unfolding default_quantity
modbus_row load_id t =
    if is_empty t.tag_name
    then err (plain "modbus tag requires tag_name")
    else if is_empty t.register_type
    then err (format "modbus tag %q requires register_type" (txt t.tag_name ∷ []))
    else if is_empty t.data_type
    then err (format "modbus tag %q requires data_type" (txt t.tag_name ∷ []))
    else ok (record {
      load_id = load_id;
      correlation_id = t.correlation_id;
      tag_name = t.tag_name;
      unit_id = t.unit_id;
      register_type = t.register_type;
      address = t.address;
      quantity = default_quantity t;
      data_type = t.data_type;
      byte_order = text_or t.byte_order (lit "big");
      word_order = text_or t.word_order (lit "high_first");
      scale = value_or t.scale one;
      offset = value_or t.offset 0;
      is_enabled = value_or t.is_enabled true;
    })

-- The loop.
unfoldable pub modbus_rows : ℕ → List ModbusTagSpec → Result (List ModbusTag)
unfolding modbus_row
modbus_rows load_id [] = ok []
modbus_rows load_id (t ∷ ts) = do
  row ← modbus_row load_id t
  rows ← modbus_rows load_id ts
  ok (row ∷ rows)

-- The body of the loop of `replaceOPCUANodes`.
unfoldable pub opcua_row : ℕ → OpcUaNodeSpec → Result OpcUaNode
opcua_row load_id n =
    if is_empty n.tag_name || is_empty n.node_id
    then err (plain "opcua node requires tag_name and node_id")
    else ok (record {
      load_id = load_id;
      tag_name = n.tag_name;
      node_id = n.node_id;
      scale = value_or n.scale one;
      offset = value_or n.offset 0;
      is_enabled = value_or n.is_enabled true;
    })

-- The loop.
unfoldable pub opcua_rows : ℕ → List OpcUaNodeSpec → Result (List OpcUaNode)
unfolding opcua_row
opcua_rows load_id [] = ok []
opcua_rows load_id (n ∷ ns) = do
  row ← opcua_row load_id n
  rows ← opcua_rows load_id ns
  ok (row ∷ rows)
