-- ===== src/Metadata/Telemetry.antt =====
-- internal/metadata/telemetry.go, and the rows of models.go that it lists: the telemetry catalog.
use data_loader.Prelude.{ℕ, Bool, List, [], ◌∷◌, Text, Result, ok, err}
use data_loader.Modbus.{ModbusPoint}
use data_loader.Sources.OpcUa.{OpcUaPoint}

-- A row of `meta_modbus_tags`; a float64 is its 64 bits.
pub record ModbusTag : Type 0 where
  pub load_id : ℕ
  pub correlation_id : Text
  pub tag_name : Text
  pub unit_id : ℕ
  pub register_type : Text
  pub address : ℕ
  pub quantity : ℕ
  pub data_type : Text
  pub byte_order : Text
  pub word_order : Text
  pub scale : ℕ
  pub offset : ℕ
  pub is_enabled : Bool

-- A row of `meta_opcua_nodes`.
pub record OpcUaNode : Type 0 where
  pub load_id : ℕ
  pub tag_name : Text
  pub node_id : Text
  pub scale : ℕ
  pub offset : ℕ
  pub is_enabled : Bool

-- The queries for the enabled rows of a load in the order of their keys.
pub record CatalogDb (D : Type 0) : Type 0 where
  pub find_modbus_tags : ℕ → D → Result (List ModbusTag) × D
  pub find_opcua_nodes : ℕ → D → Result (List OpcUaNode) × D

abbrev pub point_of : ModbusTag → ModbusPoint
point_of t = record {
  tag_name = t.tag_name;
  unit_id = t.unit_id;
  register_type = t.register_type;
  address = t.address;
  quantity = t.quantity;
  data_type = t.data_type;
  byte_order = t.byte_order;
  word_order = t.word_order;
  scale = t.scale;
  offset = t.offset;
  correlation_id = t.correlation_id;
}

abbrev pub node_point_of : OpcUaNode → OpcUaPoint
node_point_of n = record {
  tag_name = n.tag_name;
  node_id = n.node_id;
  scale = n.scale;
  offset = n.offset;
}

abbrev pub points_of : List ModbusTag → List ModbusPoint
points_of [] = []
points_of (t ∷ ts) = point_of t ∷ points_of ts

abbrev pub node_points_of : List OpcUaNode → List OpcUaPoint
node_points_of [] = []
node_points_of (n ∷ ns) = node_point_of n ∷ node_points_of ns

module _ {D : Type 0} (db : CatalogDb D) where
  -- `ListModbusTags`.
  unfoldable pub list_modbus_tags : ℕ → D → Result (List ModbusPoint) × D
  list_modbus_tags load_id d =
      let (r, d') = db.find_modbus_tags load_id d in
      elim r [ err e ↦ (err e, d') | ok tags ↦ (ok (points_of tags), d') ]

  -- `ListOPCUANodes`.
  unfoldable pub list_opcua_nodes : ℕ → D → Result (List OpcUaPoint) × D
  list_opcua_nodes load_id d =
      let (r, d') = db.find_opcua_nodes load_id d in
      elim r [ err e ↦ (err e, d') | ok nodes ↦ (ok (node_points_of nodes), d') ]
