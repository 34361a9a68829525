-- ===== src/Sources/OpcUa.antt =====
-- internal/sources/opcua/source.go: a polling cycle of an OPC UA source. The client library and the
-- arithmetic of float64 are parameters.
pub mod Options
pub mod Cycle
use data_loader.Prelude.{
  ℕ, suc, ◌+◌, Bool, true, false, not, Option, none, some, List, [], ◌∷◌, ◌==◌, length, count,
  get_elem?, if◌then◌else◌, Text, same_text, lit, Error, plain, wrap, Result, ok, err,
}
use data_loader.Contracts.{
  Column, Batch, Row, Value, null, boolean, string, float, datetime, LoadConfig, ReadResult,
  empty_result,
}
use data_loader.Metrics.{Sample, observe_bad_quality}
use data_loader.Modbus.{Floats}

pub record OpcUaPoint : Type 0 where
  pub tag_name : Text
  pub node_id : Text
  pub scale : ℕ
  pub offset : ℕ

-- What `Variant.Value` gives. A signed integer is a sign and a magnitude; anything that the source
-- has no case for comes with its text under `%v`.
pub data UaValue : Type 0 where
  nothing : UaValue
  bool_value : Bool → UaValue
  string_value : Text → UaValue
  float32_value : ℕ → UaValue
  float64_value : ℕ → UaValue
  int8_value : Bool → ℕ → UaValue
  int16_value : Bool → ℕ → UaValue
  int32_value : Bool → ℕ → UaValue
  int64_value : Bool → ℕ → UaValue
  uint8_value : ℕ → UaValue
  uint16_value : ℕ → UaValue
  uint32_value : ℕ → UaValue
  uint64_value : ℕ → UaValue
  time_value : ℕ → UaValue
  other_value : Text → UaValue

-- `ua.DataValue`; `none` for a time that is zero and for a value that is nil.
pub record DataValue : Type 0 where
  pub status : ℕ
  pub value : Option UaValue
  pub source_timestamp : Option ℕ
  pub server_timestamp : Option ℕ

-- The client of gopcua: `ua.ParseNodeID`, a batch read of the value attribute, and texts.
pub record Client (N C : Type 0) : Type 0 where
  pub parse_node_id : Text → Result N
  pub read : List N → C → Result (List DataValue) × C
  pub status_text : ℕ → Text
  pub render : Error → Text
  pub format_time : ℕ → Text

abbrev pub columns : List Column
columns =
    record { name = lit "tag_name"; data_type = "string"; nullable = false }
    ∷ record { name = lit "node_id"; data_type = "string"; nullable = false }
    ∷ record { name = lit "ts"; data_type = "datetime"; nullable = false }
    ∷ record { name = lit "value_num"; data_type = "float64"; nullable = true }
    ∷ record { name = lit "value_bool"; data_type = "bool"; nullable = true }
    ∷ record { name = lit "value_text"; data_type = "string"; nullable = true }
    ∷ record { name = lit "quality"; data_type = "string"; nullable = false }
    ∷ []

-- A row, by its columns.
pub record Reading : Type 0 where
  pub tag_name : Text
  pub node_id : Text
  pub ts : ℕ
  pub value_num : Value
  pub value_bool : Value
  pub value_text : Value
  pub quality : Text

unfoldable pub row_of : Reading → Row
row_of r =
    (lit "tag_name", string r.tag_name)
    ∷ (lit "node_id", string r.node_id)
    ∷ (lit "ts", datetime r.ts)
    ∷ (lit "value_num", r.value_num)
    ∷ (lit "value_bool", r.value_bool)
    ∷ (lit "value_text", r.value_text)
    ∷ (lit "quality", string r.quality)
    ∷ []

-- `badRow`.
abbrev pub bad_row : OpcUaPoint → ℕ → Text → Reading
bad_row n ts message = record {
  tag_name = n.tag_name;
  node_id = n.node_id;
  ts = ts;
  value_num = null;
  value_bool = null;
  value_text = string message;
  quality = lit "bad";
}

abbrev status_ok : ℕ
status_ok = 0

abbrev status_uncertain : ℕ
status_uncertain = 0x40000000

abbrev status_bad : ℕ
status_bad = 0x80000000

-- `qualityFromStatus`.
unfoldable pub quality_from_status : ℕ → Text
quality_from_status s =
    if s == status_ok
    then lit "good"
    else if s == status_bad
    then lit "bad"
    else if s == status_uncertain
    then lit "uncertain"
    else lit "good"

-- `pickTimestamp`, of a value that is there.
unfoldable pub pick_timestamp : Option ℕ → Option ℕ → ℕ → ℕ
pick_timestamp (some t) server fallback = t
pick_timestamp none (some t) fallback = t
pick_timestamp none none fallback = fallback

module _ {N C : Type 0} (fl : Floats) (cl : Client N C) where
  abbrev scaled : OpcUaPoint → ℕ → Reading → Reading
  scaled n x row = record row { value_num = float (fl.add (fl.mul x n.scale) n.offset) }

  -- `assignValue`.
  unfoldable pub assign_value : OpcUaPoint → UaValue → Reading → Reading
  assign_value n nothing row = record row {
    quality = lit "bad";
    value_text = string (lit "null value");
  }
  assign_value n (bool_value b) row = record row { value_bool = boolean b }
  assign_value n (string_value t) row = record row { value_text = string t }
  assign_value n (float32_value x) row = scaled n (fl.of_float32 x) row
  assign_value n (float64_value x) row = scaled n x row
  assign_value n (int8_value sign x) row = scaled n (fl.of_int sign x) row
  assign_value n (int16_value sign x) row = scaled n (fl.of_int sign x) row
  assign_value n (int32_value sign x) row = scaled n (fl.of_int sign x) row
  assign_value n (int64_value sign x) row = scaled n (fl.of_int sign x) row
  assign_value n (uint8_value x) row = scaled n (fl.of_int false x) row
  assign_value n (uint16_value x) row = scaled n (fl.of_int false x) row
  assign_value n (uint32_value x) row = scaled n (fl.of_int false x) row
  assign_value n (uint64_value x) row = scaled n (fl.of_int false x) row
  assign_value n (time_value t) row = record row { value_text = string (cl.format_time t) }
  assign_value n (other_value t) row = record row { value_text = string t }

  -- The row of a node whose answer came back.
  unfoldable pub value_row : OpcUaPoint → DataValue → ℕ → Reading
  unfolding pick_timestamp quality_from_status assign_value
  value_row n dv poll_ts =
      let row : Reading = record {
        tag_name = n.tag_name;
        node_id = n.node_id;
        ts = pick_timestamp dv.source_timestamp dv.server_timestamp poll_ts;
        value_num = null;
        value_bool = null;
        value_text = null;
        quality = quality_from_status dv.status;
      } in
      if not (dv.status == status_ok)
      then record row { value_text = string (cl.status_text dv.status) }
      else elim dv.value [
        | some v ↦ assign_value n v row
        | none ↦ record row { quality = lit "bad"; value_text = string (lit "null value") }
      ]
