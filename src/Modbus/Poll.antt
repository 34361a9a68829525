-- ===== src/Modbus/Poll.antt =====
-- internal/sources/modbus/source.go: reading the tags of a load, one row for each.
pub mod Cycle
mod Tests
use data_loader.Prelude.{
  ℕ, suc, ◌+◌, Bool, true, false, not, ◌&&◌, ◌||◌, Option, none, some, List, [], ◌∷◌, ◌++◌, length,
  count, leb, String, if◌then◌else◌, Text, same_text, lit, to_lower, txt, Error, format, wrap,
  plain, Result, ok, err,
}
use data_loader.Contracts.{
  Column, Batch, Row, Value, null, boolean, string, float, datetime, bytes, integer, uuid,
  LoadConfig, ReadResult, empty_result,
}
use data_loader.Metrics.{Sample, observe_bad_quality}
use data_loader.Modbus.{
  ModbusPoint, Floats, Client, RegType, holding_register, input_register, endianness, word_order_of,
  equal_fold, null_if_empty, quantity_for, to_bytes, swap_words, decode_numeric,
}

abbrev pub columns : List Column
columns =
    record { name = lit "correlation_id"; data_type = "string"; nullable = true }
    ∷ record { name = lit "tag_name"; data_type = "string"; nullable = false }
    ∷ record { name = lit "ts"; data_type = "datetime"; nullable = false }
    ∷ record { name = lit "value_num"; data_type = "float64"; nullable = true }
    ∷ record { name = lit "value_bool"; data_type = "bool"; nullable = true }
    ∷ record { name = lit "value_text"; data_type = "string"; nullable = true }
    ∷ record { name = lit "quality"; data_type = "string"; nullable = false }
    ∷ []

-- A reading, which `row_of` makes into a row.
pub record Reading : Type 0 where
  pub correlation_id : Value
  pub tag_name : Text
  pub ts : ℕ
  pub value_num : Value
  pub value_bool : Value
  pub value_text : Value
  pub bad : Bool

unfoldable pub row_of : Reading → Row
row_of r =
    (lit "correlation_id", r.correlation_id)
    ∷ (lit "tag_name", string r.tag_name)
    ∷ (lit "ts", datetime r.ts)
    ∷ (lit "value_num", r.value_num)
    ∷ (lit "value_bool", r.value_bool)
    ∷ (lit "value_text", r.value_text)
    ∷ (lit "quality", string (if r.bad then lit "bad" else lit "good"))
    ∷ []

abbrev pub new_reading : ModbusPoint → ℕ → Reading
new_reading tag now = record {
  correlation_id = null_if_empty tag.correlation_id;
  tag_name = tag.tag_name;
  ts = now;
  value_num = null;
  value_bool = null;
  value_text = null;
  bad = false;
}

abbrev mark_bad : Text → Reading → Reading
mark_bad text r = record r { value_text = string text; bad = true }

-- `readRegisters` after the read: the bytes in order, decoded and scaled.
unfoldable pub scale_registers : Floats → ModbusPoint → List ℕ → Result ℕ
unfolding to_bytes swap_words decode_numeric same_text
scale_registers fl tag regs =
    let buf = to_bytes regs in
    let ordered =
      if equal_fold tag.word_order (lit "low_first") && leb 2 (length regs)
      then swap_words buf
      else buf in
    elim (decode_numeric fl ordered tag.data_type tag.byte_order) [
      | err e ↦ err e
      | ok raw ↦
          let scaled = fl.add (fl.mul raw tag.scale) tag.offset in
          if fl.is_nan scaled || fl.is_inf scaled
          then err (plain "decoded value is NaN/Inf")
          else ok scaled
    ]

-- `readRegisters`.
unfoldable pub read_registers_of :
    {C : Type 0} → Floats → Client C → ModbusPoint → Reading → C → Option Error × (Reading × C)
unfolding quantity_for scale_registers same_text
read_registers_of fl cl tag row c =
    let reg_type =
      if same_text (to_lower tag.register_type) (lit "input")
      then input_register
      else holding_register in
    let (r, c') =
      cl.read_registers tag.address (quantity_for tag.data_type tag.quantity) reg_type c in
    elim r [
      | err e ↦ (some e, (row, c'))
      | ok regs ↦ elim (scale_registers fl tag regs) [
        | err e ↦ (some e, (row, c'))
        | ok v ↦ (none, (record row { value_num = float v }, c'))
      ]
    ]

abbrev pub coil_into : {C : Type 0} → Result Bool × C → Reading → Option Error × (Reading × C)
coil_into (err e, c) row = (some e, (row, c))
coil_into (ok b, c) row = (none, (record row { value_bool = boolean b }, c))

-- `readTagInto`.
unfoldable pub read_tag_into :
    {C : Type 0} → Floats → Client C → ModbusPoint → Reading → C → Option Error × (Reading × C)
unfolding read_registers_of same_text
read_tag_into fl cl tag row c =
    let t = to_lower tag.register_type in
    if same_text t (lit "coil")
    then coil_into (cl.read_coil tag.address c) row
    else if same_text t (lit "discrete")
    then coil_into (cl.read_discrete_input tag.address c) row
    else if same_text t (lit "holding") || same_text t (lit "input")
    then read_registers_of fl cl tag row c
    else (some (format "unknown register type %q" (txt tag.register_type ∷ [])), (row, c))

-- The body of the loop: the row of a tag, and what it adds to `RowsRead`.
unfoldable pub poll_tag : {C : Type 0} → Floats → Client C → ℕ → ModbusPoint → C → (Reading × ℕ) × C
unfolding read_tag_into
poll_tag fl cl now tag c =
    let row = new_reading tag now in
    let (unit, c1) = cl.set_unit_id tag.unit_id c in
    elim unit [
      | some e ↦ ((mark_bad (lit "set unit: " ++ cl.render e) row, 0), c1)
      | none ↦
          let (encoding, c2) =
            cl.set_encoding (endianness tag.byte_order) (word_order_of tag.word_order) c1 in
          elim encoding [
            | some e ↦ ((mark_bad (lit "set encoding: " ++ cl.render e) row, 0), c2)
            | none ↦
                let (r, (row', c3)) = read_tag_into fl cl tag row c2 in
                elim r [ some e ↦ ((mark_bad (cl.render e) row', 1), c3) | none ↦ ((row', 1), c3) ]
          ]
    ]

-- The loop over the tags.
unfoldable pub poll_tags :
    {C : Type 0} → Floats → Client C → ℕ → List ModbusPoint → C → (List Reading × ℕ) × C
unfolding poll_tag
poll_tags fl cl now [] c = (([], 0), c)
poll_tags fl cl now (tag ∷ tags) c =
    let ((row, n), c1) = poll_tag fl cl now tag c in
    let ((rows, m), c2) = poll_tags fl cl now tags c1 in ((row ∷ rows, n + m), c2)

abbrev pub rows_of : List Reading → List Row
rows_of [] = []
rows_of (r ∷ rs) = row_of r ∷ rows_of rs

abbrev pub is_bad : Reading → Bool
is_bad r = r.bad

-- `Read`, with the telemetry catalog's answer (none if there is no catalog), and the samples it reports.
unfoldable pub read :
    {C S : Type 0}
    → Floats
    → Client C
    → ℕ
    → Option (Result (List ModbusPoint))
    → LoadConfig
    → (Batch → S → Option Error × S)
    → C
    → S
    → (ReadResult × Option Error) × (List Sample × (C × S))
unfolding poll_tags row_of
read fl cl now none load handler c s =
    ((empty_result, some (plain "modbus telemetry catalog not configured")), ([], (c, s)))
read fl cl now (some (err e)) load handler c s =
    ((empty_result, some (wrap "load tags" e)), ([], (c, s)))
read fl cl now (some (ok [])) load handler c s = ((empty_result, none), ([], (c, s)))
read fl cl now (some (ok (tag ∷ tags))) load handler c s =
    let ((readings, n), c') = poll_tags fl cl now (tag ∷ tags) c in
    let result = record empty_result { rows_read = n } in
    let (r, s') = handler (record { columns = columns; rows = rows_of readings }) s in
    ((result, r), (observe_bad_quality load.name (count is_bad readings), (c', s')))
