-- ===== src/Sources/OpcUa/Cycle.antt =====
-- internal/sources/opcua/source.go: `Read`, one polling cycle.
pub mod Lockstep
pub mod Rows
use data_loader.Prelude.{
  ℕ, suc, ◌+◌, Bool, Option, none, some, List, [], ◌∷◌, length, count, get_elem?, Text, same_text,
  lit, Error, plain, wrap, Result, ok, err,
}
use data_loader.Contracts.{Batch, Row, LoadConfig, ReadResult, empty_result}
use data_loader.Metrics.{Sample, observe_bad_quality}
use data_loader.Modbus.{Floats}
use data_loader.Sources.OpcUa.{
  OpcUaPoint, DataValue, Client, Reading, columns, row_of, bad_row, value_row,
}

abbrev pub rows_of : List Reading → List Row
unfolding row_of
rows_of [] = []
rows_of (r ∷ rs) = row_of r ∷ rows_of rs

-- The test of the count of bad rows.
abbrev pub is_bad : Reading → Bool
unfolding same_text
is_bad r = same_text r.quality (lit "bad")

abbrev pub failed_rows : ℕ → Text → List OpcUaPoint → List Reading
failed_rows poll_ts message [] = []
failed_rows poll_ts message (n ∷ ns) = bad_row n poll_ts message ∷ failed_rows poll_ts message ns

-- `nodesToRead`: the nodes that parse.
abbrev pub nodes_to_read : {N : Type 0} → List (Option N) → List N
nodes_to_read [] = []
nodes_to_read (none ∷ ids) = nodes_to_read ids
nodes_to_read (some id ∷ ids) = id ∷ nodes_to_read ids

-- The slot of a node in `parsedIDs`.
abbrev pub id_of : {N : Type 0} → Result N → Option N
id_of (ok id) = some id
id_of (err e) = none

-- `emit`, of a batch whose rows are all counted.
unfoldable pub emit :
    {S : Type 0}
    → List Reading
    → (Batch → S → Option Error × S)
    → S
    → (ReadResult × Option Error) × S
unfolding rows_of
emit readings handler s =
    let (r, s') = handler (record { columns = columns; rows = rows_of readings }) s in
    ((record empty_result { rows_read = length readings }, r), s')

module _ {N C : Type 0} (fl : Floats) (cl : Client N C) where
  -- `parsedIDs`: nil for a node that does not parse.
  unfoldable pub parse_ids : List OpcUaPoint → List (Option N)
  parse_ids [] = []
  parse_ids (n ∷ ns) = id_of (cl.parse_node_id n.node_id) ∷ parse_ids ns

  -- The loop over the nodes and the results, from the index of the next result.
  unfoldable pub walk : ℕ → List DataValue → List OpcUaPoint → List (Option N) → ℕ → List Reading
  unfolding value_row
  walk poll_ts results [] ids resp_idx = []
  walk poll_ts results (n ∷ ns) [] resp_idx = []
  walk poll_ts results (n ∷ ns) (none ∷ ids) resp_idx =
      bad_row n poll_ts (lit "invalid node id") ∷ walk poll_ts results ns ids resp_idx
  walk poll_ts results (n ∷ ns) (some id ∷ ids) resp_idx =
      elim (get_elem? results resp_idx) [
        | none ↦ bad_row n poll_ts (lit "no response for node")
        | some dv ↦ value_row fl cl n dv poll_ts
      ]
      ∷ walk poll_ts results ns ids (suc resp_idx)

  -- The batch read, if a node parses; a response that is nil has no results.
  unfoldable pub request : List N → C → Result (List DataValue) × C
  request [] c = (ok [], c)
  request (id ∷ ids) c = cl.read (id ∷ ids) c

  -- The part of `Read` after the batch read.
  unfoldable pub respond :
      {S : Type 0}
      → ℕ
      → List OpcUaPoint
      → LoadConfig
      → (Batch → S → Option Error × S)
      → Result (List DataValue) × C
      → S
      → (ReadResult × Option Error) × (List Sample × (C × S))
  unfolding parse_ids walk emit is_bad
  respond poll_ts nodes load handler (err e, c) s =
      let readings = failed_rows poll_ts (cl.render e) nodes in
      let (r, s') = emit readings handler s in
      (r, (observe_bad_quality load.name (length readings), (c, s')))
  respond poll_ts nodes load handler (ok results, c) s =
      let readings = walk poll_ts results nodes (parse_ids nodes) 0 in
      let (r, s') = emit readings handler s in
      (r, (observe_bad_quality load.name (count is_bad readings), (c, s')))

  -- `Read`, with the telemetry catalog's answer (none if there is no catalog), and the samples it
  -- reports.
  unfoldable pub read :
      {S : Type 0}
      → ℕ
      → Option (Result (List OpcUaPoint))
      → LoadConfig
      → (Batch → S → Option Error × S)
      → C
      → S
      → (ReadResult × Option Error) × (List Sample × (C × S))
  unfolding request parse_ids respond
  read poll_ts none load handler c s =
      ((empty_result, some (plain "opcua telemetry catalog not configured")), ([], (c, s)))
  read poll_ts (some (err e)) load handler c s =
      ((empty_result, some (wrap "load nodes" e)), ([], (c, s)))
  read poll_ts (some (ok [])) load handler c s = ((empty_result, none), ([], (c, s)))
  read poll_ts (some (ok (n ∷ ns))) load handler c s =
      respond poll_ts (n ∷ ns) load handler (request (nodes_to_read (parse_ids (n ∷ ns))) c) s
