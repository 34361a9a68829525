-- ===== src/Sources/OpcUa/Cycle/Rows.antt =====
-- What one polling cycle of an OPC UA source delivers, whatever the server replies.
use data_loader.Prelude.{
  ℕ, suc, ◌≡◌, refl, not, ◌==◌, either, maybe, Option, none, some, List, [], ◌∷◌, get_elem?, Text,
  Error, Result, ok, err,
}
use data_loader.Contracts.{Batch, LoadConfig}
use data_loader.Modbus.{Floats}
use data_loader.Sources.OpcUa.{
  OpcUaPoint, DataValue, UaValue, Client, Reading, assign_value, value_row, nothing, bool_value,
  string_value, float32_value, float64_value, int8_value, int16_value, int32_value, int64_value,
  uint8_value, uint16_value, uint32_value, uint64_value, time_value, other_value,
}
use data_loader.Sources.OpcUa.Cycle.{
  id_of, failed_rows, nodes_to_read, parse_ids, walk, respond, request, emit, read,
}
use data_loader.Sources.OpcUa.Cycle.Lockstep.{Delivers}

-- A row with the names of a node.
abbrev Names : OpcUaPoint → Reading → Type 0
Names n row = (row.tag_name ≡ n.tag_name) × (row.node_id ≡ n.node_id)

-- One row for each node, in their order.
abbrev pub AreRowsOf : List OpcUaPoint → List Reading → Type 0
AreRowsOf [] [] = Unit
AreRowsOf [] (r ∷ rs) = ⊥
AreRowsOf (n ∷ ns) [] = ⊥
AreRowsOf (n ∷ ns) (r ∷ rs) = Names n r × AreRowsOf ns rs

module _ {N C : Type 0} (fl : Floats) (cl : Client N C) where
  assign_value-Names :
      (n : OpcUaPoint) (v : UaValue) (row : Reading)
      → Names n row
      → Names n (assign_value fl cl n v row)
  unfolding assign_value
  assign_value-Names n nothing row h = h
  assign_value-Names n (bool_value b) row h = h
  assign_value-Names n (string_value t) row h = h
  assign_value-Names n (float32_value x) row h = h
  assign_value-Names n (float64_value x) row h = h
  assign_value-Names n (int8_value sign x) row h = h
  assign_value-Names n (int16_value sign x) row h = h
  assign_value-Names n (int32_value sign x) row h = h
  assign_value-Names n (int64_value sign x) row h = h
  assign_value-Names n (uint8_value x) row h = h
  assign_value-Names n (uint16_value x) row h = h
  assign_value-Names n (uint32_value x) row h = h
  assign_value-Names n (uint64_value x) row h = h
  assign_value-Names n (time_value t) row h = h
  assign_value-Names n (other_value t) row h = h

  value_row-Names :
      (poll_ts : ℕ) (n : OpcUaPoint) (dv : DataValue) → Names n (value_row fl cl n dv poll_ts)
  unfolding value_row
  value_row-Names poll_ts n dv =
      either (Names n) (not (dv.status == 0)) _ _ (refl, refl)
        (maybe (Names n) dv.value _ _ (refl, refl) (λ v. assign_value-Names n v _ (refl, refl)))

  failed_rows-AreRowsOf :
      (poll_ts : ℕ) (message : Text) (nodes : List OpcUaPoint)
      → AreRowsOf nodes (failed_rows poll_ts message nodes)
  failed_rows-AreRowsOf poll_ts message [] = tt
  failed_rows-AreRowsOf poll_ts message (n ∷ ns) =
      ((refl, refl), failed_rows-AreRowsOf poll_ts message ns)

  module _ (poll_ts : ℕ) (results : List DataValue) where
    walk_step :
        (n : OpcUaPoint) (ns : List OpcUaPoint) (ids : List (Option N)) (id : Option N)
        → ((i : ℕ) → AreRowsOf ns (walk fl cl poll_ts results ns ids i))
        → (i : ℕ) → AreRowsOf (n ∷ ns) (walk fl cl poll_ts results (n ∷ ns) (id ∷ ids) i)
    unfolding walk
    walk_step n ns ids none rest i = ((refl, refl), rest i)
    walk_step n ns ids (some id) rest i = (
      maybe (Names n) (get_elem? results i) _ _ (refl, refl) (λ dv. value_row-Names poll_ts n dv),
      rest (suc i),
    )

    walk-AreRowsOf :
        (nodes : List OpcUaPoint) (i : ℕ)
        → AreRowsOf nodes (walk fl cl poll_ts results nodes (parse_ids fl cl nodes) i)
    unfolding walk parse_ids
    walk-AreRowsOf [] i = tt
    walk-AreRowsOf (n ∷ ns) i =
        walk_step n ns (parse_ids fl cl ns) (id_of (cl.parse_node_id n.node_id)) (walk-AreRowsOf ns)
          i

  module _ {S : Type 0} (poll_ts : ℕ) (load : LoadConfig) (handler : Batch → S → Option Error × S)
      (s : S) where
    respond-AreRowsOf :
        (nodes : List OpcUaPoint) (q : Result (List DataValue) × C)
        → (rows : List Reading) × AreRowsOf nodes rows
          × Delivers fl cl poll_ts load handler s rows
              (respond fl cl poll_ts nodes load handler q s)
    unfolding respond emit
    respond-AreRowsOf nodes (err e, c) = (
      failed_rows poll_ts (cl.render e) nodes,
      failed_rows-AreRowsOf poll_ts (cl.render e) nodes,
      (refl, refl),
    )
    respond-AreRowsOf nodes (ok results, c) = (
      walk fl cl poll_ts results nodes (parse_ids fl cl nodes) 0,
      walk-AreRowsOf poll_ts results nodes 0,
      (refl, refl),
    )

    -- Whatever the server replies, an error or too few results included, a poll of at least one node
    -- calls the handler once, with one row for each node of the catalog in its order, and counts them.
    pub read-AreRowsOf :
        (n : OpcUaPoint) (ns : List OpcUaPoint) (c : C)
        → (rows : List Reading) × AreRowsOf (n ∷ ns) rows
          × Delivers fl cl poll_ts load handler s rows
              (read fl cl poll_ts (some (ok (n ∷ ns))) load handler c s)
    unfolding read
    read-AreRowsOf n ns c =
        respond-AreRowsOf (n ∷ ns) (request fl cl (nodes_to_read (parse_ids fl cl (n ∷ ns))) c)
