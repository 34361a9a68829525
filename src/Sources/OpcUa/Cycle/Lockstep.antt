-- ===== src/Sources/OpcUa/Cycle/Lockstep.antt =====
-- What one polling cycle of an OPC UA source delivers.
use mathlib.Core.List.{append_assoc}
use data_loader.Prelude.{
  ℕ, suc, ◌≡◌, refl, ok_inj, ap, subst, ◌∙◌, Option, some, List, [], ◌∷◌, ◌++◌, map, length,
  length-append, get_elem?, lit, Error, Result, ok, err, arith,
}
use data_loader.Contracts.{Batch, LoadConfig, ReadResult, empty_result}
use data_loader.Metrics.{Sample}
use data_loader.Modbus.{Floats}
use data_loader.Sources.OpcUa.{OpcUaPoint, DataValue, Client, Reading, columns, bad_row, value_row}
use data_loader.Sources.OpcUa.Cycle.{
  rows_of, id_of, nodes_to_read, parse_ids, walk, respond, request, emit, read,
}

module _ {N C : Type 0} (fl : Floats) (cl : Client N C) where
  abbrev row_by : ℕ → (N → DataValue) → OpcUaPoint → Result N → Reading
  row_by poll_ts answer n (err e) = bad_row n poll_ts (lit "invalid node id")
  row_by poll_ts answer n (ok id) = value_row fl cl n (answer id) poll_ts

  -- The row of a node by itself: an error if it does not parse, else from the server's answer for it.
  abbrev pub row_alone : ℕ → (N → DataValue) → OpcUaPoint → Reading
  row_alone poll_ts answer n = row_by poll_ts answer n (cl.parse_node_id n.node_id)

  get_elem_past :
      (done rest : List DataValue) (dv : DataValue)
      → get_elem? (done ++ (dv ∷ rest)) (length done) ≡ some dv
  get_elem_past [] rest dv = refl
  get_elem_past (d ∷ done) rest dv = get_elem_past done rest dv

  length-snoc :
      (done : List DataValue) (dv : DataValue) → length (done ++ (dv ∷ [])) ≡ suc (length done)
  length-snoc done dv = omega (arith, length-append done (dv ∷ []))

  module _ (poll_ts : ℕ) (answer : N → DataValue) where
    -- From any number of results that are used already, the walk gives the rows of the nodes alone.
    abbrev Aligned : List OpcUaPoint → List (Option N) → Type 0
    Aligned nodes ids =
        (done : List DataValue)
        → walk fl cl poll_ts (done ++ map answer (nodes_to_read ids)) nodes ids (length done)
          ≡ map (row_alone poll_ts answer) nodes

    walk_step :
        (n : OpcUaPoint) (ns : List OpcUaPoint) (ids : List (Option N)) (r : Result N)
        (done : List DataValue)
        → Aligned ns ids
        → walk fl cl poll_ts
            (done ++ map answer (nodes_to_read (id_of r ∷ ids)))
            (n ∷ ns)
            (id_of r ∷ ids)
            (length done)
          ≡ row_by poll_ts answer n r ∷ map (row_alone poll_ts answer) ns
    unfolding walk
    walk_step n ns ids (err e) done ih =
        ap (λ (rs : List Reading). bad_row n poll_ts (lit "invalid node id") ∷ rs) (ih done)
    walk_step n ns ids (ok id) done ih =
        let rest = map answer (nodes_to_read ids) in
        let used = done ++ (answer id ∷ []) in
        let aligned =
          subst
            (λ (results : List DataValue).
              walk fl cl poll_ts results ns ids (length used) ≡ map (row_alone poll_ts answer) ns)
            (append_assoc done (answer id ∷ []) rest) (ih used) in
        let next =
          subst
            (λ (i : ℕ).
              walk fl cl poll_ts (done ++ (answer id ∷ rest)) ns ids i
              ≡ map (row_alone poll_ts answer) ns)
            (length-snoc done (answer id)) aligned in
        rw (get_elem_past done rest (answer id))
          (ap (λ (rs : List Reading). value_row fl cl n (answer id) poll_ts ∷ rs) next)

    walk-alone : (nodes : List OpcUaPoint) → Aligned nodes (parse_ids fl cl nodes)
    unfolding walk parse_ids
    walk-alone [] done = refl
    walk-alone (n ∷ ns) done =
        walk_step n ns (parse_ids fl cl ns) (cl.parse_node_id n.node_id) done (walk-alone ns)

  module _ {S : Type 0} (poll_ts : ℕ) (load : LoadConfig) (handler : Batch → S → Option Error × S)
      (s : S) where
    -- A poll that delivers these readings in one batch and counts them.
    abbrev pub Delivers :
        List Reading → (ReadResult × Option Error) × (List Sample × (C × S)) → Type 0
    Delivers readings out =
        let called = handler (record { columns = columns; rows = rows_of readings }) s in
        (out.0 ≡ (record empty_result { rows_read = length readings }, called.0))
        × (out.1.1.1 ≡ called.1)

    respond-Delivers :
        (answer : N → DataValue) (nodes : List OpcUaPoint) (q : Result (List DataValue) × C)
        → q.0 ≡ ok (map answer (nodes_to_read (parse_ids fl cl nodes)))
        → Delivers
            (map (row_alone poll_ts answer) nodes)
            (respond fl cl poll_ts nodes load handler q s)
    unfolding respond emit
    respond-Delivers answer nodes (err e, c) h = cc
    respond-Delivers answer nodes (ok results, c) h =
        subst
          (λ (rs : List Reading).
            Delivers rs (respond fl cl poll_ts nodes load handler (ok results, c) s))
          (ap (λ (dvs : List DataValue). walk fl cl poll_ts dvs nodes (parse_ids fl cl nodes) 0)
              (ok_inj h)
            ∙ walk-alone poll_ts answer nodes [])
          (refl, refl)

    request_answers :
        (answer : N → DataValue) (ids : List N) (c : C)
        → ((asked : List N) (k : C) → (cl.read asked k).0 ≡ ok (map answer asked))
        → (request fl cl ids c).0 ≡ ok (map answer ids)
    unfolding request
    request_answers answer [] c answers = refl
    request_answers answer (id ∷ ids) c answers = answers (id ∷ ids) c

    -- If the server answers every node id that it is asked for, in the order asked, then a poll of at
    -- least one node calls the handler once, with the row of each node by itself in the order of the
    -- catalog, counts them all, and returns the handler's error.
    pub read-alone :
        (answer : N → DataValue) (n : OpcUaPoint) (ns : List OpcUaPoint) (c : C)
        → ((asked : List N) (k : C) → (cl.read asked k).0 ≡ ok (map answer asked))
        → Delivers
            (map (row_alone poll_ts answer) (n ∷ ns))
            (read fl cl poll_ts (some (ok (n ∷ ns))) load handler c s)
    unfolding read
    read-alone answer n ns c answers =
        respond-Delivers answer (n ∷ ns) _
          (request_answers answer (nodes_to_read (parse_ids fl cl (n ∷ ns))) c answers)
