-- ===== src/Seed/Apply/Reconcile/Counts.antt =====
-- What the steps of an application of a seed file add to the count of Modbus tags in its report.
use data_loader.Prelude.{
  ℕ, suc, ◌+◌, ◌≡◌, refl, sym, ap, ◌∙◌, String, maybe, maybe_by, result_by, Option, none, List, [],
  ◌∷◌, length, Error, Result, ok, ok_inj, arith,
}
use data_loader.Metadata.{Source}
use data_loader.Metadata.Telemetry.{ModbusTag}
use data_loader.Seed.{SourceSpec, LoadSpec, ModbusTagSpec, OpcUaNodeSpec, SeedFile, modbus_rows}
use data_loader.Seed.Rows.{AreSeeded, modbus_rows-AreSeeded}
use data_loader.Seed.Apply.{
  Report, empty_report, SeedDb, Action, created, updated, record_source, record_load, upsert_source,
  upsert_load, put_rows, replace_modbus_tags, replace_opcua_nodes,
}
use data_loader.Seed.Apply.Reconcile.{
  tags_of, nodes_of, apply_sources, source_of, apply_tags, apply_nodes, apply_load, apply_loads,
  apply_in,
}

length-AreSeeded :
    (load_id : ℕ) (ts : List ModbusTagSpec) (rows : List ModbusTag)
    → AreSeeded load_id ts rows
    → length rows ≡ length ts
length-AreSeeded load_id [] [] h = refl
length-AreSeeded load_id [] (r ∷ rows) h = elim h [ ]
length-AreSeeded load_id (t ∷ ts) [] h = elim h [ ]
length-AreSeeded load_id (t ∷ ts) (r ∷ rows) h = ap suc (length-AreSeeded load_id ts rows h.1)

-- A number of rows that is returned on success.
abbrev Returns : {D : Type 0} → ℕ → Result ℕ × D → Type 0
Returns k o = (n : ℕ) → o.0 ≡ ok n → n ≡ k

-- What a step adds to the tags of a report, if it succeeds.
abbrev pub Adds : {D : Type 0} → ℕ → Report → (Report × Option Error) × D → Type 0
Adds k rep o = o.0.1 ≡ none → o.0.0.modbus_tags ≡ rep.modbus_tags + k

-- The tags of the loads of a list, load by load.
unfoldable pub total : List ModbusTagSpec → List LoadSpec → ℕ
unfolding tags_of
total tags [] = 0
total tags (l ∷ ls) = length (tags_of l.name tags) + total tags ls

module _ {D : Type 0} (db : SeedDb D) where
  put_rows-Returns :
      {A : Type 0} (create : List A → D → Option Error × D) (rows : List A) (d : D)
      → Returns (length rows) (put_rows db create rows d)
  put_rows-Returns create [] d = λ n e. sym (ok_inj e)
  put_rows-Returns create (x ∷ xs) d =
      maybe (Returns (length (x ∷ xs))) (create (x ∷ xs) d).0 _ _ (λ n e. sym (ok_inj e))
        (λ x n e. cc)

  replace_modbus_tags-Returns :
      (load_id : ℕ) (specs : List ModbusTagSpec) (d : D)
      → Returns (length specs) (replace_modbus_tags db load_id specs d)
  unfolding replace_modbus_tags
  replace_modbus_tags-Returns load_id specs d =
      maybe (Returns (length specs)) (db.delete_modbus_tags load_id d).0 _ _
        (result_by (Returns (length specs)) (modbus_rows load_id specs) _ _ (λ x n e. cc)
          (λ rows made n e.
            put_rows-Returns db.create_modbus_tags rows _ n e
            ∙ length-AreSeeded load_id specs rows (modbus_rows-AreSeeded load_id specs rows made)))
        (λ x n e. cc)

  apply_tags-Adds :
      (spec : LoadSpec) (load_id : ℕ) (ts : List ModbusTagSpec) (rep : Report) (d : D)
      → Adds (length ts) rep (apply_tags db spec load_id ts rep d)
  unfolding apply_tags
  apply_tags-Adds spec load_id [] rep d = λ e. omega arith
  apply_tags-Adds spec load_id (t ∷ ts) rep d =
      result_by (Adds (length (t ∷ ts)) rep) (replace_modbus_tags db load_id (t ∷ ts) d).0 _ _
        (λ x e. cc)
        (λ n h e.
          ap (λ (k : ℕ). rep.modbus_tags + k) (replace_modbus_tags-Returns load_id (t ∷ ts) d n h))

  apply_nodes-Adds :
      (spec : LoadSpec) (load_id : ℕ) (ns : List OpcUaNodeSpec) (rep : Report) (d : D)
      → Adds 0 rep (apply_nodes db spec load_id ns rep d)
  unfolding apply_nodes
  apply_nodes-Adds spec load_id [] rep d = λ e. omega arith
  apply_nodes-Adds spec load_id (n ∷ ns) rep d =
      result_by (Adds 0 rep) (replace_opcua_nodes db load_id (n ∷ ns) d).0 _ _ (λ x e. cc)
        (λ k h e. omega arith)

  record_load-tags :
      (action : Action) (name : String) (rep : Report)
      → (record_load action name rep).modbus_tags ≡ rep.modbus_tags
  record_load-tags created name rep = refl
  record_load-tags updated name rep = refl

  record_source-tags :
      (action : Action) (name : String) (rep : Report)
      → (record_source action name rep).modbus_tags ≡ rep.modbus_tags
  record_source-tags created name rep = refl
  record_source-tags updated name rep = refl

  apply_load-Adds :
      (f : SeedFile) (by_name : List (String × Source)) (spec : LoadSpec) (rep : Report) (d : D)
      → Adds (length (tags_of spec.name f.modbus_tags)) rep (apply_load db f by_name spec rep d)
  unfolding apply_load
  apply_load-Adds f by_name spec rep d =
      let k = length (tags_of spec.name f.modbus_tags) in
      result_by (Adds k rep) (source_of db spec by_name d).0 _ _ (λ x e. cc)
        (λ s hs.
          result_by (Adds k rep) (upsert_load db spec s.id (source_of db spec by_name d).1).0 _ _
            (λ x e. cc)
            (λ la hl.
              let (l, action) = la in
              let d₂ = (upsert_load db spec s.id (source_of db spec by_name d).1).1 in
              let rep₀ = record_load action spec.name rep in
              let tags = apply_tags db spec l.id (tags_of spec.name f.modbus_tags) rep₀ d₂ in
              let added = apply_tags-Adds spec l.id (tags_of spec.name f.modbus_tags) rep₀ d₂ in
              maybe_by (Adds k rep) tags.0.1 _ _
                (λ fine e.
                  let nodes =
                    apply_nodes-Adds spec l.id (nodes_of spec.name f.opcua_nodes) tags.0.0 tags.1
                      e in
                  omega (arith, nodes, added fine, record_load-tags action spec.name rep))
                (λ x bad e. cc)))

  apply_loads-Adds :
      (f : SeedFile) (by_name : List (String × Source)) (specs : List LoadSpec) (rep : Report)
      (d : D)
      → Adds (total f.modbus_tags specs) rep (apply_loads db f by_name specs rep d)
  unfolding apply_loads total
  apply_loads-Adds f by_name [] rep d = λ e. omega arith
  apply_loads-Adds f by_name (spec ∷ specs) rep d =
      let first = apply_load db f by_name spec rep d in
      maybe_by (Adds (total f.modbus_tags (spec ∷ specs)) rep) first.0.1 _ _
        (λ fine e. omega (
          arith,
          apply_loads-Adds f by_name specs first.0.0 first.1 e,
          apply_load-Adds f by_name spec rep d fine,
        ))
        (λ x bad e. cc)

  -- What the loop over the sources leaves of the count.
  abbrev Leaves : Report → ((Report × Option Error) × List (String × Source)) × D → Type 0
  Leaves rep o = o.0.0.0.modbus_tags ≡ rep.modbus_tags

  apply_sources-Leaves :
      (specs : List SourceSpec) (by_name : List (String × Source)) (rep : Report) (d : D)
      → Leaves rep (apply_sources db specs by_name rep d)
  unfolding apply_sources
  apply_sources-Leaves [] by_name rep d = refl
  apply_sources-Leaves (spec ∷ specs) by_name rep d =
      result_by (Leaves rep) (upsert_source db spec d).0 _ _ (λ x. refl)
        (λ sa h.
          let (s, action) = sa in
          apply_sources-Leaves specs ((spec.name, s) ∷ by_name) (record_source action spec.name rep)
            (upsert_source db spec d).1
          ∙ record_source-tags action spec.name rep)

  pub apply_in-Adds :
      (f : SeedFile) (d : D) → Adds (total f.modbus_tags f.loads) empty_report (apply_in db f d)
  unfolding apply_in
  apply_in-Adds f d =
      let sources = apply_sources db f.sources [] empty_report d in
      maybe_by (Adds (total f.modbus_tags f.loads) empty_report) sources.0.0.1 _ _
        (λ fine e. omega (
          arith,
          apply_loads-Adds f sources.0.1 f.loads sources.0.0.0 sources.1 e,
          apply_sources-Leaves f.sources [] empty_report d,
        ))
        (λ x bad e. cc)
