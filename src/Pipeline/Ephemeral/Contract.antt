-- ===== src/Pipeline/Ephemeral/Contract.antt =====
-- What the runner asks of its sessions holds of ephemeral sessions over the sources of the repository.
use data_loader.Prelude.{
  ℕ, suc, ◌≡◌, refl, sym, ap, ◌∙◌, subst, either, Option, none, some, inl, inr, ◌⊎◌, List, [], ◌∷◌,
  lit, wrap, Error, Result, ok, err, ok_inj, str_eq, Text,
}
use data_loader.Prelude.Dict
use data_loader.Contracts.{Batch, LoadConfig, ReadResult, SourceConfig}
use data_loader.Pipeline.Ports.{Source, SourceLaws}
use data_loader.Pipeline.Runner.Atomic.{SourcesKeepContract}
use data_loader.Pipeline.Ephemeral.{EphemeralState, obtain, ephemeral}
use data_loader.Sources.Dsn.{postgres_dsn, sqlserver_dsn, is_empty, param}
use data_loader.Sources.Handlers.{postgres-SourceLaws, sqlserver-SourceLaws}
use data_loader.Sources.Connect.{
  Backends, Handle, Unopened, answer, unopened, modbus_source, opcua_source, open_postgres,
  open_sqlserver, modbus_dial, open_modbus, open_opcua, build,
}
use data_loader.Sources.OpcUa.Options.{build_client_options}
use data_loader.Sources.OpcUa.Cycle
use data_loader.Sources.OpcUa.Cycle.Rows.{read-AreRowsOf}
use data_loader.Sources.OpcUa
use data_loader.Sources.OpcUa.{OpcUaPoint}
use data_loader.Modbus.{ModbusPoint}
use data_loader.Modbus.Poll

-- A read that calls the handler once, or not at all and then leaves its state alone.
abbrev CallsOnce : {S : Type 0} → Source S → Type 0
CallsOnce {S} src =
    (cfg : LoadConfig) (handler : Batch → S → Option Error × S) (s : S)
    → ((b : Batch) × ((src.read cfg handler s).0.1 ≡ (handler b s).0)
        × ((src.read cfg handler s).1 ≡ (handler b s).1))
      ⊎ ((src.read cfg handler s).1 ≡ s)

once-SourceLaws : {S : Type 0} (src : Source S) → CallsOnce src → SourceLaws src
once-SourceLaws src once = record {
  through_handler = λ P cfg handler s keeps p. elim (once cfg handler s) [
    | inl (b, error, state) ↦ subst P (sym state) (keeps b s p)
    | inr same ↦ subst P (sym same) p
  ];
  aborts_on_error = λ P cfg handler s keeps p fine. elim (once cfg handler s) [
    | inl (b, error, state) ↦ subst P (sym state) (keeps b s p (sym error ∙ fine))
    | inr same ↦ subst P (sym same) p
  ];
}

module _ {W K N S : Type 0} (b : Backends W K N) (cfg : LoadConfig)
    (handler : Batch → S → Option Error × S) (s : S) where
  abbrev Once : (ReadResult × Option Error) × S → Type 0
  Once out =
      ((sent : Batch) × (out.0.1 ≡ (handler sent s).0) × (out.1 ≡ (handler sent s).1)) ⊎ (out.1 ≡ s)

  opcua-Once :
      (k : K) (w : W) (catalog : Option (Result (List OpcUaPoint)))
      → Once (
          let (r, rest) =
            Cycle.read b.floats (b.opcua_client k) (b.now w) catalog cfg handler w s in
          (r, rest.1.1))
  unfolding Cycle.read
  opcua-Once k w none = inr refl
  opcua-Once k w (some (err e)) = inr refl
  opcua-Once k w (some (ok [])) = inr refl
  opcua-Once k w (some (ok (n ∷ ns))) =
      let (rows, named, (result, state)) =
        read-AreRowsOf b.floats (b.opcua_client k) (b.now w) cfg handler s n ns w in
      inl (
        record { columns = OpcUa.columns; rows = Cycle.rows_of rows },
        ap (λ (r : ReadResult × Option Error). r.1) result,
        state,
      )

  modbus-Once :
      (k : K) (w : W) (catalog : Option (Result (List ModbusPoint)))
      → Once (
          let (r, rest) =
            Poll.read b.floats (b.modbus_client k) (b.now w) catalog cfg handler w s in
          (r, rest.1.1))
  unfolding Poll.read
  modbus-Once k w none = inr refl
  modbus-Once k w (some (err e)) = inr refl
  modbus-Once k w (some (ok [])) = inr refl
  modbus-Once k w (some (ok (t ∷ ts))) = inl (_, refl, refl)

module _ {W K N S : Type 0} (b : Backends W K N) where
  -- A handle whose source keeps the contract, whatever the state outside.
  abbrev IsSound : Handle W S → Type 1
  IsSound h = (w : W) → SourceLaws (h.source w)

  abbrev Opens : Result (Handle W S) × W → Type 1
  Opens o = (h : Handle W S) → o.0 ≡ ok h → IsSound h

  answer-Opens : (h : Handle W S) (o : Option Error × W) → IsSound h → Opens (answer b h o)
  answer-Opens h (none, w) sound g e = subst IsSound (ok_inj e) sound
  answer-Opens h (some x, w) sound g e = cc

  step-Opens :
      {A : Type 0} (r : Result A) (f : Error → Error) (w : W) (next : A → Result (Handle W S) × W)
      → ((a : A) → Opens (next a))
      → Opens (elim r [ err e ↦ (err (f e), w) | ok a ↦ next a ])
  step-Opens (ok a) f w next h g e = h a g e
  step-Opens (err x) f w next h g e = cc

  open_postgres-Opens : (params : List (Text × Text)) (w : W) → Opens (open_postgres b params w)
  unfolding open_postgres
  open_postgres-Opens params w =
      step-Opens (postgres_dsn params) (λ e. e) w _
        (λ url.
          step-Opens (b.sql_open "pgx" url w).0 (wrap "open postgres source")
            (b.sql_open "pgx" url w).1 _
            (λ k.
              answer-Opens _ _ (λ w'. postgres-SourceLaws b.unicode b.conversions (b.sql_db k) w')))

  open_sqlserver-Opens : (params : List (Text × Text)) (w : W) → Opens (open_sqlserver b params w)
  unfolding open_sqlserver
  open_sqlserver-Opens params w =
      step-Opens (sqlserver_dsn params) (λ e. e) w _
        (λ url.
          step-Opens (b.sql_open "sqlserver" url w).0 (wrap "open sqlserver source")
            (b.sql_open "sqlserver" url w).1 _
            (λ k.
              answer-Opens _ _
                (λ w'. sqlserver-SourceLaws b.unicode b.conversions (b.sql_db k) w')))

  modbus-SourceLaws : (k : K) (w : W) → SourceLaws {S = S} (modbus_source b k w)
  modbus-SourceLaws k w =
      once-SourceLaws (modbus_source b k w)
        (λ cfg handler s. modbus-Once b cfg handler s k w (b.modbus_tags cfg.load_id w))

  opcua-SourceLaws : (k : K) (w : W) → SourceLaws {S = S} (opcua_source b k w)
  opcua-SourceLaws k w =
      once-SourceLaws (opcua_source b k w)
        (λ cfg handler s. opcua-Once b cfg handler s k w (b.opcua_nodes cfg.load_id w))

  open_modbus-Opens : (params : List (Text × Text)) (w : W) → Opens (open_modbus b params w)
  unfolding open_modbus
  open_modbus-Opens params w =
      either Opens (is_empty (param (lit "host") params)) _ _ (λ g e. cc)
        (step-Opens (modbus_dial b params w).0 (wrap "build modbus client")
          (modbus_dial b params w).1 _ (λ k. answer-Opens _ _ (modbus-SourceLaws k)))

  open_opcua-Opens : (params : List (Text × Text)) (w : W) → Opens (open_opcua b params w)
  unfolding open_opcua
  open_opcua-Opens params w =
      either Opens (is_empty (param (lit "endpoint") params)) _ _ (λ g e. cc)
        (step-Opens (build_client_options params) (wrap "build opcua options") w _ (λ options.
          step-Opens (b.opcua_new (param (lit "endpoint") params) options w).0
            (wrap "new opcua client") (b.opcua_new (param (lit "endpoint") params) options w).1 _
            (λ k. answer-Opens _ _ (opcua-SourceLaws k))))

  abbrev Builds : Result (Unopened W S) → Type 1
  Builds r = (u : Unopened W S) → r ≡ ok u → (w : W) → Opens (u.connect w)

  built :
      (connect : W → Result (Handle W S) × W)
      → ((w : W) → Opens (connect w))
      → Builds (ok (unopened b connect))
  built connect h u e w = subst (λ (v : Unopened W S). Opens (v.connect w)) (ok_inj e) (h w)

  build-Builds : (cfg : SourceConfig) → Builds (build b cfg)
  unfolding build
  build-Builds cfg =
      either Builds (str_eq cfg.source_type "postgres") _ _
        (built _ (open_postgres-Opens cfg.params))
        (either Builds (str_eq cfg.source_type "sqlserver") _ _
          (built _ (open_sqlserver-Opens cfg.params))
          (either Builds (str_eq cfg.source_type "modbus") _ _
            (built _ (open_modbus-Opens cfg.params))
            (either Builds (str_eq cfg.source_type "opcua") _ _
              (built _ (open_opcua-Opens cfg.params)) (λ u e w. cc))))

  handed_out :
      (o : Result (Handle W S) × W) (close : W → W) (st : EphemeralState W S) (lease : ℕ)
      (src : Source S)
      → Opens o
      → (elim o.0 as (λ r. Result (ℕ × Source S) × EphemeralState W S) [
        | err e ↦ (err e, record st { outside = close o.1 })
        | ok h ↦ (
          ok (st.next, h.source o.1),
          record {
            releases = Dict.insert st.next h st.releases;
            next = suc st.next;
            outside = o.1;
          },
        )
      ]).0
        ≡ ok (lease, src)
      → SourceLaws src
  handed_out (err x, w) close st lease src sound e = cc
  handed_out (ok h, w) close st lease src sound e =
      subst SourceLaws (ap (λ (p : ℕ × Source S). p.1) (ok_inj e)) (sound h refl w)

  obtained :
      (r : Result (Unopened W S)) (cfg : SourceConfig) (st : EphemeralState W S) (lease : ℕ)
      (src : Source S)
      → Builds r
      → (obtain (λ c. r) cfg st).0 ≡ ok (lease, src)
      → SourceLaws src
  unfolding obtain
  obtained (err x) cfg st lease src sound e = cc
  obtained (ok u) cfg st lease src sound e =
      handed_out (u.connect st.outside) u.close_failed st lease src (sound u refl st.outside) e

  -- Every source that an ephemeral session over the registry of the four kinds hands out, whatever its
  -- driver answers, keeps the contract of `Read` that the runner relies on.
  pub ephemeral-SourcesKeepContract : SourcesKeepContract {S = S} (ephemeral (build b))
  unfolding obtain
  ephemeral-SourcesKeepContract cfg st lease src e =
      obtained (build b cfg) cfg st lease src (build-Builds cfg) e
