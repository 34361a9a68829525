-- ===== src/Sources/Connect.antt =====
-- The four sources as the registry builds them (internal/sources/registry.go and `New`, `Open`, `Close` of
-- internal/sources/*/source.go), over the drivers and clients that they connect to.
use data_loader.Prelude.{
  ℕ, ◌*◌, ◌%◌, ◌^◌, String, str_eq, Option, none, some, List, [], ◌∷◌, ◌++◌, if◌then◌else◌, Text,
  lit, atoi, is_positive, str, Error, format, plain, wrap, Result, ok, err,
}
use data_loader.Contracts.{SourceConfig}
use data_loader.SqlIdent.{Unicode}
use data_loader.Pipeline.Ports.{Source}
use data_loader.Modbus
use data_loader.Modbus.Poll
use data_loader.Modbus.{ModbusPoint, Floats}
use data_loader.Sources.Driver.{SourceDb, Conversions}
use data_loader.Sources.Dsn.{Url, param, param_or, is_empty, postgres_dsn, sqlserver_dsn}
use data_loader.Sources.OpcUa
use data_loader.Sources.OpcUa.{OpcUaPoint}
use data_loader.Sources.OpcUa.Options.{ClientOption, build_client_options}
use data_loader.Sources.OpcUa.Cycle
use data_loader.Sources.Postgres
use data_loader.Sources.SqlServer

-- What is outside of the sources, with a state `W`: connections `K` of the drivers and the clients, and
-- the telemetry catalog, none if it is not configured.
pub record Backends (W K N : Type 0) : Type 0 where
  pub unicode : Unicode
  pub conversions : Conversions
  pub floats : Floats
  pub now : W → ℕ
  pub sql_open : String → Url → W → Result K × W
  pub sql_ping : K → W → Option Error × W
  pub sql_close : K → W → W
  pub sql_db : K → SourceDb W
  pub modbus_new : Url → ℕ → W → Result K × W
  pub modbus_open : K → W → Option Error × W
  pub modbus_close : K → W → W
  pub modbus_client : K → Modbus.Client W
  pub modbus_tags : ℕ → W → Option (Result (List ModbusPoint))
  pub opcua_new : Text → List ClientOption → W → Result K × W
  pub opcua_connect : K → W → Option Error × W
  pub opcua_close : K → W → W
  pub opcua_client : K → OpcUa.Client N W
  pub opcua_nodes : ℕ → W → Option (Result (List OpcUaPoint))

-- A source that is open: how to read it and how to close it.
pub record Handle (W S : Type 0) : Type 0 where
  pub source : W → Source S
  pub close : W → W

-- A source as `New` gives it. After an `Open` that fails its client is nil, and `close_failed` is what
-- `Close` does then.
pub record Unopened (W S : Type 0) : Type 0 where
  -- `Open`
  pub connect : W → Result (Handle W S) × W
  pub close_failed : W → W

-- A database that does not answer a ping is closed.
abbrev then_close : {W K : Type 0} → (K → W → W) → K → Option Error × W → Option Error × W
then_close close k (none, w) = (none, w)
then_close close k (some e, w) = (some e, close k w)

abbrev wrapped : {W : Type 0} → String → Option Error × W → Option Error × W
wrapped context (none, w) = (none, w)
wrapped context (some e, w) = (some (wrap context e), w)

abbrev modbus_url : List (Text × Text) → Url
unfolding param
modbus_url params = record {
  scheme = lit "tcp";
  host = param (lit "host") params ++ (b':' ∷ param_or (lit "port") (lit "502") params);
  path = [];
  user = none;
  query = [];
}

abbrev positive_or : ℕ → Option ℕ → ℕ
positive_or default none = default
positive_or default (some n) = if is_positive n then n else default

-- `mb.NewClient` with the configuration of the source; the timeout is in nanoseconds.
unfoldable pub modbus_dial :
    {W K N : Type 0} → Backends W K N → List (Text × Text) → W → Result K × W
unfolding param atoi modbus_url
modbus_dial b params w =
    let timeout_ms = positive_or 2000 (atoi (param (lit "timeout_ms") params)) in
    b.modbus_new (modbus_url params) (timeout_ms * 1000000 % 2 ^ 64) w

module _ {W K N S : Type 0} (b : Backends W K N) where
  -- The result of an `Open` whose last step gives this error or none.
  abbrev pub answer : Handle W S → Option Error × W → Result (Handle W S) × W
  answer h (none, w) = (ok h, w)
  answer h (some e, w) = (err e, w)

  abbrev postgres_handle : K → Handle W S
  postgres_handle k = record {
    source = λ w. Postgres.source b.unicode b.conversions (b.sql_db k) w;
    close = b.sql_close k;
  }

  abbrev sqlserver_handle : K → Handle W S
  sqlserver_handle k = record {
    source = λ w. SqlServer.source b.unicode b.conversions (b.sql_db k) w;
    close = b.sql_close k;
  }

  abbrev pub modbus_source : K → W → Source S
  modbus_source k w = record {
    read = λ cfg handler s.
        let (r, rest) =
          Poll.read b.floats (b.modbus_client k) (b.now w) (b.modbus_tags cfg.load_id w) cfg handler
            w s in
        (r, rest.1.1);
  }

  abbrev pub opcua_source : K → W → Source S
  opcua_source k w = record {
    read = λ cfg handler s.
        let (r, rest) =
          Cycle.read b.floats (b.opcua_client k) (b.now w) (b.opcua_nodes cfg.load_id w) cfg handler
            w s in
        (r, rest.1.1);
  }

  abbrev modbus_handle : K → Handle W S
  modbus_handle k = record { source = modbus_source k; close = b.modbus_close k }

  abbrev opcua_handle : K → Handle W S
  opcua_handle k = record { source = opcua_source k; close = b.opcua_close k }

  -- `Open` of the Postgres source, which closes a database that it cannot ping.
  unfoldable pub open_postgres : List (Text × Text) → W → Result (Handle W S) × W
  unfolding postgres_dsn
  open_postgres params w = elim (postgres_dsn params) [
    | err e ↦ (err e, w)
    | ok url ↦
        let (r, w₁) = b.sql_open "pgx" url w in
        elim r [
          | err e ↦ (err (wrap "open postgres source" e), w₁)
          | ok k ↦
              answer (postgres_handle k)
                (then_close b.sql_close k (wrapped "ping postgres source" (b.sql_ping k w₁)))
        ]
  ]

  -- `Open` of the SQL Server source, which does not.
  unfoldable pub open_sqlserver : List (Text × Text) → W → Result (Handle W S) × W
  unfolding sqlserver_dsn
  open_sqlserver params w = elim (sqlserver_dsn params) [
    | err e ↦ (err e, w)
    | ok url ↦
        let (r, w₁) = b.sql_open "sqlserver" url w in
        elim r [
          | err e ↦ (err (wrap "open sqlserver source" e), w₁)
          | ok k ↦ answer (sqlserver_handle k) (wrapped "ping sqlserver source" (b.sql_ping k w₁))
        ]
  ]

  -- `Open` of the Modbus source.
  unfoldable pub open_modbus : List (Text × Text) → W → Result (Handle W S) × W
  unfolding param modbus_dial
  open_modbus params w =
      if is_empty (param (lit "host") params)
      then (err (plain "modbus source requires 'host' param"), w)
      else (let (r, w₁) = modbus_dial b params w in
          elim r [
            | err e ↦ (err (wrap "build modbus client" e), w₁)
            | ok k ↦ answer (modbus_handle k) (wrapped "open modbus client" (b.modbus_open k w₁))
          ])

  -- `Open` of the OPC UA source.
  unfoldable pub open_opcua : List (Text × Text) → W → Result (Handle W S) × W
  unfolding param build_client_options
  open_opcua params w =
      if is_empty (param (lit "endpoint") params)
      then (err (plain "opcua source requires 'endpoint' param, e.g. opc.tcp://host:4840"), w)
      else elim (build_client_options params) [
        | err e ↦ (err (wrap "build opcua options" e), w)
        | ok options ↦
            let (r, w₁) = b.opcua_new (param (lit "endpoint") params) options w in
            elim r [
              | err e ↦ (err (wrap "new opcua client" e), w₁)
              | ok k ↦ answer (opcua_handle k) (wrapped "connect opcua" (b.opcua_connect k w₁))
            ]
      ]

  abbrev pub unopened : (W → Result (Handle W S) × W) → Unopened W S
  unopened connect = record { connect = connect; close_failed = λ w. w }

  -- `Build`, of the kinds that the packages register.
  unfoldable pub build : SourceConfig → Result (Unopened W S)
  unfolding open_postgres open_sqlserver open_modbus open_opcua
  build cfg =
      if str_eq cfg.source_type "postgres"
      then ok (unopened (open_postgres cfg.params))
      else if str_eq cfg.source_type "sqlserver"
      then ok (unopened (open_sqlserver cfg.params))
      else if str_eq cfg.source_type "modbus"
      then ok (unopened (open_modbus cfg.params))
      else if str_eq cfg.source_type "opcua"
      then ok (unopened (open_opcua cfg.params))
      else err (format "no source registered for kind %q" (str cfg.source_type ∷ []))
