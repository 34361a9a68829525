-- ===== src/Lib.antt =====
-- data-loader: scheduled loads from databases and field devices into SQL Server.
--
-- The scheduler (internal/scheduler) keeps one cron entry for each enabled load of the metadata and
-- triggers the pipeline runner (internal/pipeline/runner.go), one run of a load at a time. A run takes
-- a source from the pool (internal/pipeline/pool.go), reads the stored watermark, lets the source
-- deliver batches to a handler that writes them to the sink (internal/sink), stores the new watermark
-- and reports to the run history, the registry of run states (internal/runstate) and the metrics. A
-- load in replace mode goes through a session (internal/pipeline/replace.go) that writes to a staging
-- table and swaps it in, if the sink is an atomic replacer. Every identifier in SQL text passes
-- internal/sqlident.
--
--   Prelude     tests, lists, maps with integer keys (Dict), errors and results, texts
--   Contracts   pkg/contracts: the data that sources, sinks and the pipeline exchange
--   Logging     internal/logging/dbhandler.go: the entries that records become; Buffer: the state that the
--               clones of a handler share, with the steps of callers and worker
--   Metadata    internal/metadata/models.go: Source, Load, Watermark, LoadRun; Repository:
--               internal/metadata/repository.go, which fills the interface RunStore of Ports;
--               Telemetry: internal/metadata/telemetry.go
--   Metrics     internal/metrics/metrics.go: the samples that the Observe functions report
--   Config      internal/config/config.go: ResolveParams, and in Environment FromEnv
--   RunState    internal/runstate/registry.go: Register, MarkRunning, MarkFinished, Snapshot; History
--               follows the entry of a load, Snapshot is about the sorted copy
--   SqlIdent    internal/sqlident/ident.go: Validate and the quoting functions; Lexer reads delimited
--               identifiers the way the servers do, Qualified reads two-part names, Accepted is about
--               names that pass Validate
--   Pipeline    Ports: the interfaces behind the runner and their documented laws; Replace:
--               internal/pipeline/replace.go; Runner: Execute of internal/pipeline/runner.go as one
--               function for each of its stages; Pool: internal/pipeline/pool.go; Ephemeral and
--               Fingerprint: internal/pipeline/session.go
--   Sink        internal/sink/mssql.go with the statements as texts; Sink.Replace:
--               internal/sink/replace.go, which fills the interface AtomicReplacer of Ports, with the
--               documented laws of the database in Statements
--   Scheduler   internal/scheduler/scheduler.go: Load, Reload and trigger; Overlap takes the sections
--               under the mutex as steps, in any interleaving; Reload and Jobs are about the loads
--               and the jobs that a reload leaves
--   Modbus      internal/sources/modbus/source.go: decoding, and in Poll one polling cycle
--   Seed        internal/seed: the rows of a seed file, and in Apply the changes of one application
--   Sources     internal/sources/postgres and internal/sources/sqlserver over a common Driver, with
--               the loop over rows in Cursor and the URLs in Dsn; OpcUa: internal/sources/opcua;
--               Connect: Open and Close of the four sources, and internal/sources/registry.go;
--               Handlers: what the sources of databases promise their readers
--   Housekeeping  pruneInBatches of internal/metadata/repository.go, the loop of both retention steps
--
-- A function that changes an object takes its state and returns the new one; a Go error is a value
-- of Error, and a function that returns one gives Option Error or Result. What the program calls
-- but does not contain is a parameter with the laws that the code relies on: the metadata store,
-- the database behind the sink and the metadata, the drivers of the sources, the cron library, the
-- Modbus and OPC UA clients, float64 arithmetic and conversions, the Unicode tables, the clock,
-- JSON. The loop of pruneInBatches runs on fuel, and one more than the number of old rows is
-- enough, since a delete that is not the last one removes a row; every other loop of the modelled
-- code runs over a list and is structural recursion. A lock that is held for the length of a lease
-- is a flag in the pool's entry, and an operation that would wait for it has no result.
--
-- Not modelled: log lines, contexts and cancellation (so also the scheduler's Stop), the
-- fingerprint and the list of loads of the metadata repository, the rest of housekeeping, the
-- reload coordinator, migrations, the HTTP server and the entry points. A send of the log handler
-- on its closed channel panics, and the model goes on without that caller. Go visits a map in any
-- order; Reload is modelled for the order in which entries were added. Numbers that Go keeps in 64
-- bits (ids, row counts, times) are natural numbers without a bound, but for the counter of dropped
-- entries and what is parsed from a text; integers that may be negative are their bits.
pub mod Prelude
pub mod RunState
pub mod SqlIdent
pub mod Contracts
pub mod Logging
pub mod Metadata
pub mod Metrics
pub mod Config
pub mod Pipeline
pub mod Sink
pub mod Scheduler
pub mod Modbus
pub mod Housekeeping
pub mod Seed
pub mod Sources
