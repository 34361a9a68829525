-- ===== src/Sources.antt =====
-- internal/sources: the sources that read databases and OPC UA servers.
pub mod Connect
pub mod Cursor
pub mod Driver
pub mod Dsn
pub mod Handlers
pub mod OpcUa
pub mod Postgres
pub mod SqlServer
mod Tests
