-- ===== src/Pipeline.antt =====
-- internal/pipeline: the runner of a load, the replace session, and the source sessions.
pub mod Ports
pub mod Replace
pub mod Runner
pub mod Pool
pub mod Ephemeral
pub mod Fingerprint
mod Tests
