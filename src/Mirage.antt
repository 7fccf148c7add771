-- ===== src/Mirage.antt =====
-- internal/mirage: the orchestrator of intents and the server that owns it.
pub mod Issue
pub mod Orchestrator
pub mod Server
pub mod GhostClient
pub mod Handshake
pub mod Conn
pub mod Services
mod Tests
