-- ===== src/Ghost.antt =====
-- internal/ghost: the node that executes commands.
pub mod Envelopes
pub mod Server
pub mod Pipeline
pub mod Loop
pub mod Admin
pub mod MirageClient
mod Tests
