-- ===== src/Operations.antt =====
-- The governed operations of a workspace (backend/src/palwakf_local_agents/governed_operations): a task
-- board with evidence, human reviews and a hash-chained audit log, in one SQLite file per workspace.
pub mod Schema
pub mod Audit
pub mod Tasks
pub mod Lifecycle
pub mod History
mod Encoding
mod Tests
