-- ===== src/Agentic.antt =====
-- The agentic core (backend/src/palwakf_local_agents/agentic_core_v1): its contracts, the agents that
-- it projects from the role registry, and the bounded read-only run.
pub mod Contracts
pub mod Projection
pub mod Paths
pub mod Authority
pub mod Scan
pub mod Evidence
pub mod Execute
pub mod Admission
pub mod Experience
pub mod ExternalContracts
pub mod Learning
pub mod Orchestration
pub mod Tests
