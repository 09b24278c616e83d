-- ===== src/ChangeControl.antt =====
-- full_stack_operational_waves_3_to_8_v1.py: a goal becomes a plan of a local model, an accepted plan a proposal
-- of changes to files, and an accepted proposal an implementation that a person applies, accepts or rolls back.
pub mod Schema
pub mod Targets
pub mod Models
pub mod Contexts
pub mod Answers
pub mod Plans
pub mod Proposals
pub mod Implementations
pub mod Reviews
pub mod Governance
pub mod Standing
mod Tests
