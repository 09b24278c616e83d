-- ===== src/Lib.antt =====
-- PalWakf agentic AI system: the agentic core, external skill admission, learning, governed operations and
-- write authorization of its Python backend. Paths below are relative to
-- backend/src/palwakf_local_agents.
--
-- How the parts work together: a run request is checked against its authorization envelope, its environment
-- and the agent that the role registry projects (agentic_core_v1/contracts.py, registry_projection.py,
-- runtime.py); an accepted run scans the repository within its budget, read-only, and leaves a receipt, or a
-- checkpoint from which it resumes. learning_service.py binds a run to a state package and turns its receipt
-- into a candidate that is reviewed elsewhere; orchestration.py delegates within the same envelope.
-- external_skill_admission.py decides which skills from outside may be loaded. Apart from that,
-- governed_operations keeps a task board for each workspace, with evidence, human reviews and a hash-chained
-- audit log, and governed_capability_foundation/authz.py with legacy_write_authorization.py decides who may
-- write. local_agent_core decides what an agent may prepare in a workspace. In
-- full_stack_operational_waves_3_to_8_v1.py a local model plans and proposes changes of files, which a person
-- accepts, applies, and then accepts or rolls back.
--
-- Files:
--   Prelude and Prelude/: numbers, lists, results, dictionaries and str methods.
--   Agentic/Contracts: contracts.py. Agentic/Projection: build_projection. Agentic/Paths: _is_within.
--   Agentic/Authority: AgenticRuntime.__init__ and _validate. Agentic/Scan: _candidate_paths,
--   _stat_with_retry and the loop of execute, whose state is Progress and whose end is Stop.
--   Agentic/Evidence: receipts and checkpoints; Agentic/Execute: execute.
--   Agentic/Admission: external_skill_admission.py, with scan_skill_bundle in Admission/Bundle.
--   Agentic/Experience: learning.py. Agentic/ExternalContracts: external_contracts.py.
--   Agentic/Learning: learning_service.py. Agentic/Orchestration: orchestration.py.
--   Operations/Schema: the models and the tables; Operations/Audit: _audit and audit_integrity;
--   Operations/Tasks: the reading helpers; Operations/Lifecycle: the operations that write, the calls of
--   router.py, and in Lifecycle/Steps the transactions as a step relation; Operations/History: the
--   operations that only read, and task_integrity.
--   Access: authz.py, validate_identifier of workspace_core/policy.py, legacy_write_authorization.py.
--   LocalAgent: local_agent_core/policy.py and get_agent of registry.py.
--   ChangeControl: full_stack_operational_waves_3_to_8_v1.py. Schema: its JSON files and errors; Targets:
--   _resolve_relative, _blocked_file, _safe_target; Models: _probe_models, _approve_model, _approved_model;
--   Contexts: _create_context; Answers: _extract_json; Plans: _validate_plan, _generate_plan,
--   _review_entity; Proposals: _validate_proposal, _generate_proposal; Implementations:
--   _prepare_implementation, _apply_implementation; Reviews: _review_implementation; Governance: the POST
--   routes as a step relation; Standing: _recompute_project_state, _run_readiness, summary of _cockpit.
--   Tests modules hold the runs at concrete inputs.
--
-- Choices: an error that is raised is a value of Result. Loops are structural recursion, so no fuel is
-- needed; the retries of a stat count down from max_retries. The file system, the clock, the cancellation,
-- fnmatch and the ids and times that the code draws are arguments (World, PathSystem, Draw, Moment). SHA-256,
-- canonical JSON and the search of a regular expression are function arguments. A set is the list of its
-- items. str.lower is followed as far as its results are compared with ASCII texts. In ChangeControl the
-- answer of the local model is an argument of the call that asks it; what the disk refuses to write is an
-- argument (Host), and such a write leaves the file, each time that the path is written; the ids that a call draws are arguments, which a step
-- of Governance takes as unused.
--
-- Not modelled: concurrency between requests; a write that fails of a receipt, of a checkpoint, or of the
-- files of the ExperienceStore; a checkpoint whose counts are negative or no numbers, which execute would
-- convert by int(); the answers of governed_operations that are put together from
-- others (workspace_status, controls, health, summary, task_bundle); of the waves 3 to 8 a write of the
-- JSON state that fails, and one that fails while the except block of _apply_implementation writes the
-- backups back; times other than that of a review, the text of a diff, the status codes and the evidence log; the intersystem
-- pilot, the operational core, the workspace store, the local agents' store and engine, the quality waves,
-- the providers, and the HTTP routes other than the writing calls of governed_operations/router.py and the
-- POST routes of the waves 3 to 8.
pub mod Prelude
pub mod Agentic
pub mod Operations
pub mod Access
pub mod LocalAgent
pub mod ChangeControl
