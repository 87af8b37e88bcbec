-- ===== src/Workflow.antt =====
-- saas/workflows/sim_workflow.py: the life of one simulation, from seed to report hand-over.
pub mod Temporal
pub mod Run
pub mod Trace
pub mod Rules
pub mod Phases
pub mod Outcome
mod Tests
