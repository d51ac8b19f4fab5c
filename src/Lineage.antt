-- ===== src/Lineage.antt =====
-- Attempts of a WorkflowRun: internal/workflowrun.
pub mod Approval
pub mod Attempts
pub mod Dependents
pub mod History
mod Tests
