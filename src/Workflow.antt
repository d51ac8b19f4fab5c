-- ===== src/Workflow.antt =====
-- The workflow files: internal/workflow.
pub mod Definition
pub mod Graph
pub mod Value
pub mod Matrix
pub mod Glob
pub mod Matcher
pub mod Event
pub mod Inputs
pub mod Cron
pub mod Trigger
mod Tests
