-- ===== src/Runner.antt =====
-- What the runner reads from the files of a step: internal/runner.
pub mod Lines
pub mod KeyValues
pub mod Escapes
