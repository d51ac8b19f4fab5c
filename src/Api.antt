-- ===== src/Api.antt =====
-- The custom resources of api/v1alpha1: WorkflowRun, WorkflowJob and the Kubernetes metadata that
-- both carry. A pointer is an `Option`, a map an association list, and an instant a number.
-- Integers are natural numbers, as the schemas ask of each field.
mod Meta
mod Source
mod Run
mod Job
pub use Meta.*
pub use Source.*
pub use Run.*
pub use Job.*
pub mod Sample
