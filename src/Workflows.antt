-- ===== src/Workflows.antt =====
-- backend/src/modules/workflows: the graphs of workflows, their validation, the runner and the service.
pub mod Graph
pub mod Validation
pub mod Search
pub mod Walks
pub mod Total
pub mod Valid
pub mod Run
pub mod Outcome
pub mod Termination
pub mod Service
pub mod Definitions
pub mod History
mod Examples
