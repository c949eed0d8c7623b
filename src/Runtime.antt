-- ===== src/Runtime.antt =====
-- backend/src/modules/agents/agent-runtime.service.ts and the services that it calls: tools, tasks,
-- quota and usage, memory, audit; and modules/conversations, which calls it.
pub mod State
pub mod Tasks
pub mod Registry
pub mod Executor
pub mod Risk
pub mod Allowed
pub mod Quota
pub mod Memory
pub mod Prompt
pub mod Loop
pub mod Run
pub mod Frame
pub mod Admission
pub mod Cases
pub mod Limits
pub mod Usage
pub mod Recall
pub mod Conversations
pub mod Said
mod Examples
