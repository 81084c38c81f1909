-- ===== src/Agent.antt =====
-- The agent: src/agent/agent_impl.rs, tool_executor.rs, datamark.rs, and parts of session.rs and
-- llm_client.rs.
pub mod Json
pub mod Datamark
pub mod Executor
pub mod Turn
pub mod Run
pub mod Messages
pub mod Session
pub mod Handle
pub mod Example
mod Tests
