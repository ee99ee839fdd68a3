-- ===== src/Agent.antt =====
-- src/agent and src/api/v1/agent: the assistant that drives the API on a user's behalf. The
-- harness that runs it is not part of the program: what it does with a transcript is given as a
-- tree of tool calls (Agent/Run).
pub mod Llm
pub mod Cache
pub mod Setup
pub mod Conversations
pub mod Tools
pub mod Run
pub mod Tracing
pub mod Chat
