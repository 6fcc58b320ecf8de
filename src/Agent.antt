-- ===== src/Agent.antt =====
-- exoclaw/agent: the agent loop and its lifecycle seams.
pub mod Think
pub mod Env
pub mod State
pub mod ToolCall
pub mod Pass
pub mod Loop
pub mod Turn
pub mod Message
pub mod Inbound
pub mod Reply
pub mod Context
pub mod Tasks
pub mod Stopping
pub mod Prompt
pub mod World
pub mod Frame
pub mod Bounds
pub mod Transcript
pub mod ToolRound
mod Examples
mod Delivery
