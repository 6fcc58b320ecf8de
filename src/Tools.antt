-- ===== src/Tools.antt =====
-- exoclaw/agent/tools: the registry of the agent's tools.
pub mod Registry
pub mod Lookup
pub mod Visible
pub mod Dispatch
mod Examples
