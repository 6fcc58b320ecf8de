-- ===== src/Workspace.antt =====
-- tools/workspace: the tools of an agent for its workspace.
pub mod Segments
pub mod Paths
pub mod Sandbox
pub mod Files
pub mod Edited
mod Examples
