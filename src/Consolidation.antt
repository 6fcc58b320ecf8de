-- ===== src/Consolidation.antt =====
-- conversation-file/summarizing_policy.go: the summary that stands for the older part of a session.
pub mod Policy
pub mod Boundary
pub mod Progress
mod Examples
