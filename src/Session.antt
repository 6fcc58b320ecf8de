-- ===== src/Session.antt =====
-- conversation-file/session/manager.go: the session's history on its way to the model.
pub mod Ids
pub mod Repair
pub mod Project
pub mod Scan
pub mod Mend
pub mod Pairing
pub mod Window
pub mod Users
pub mod Store
pub mod Log
pub mod Reload
pub mod Prepare
pub mod Lossy
pub mod Prepared
mod Filed
mod Examples
