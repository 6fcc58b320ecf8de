-- ===== src/Cron.antt =====
-- tools/cron: the scheduler of the cron tool.
pub mod Types
pub mod Schedule
pub mod Wake
pub mod Codec
pub mod Decode
pub mod Recoded
pub mod Service
pub mod Firing
pub mod Jobs
pub mod Update
pub mod Removal
pub mod Sorting
pub mod Storage
pub mod OneShot
mod Examples
