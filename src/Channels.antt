-- ===== src/Channels.antt =====
-- exoclaw/channels: the manager that routes outbound messages to channels.
pub mod Manager
pub mod Delivery
mod Examples
