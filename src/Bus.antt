-- ===== src/Bus.antt =====
-- exoclaw/bus: the queues between the channels and the agent.
pub mod Queue
pub mod Order
mod Examples
