-- ===== src/Executor.antt =====
-- exoclaw/executor/protocol.go: what the agent loop asks of the executor's message buffer.
use exoclaw_go.Prelude.{◌≡◌, List, ◌++◌}
use exoclaw_go.Json.{Fields}
pub mod Direct
pub mod Prior
pub mod Isolation
mod Examples

-- AppendMessages, LoadMessages and SetMessages over the executor's state, with the laws that the
-- loop relies on.
pub record MessageBuffer (X : Type 0) : Type 0 where
  pub load_messages : X → List Fields
  pub append_messages : List Fields → X → X
  pub set_messages : List Fields → X → X
  pub load-append :
      (ms : List Fields) (x : X) → load_messages (append_messages ms x) ≡ load_messages x ++ ms
  pub load-set : (ms : List Fields) (x : X) → load_messages (set_messages ms x) ≡ ms
