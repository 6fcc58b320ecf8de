-- ===== src/Agent/State.antt =====
-- The variables of runAgentLoop in exoclaw/agent/loop.go, and the ways in which its steps use the
-- executor's buffer, the conversation and the world.
use exoclaw_go.Prelude.{ℕ, String, Option, none, some, List, if◌then◌else◌, str_eq, when_set}
use exoclaw_go.Prelude.Effects.{Result, ok, Exec, pure}
use exoclaw_go.Json.{Fields}
use exoclaw_go.Executor.{MessageBuffer}
use exoclaw_go.Agent.Env.{Env, ToolContext}

pub record LoopState (W X : Type 0) : Type 0 where
  pub world : W
  pub buffer : X
  pub iteration : ℕ
  pub tools_used : List String
  pub recovery_attempts : ℕ
  -- The context for which the goroutine of OnMaxIterations was started.
  pub notified : Option ToolContext

-- The session key of currentTCtx, if it is set.
abbrev pub session_key_of : Option ToolContext → String
session_key_of none = ""
session_key_of (some tctx) = tctx.session_key

module _ {W X : Type 0} where
  abbrev pub with_world : {A : Type 0} → Result A × W → LoopState W X → Result A × LoopState W X
  with_world (r, w) s = (r, record s { world = w })

  -- A call into the world.
  unfoldable pub lift : {A : Type 0} → Exec W A → Exec (LoopState W X) A
  lift m s = with_world (m s.world) s

module _ {W X : Type 0} (buf : MessageBuffer X) where
  -- Executor.AppendMessages
  unfoldable pub push_messages : List Fields → Exec (LoopState W X) (Unit {0})
  push_messages ms s = (ok tt, record s { buffer = buf.append_messages ms s.buffer })

  -- Executor.SetMessages
  unfoldable pub replace_messages : List Fields → Exec (LoopState W X) (Unit {0})
  replace_messages ms s = (ok tt, record s { buffer = buf.set_messages ms s.buffer })

  -- Executor.LoadMessages
  abbrev pub load : LoopState W X → List Fields
  load s = buf.load_messages s.buffer

module _ {W X : Type 0} (env : Env W) where
  -- `preferAppend` and `flush`: the message goes to the conversation when there is a session and
  -- the conversation is appendable.
  unfoldable pub flush : String → Fields → Exec (LoopState W X) (Unit {0})
  flush session_id msg =
      when_set env.append (pure tt)
        (λ append. if str_eq session_id "" then pure tt else lift (append session_id msg))
