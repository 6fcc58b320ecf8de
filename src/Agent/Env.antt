-- ===== src/Agent/Env.antt =====
-- What the agent loop is given: the fields of AgentLoop, and the interfaces behind them (provider,
-- conversation, executor, tools, hooks) as operations on a world `W` that the loop does not read.
use exoclaw_go.Prelude.{ℕ, String, Bool, Option, List}
use exoclaw_go.Prelude.Effects.{Error, Exec}
use exoclaw_go.Json.{Fields}
use exoclaw_go.Providers.{ToolCallRequest, LlmResponse}

-- exoclaw/iterationpolicy/policy.go
pub record IterationPolicy (W : Type 0) : Type 0 where
  pub should_continue : ℕ → List String → Exec W Bool
  pub on_limit_reached : ℕ → List String → Exec W String

-- exoclaw/agent/hooks.go
pub record BeforeToolResult : Type 0 where
  pub params : Option Fields
  pub block : Bool
  pub block_reason : String

pub record BeforeFinishResult : Type 0 where
  pub continue_message : String

pub record HookContext : Type 0 where
  pub event : String
  pub run_context : Option Fields
  pub messages : List Fields
  pub tool_name : String
  pub params : Fields
  pub final_content : String
  pub tools_used : List String

-- How a decider ends: a decision (nil is `none`), an error or a panic.
pub data Decision (A : Type 0) : Type 0 where
  decided : Option A → Decision A
  failed : Error → Decision A
  panicked : Decision A

-- exoclaw/executor/types.go
pub record ToolResult : Type 0 where
  pub content : String
  pub content_file : String

-- exoclaw/agent/tools/protocol.go, without the executor
pub record ToolContext : Type 0 where
  pub session_key : String
  pub channel : String
  pub chat_id : String

-- What a progress callback is told: reasoning text, or the hint for a list of calls.
pub data Progress : Type 0 where
  thought : String → Progress
  hint : List ToolCallRequest → Progress

pub record Env (W : Type 0) : Type 0 where
  pub model : String
  pub max_iterations : ℕ
  pub max_recovery_attempts : ℕ
  pub current_tctx : Option ToolContext
  pub iteration_policy : Option (IterationPolicy W)
  -- Executor.Chat: the tool definitions, the model and the messages.
  pub chat : List Fields → String → List Fields → Exec W LlmResponse
  -- ActiveToolsProvider, and ToolRegistry.GetDefinitions.
  pub active_tools : Option (W → List String)
  pub get_definitions : Option (List String) → W → List Fields
  -- AppendableConversation, through Executor.AppendMessage.
  pub append : Option (String → Fields → Exec W (Unit {0}))
  pub on_context_overflow : Option (List Fields → Exec W (Option (List Fields)))
  -- OverflowRecoverer
  pub recover_from_overflow : Option (String → Exec W (Option (List Fields)))
  pub execute_tool_with_handle : ToolCallRequest → Exec W (Option ToolResult)
  pub execute_tool : ToolCallRequest → Exec W String
  pub on_tool_calls : Option (List ToolCallRequest → Exec W (Unit {0}))
  pub on_pre_tool : Option (String → Fields → String → Exec W String)
  pub on_tool_result : Option (ToolCallRequest → String → Exec W (Unit {0}))
  pub on_before_finish : Option (String → List String → String → Exec W String)
  -- Whether OnMaxIterations is installed; the goroutine that runs it is a field of the state.
  pub has_on_max_iterations : Bool
  -- BeforeToolDecider, BeforeFinishDecider and RunContexter of the Conversation.
  pub before_tool : Option (HookContext → W → Decision BeforeToolResult × W)
  pub before_finish : Option (HookContext → W → Decision BeforeFinishResult × W)
  pub run_context : Option (W → Option Fields)
  -- json.Marshal of a call's arguments, and `%T` of an error with no text.
  pub marshal : Fields → String
  pub type_name : Error → String
