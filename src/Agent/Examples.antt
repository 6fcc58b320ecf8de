-- ===== src/Agent/Examples.antt =====
-- Small runs of the agent loop, and its theorems at concrete environments.
use exoclaw_go.Prelude.{ℕ, suc, ◌≡◌, refl, inl, false, String, none, some, List, [], ◌∷◌, arith}
use exoclaw_go.Prelude.Effects.{failure, ok, err, Exec}
use exoclaw_go.Json.{Fields, end, field, str}
use exoclaw_go.Providers.{ToolCallRequest, LlmResponse}
use exoclaw_go.Executor.Direct.{DirectExecutor, new_direct_executor, background, load_messages_ctx}
use exoclaw_go.Executor.Isolation.{direct_buffer}
use exoclaw_go.Agent.Env.{Env}
use exoclaw_go.Agent.State.{LoopState}
use exoclaw_go.Agent.ToolCall.{run_tool_calls}
use exoclaw_go.Agent.Pass.{tool_round}
use exoclaw_go.Json.Equal.{same_fields}
use exoclaw_go.Agent.Turn.{TurnEnv, begin_turn}
use exoclaw_go.Agent.Prompt.{begin_turn-loads}
use exoclaw_go.Agent.Loop.{run_agent_loop}
use exoclaw_go.Agent.Bounds.{Ends, run_agent_loop-Ends}
use exoclaw_go.Agent.Transcript.{Answered, run_tool_calls-Answered}
use exoclaw_go.Agent.ToolRound.{
  AllAnswered, RoundAnswered, run_tool_calls-Silent, tool_round-RoundAnswered,
}

abbrev call : ToolCallRequest
call = record { id = "c1"; name = "read"; arguments = end }

abbrev broken : ToolCallRequest
broken = record { id = "c2"; name = "fail"; arguments = end }

abbrev asks : LlmResponse
asks = record {
  content = some "let me look";
  tool_calls = call ∷ broken ∷ [];
  finish_reason = "tool_calls";
  reasoning_content = none;
  thinking_blocks = [];
}

-- A model that asks for tools at every turn, over a tool that always fails. The world counts the
-- model calls.
abbrev chat : List Fields → String → List Fields → Exec ℕ LlmResponse
chat tools model messages n = (ok asks, suc n)

abbrev pub env : Env ℕ
env = record {
  model = "m";
  max_iterations = 2;
  max_recovery_attempts = 3;
  current_tctx = none;
  iteration_policy = none;
  chat = chat;
  active_tools = none;
  get_definitions = λ include n. [];
  append = none;
  on_context_overflow = none;
  recover_from_overflow = none;
  execute_tool_with_handle = λ c n. (err (failure "no handle"), n);
  execute_tool = λ c n. (err (failure "boom"), n);
  on_tool_calls = none;
  on_pre_tool = none;
  on_tool_result = none;
  on_before_finish = none;
  has_on_max_iterations = false;
  before_tool = none;
  before_finish = none;
  run_context = none;
  marshal = λ fields. "{}";
  type_name = λ e. "error";
}

abbrev start : LoopState ℕ DirectExecutor
start = record {
  world = 0;
  buffer = new_direct_executor;
  iteration = 0;
  tools_used = [];
  recovery_attempts = 0;
  notified = none;
}

run_agent_loop-Ends_example :
    Ends env
      (direct_buffer [])
      none
      ""
      "s"
      (λ n. "limit")
      (run_agent_loop env (direct_buffer []) none "" "s" (λ n. "limit") 3 start)
run_agent_loop-Ends_example =
    run_agent_loop-Ends env (direct_buffer []) none "" "s" (λ n. "limit") refl 3 start (omega arith)
      (omega arith)

run_tool_calls-Answered_example :
    Answered env
      (direct_buffer [])
      (call ∷ broken ∷ [])
      start
      (run_tool_calls env (direct_buffer []) "s" (call ∷ broken ∷ []) start)
run_tool_calls-Answered_example =
    run_tool_calls-Answered env (direct_buffer []) "s" (call ∷ broken ∷ []) start

run_tool_calls-Silent_example :
    AllAnswered env
      (direct_buffer [])
      (call ∷ broken ∷ [])
      start
      (run_tool_calls env (direct_buffer []) "s" (call ∷ broken ∷ []) start)
run_tool_calls-Silent_example =
    run_tool_calls-Silent env (direct_buffer []) "s" (call ∷ broken ∷ []) start (inl refl)

tool_round-RoundAnswered_example :
    RoundAnswered env
      (direct_buffer [])
      none
      ""
      "s"
      asks
      start
      (tool_round env (direct_buffer []) none "" "s" asks start)
tool_round-RoundAnswered_example =
    tool_round-RoundAnswered env (direct_buffer []) none "" "s" asks start

abbrev question : Fields
question = field "role" (str "user") (field "content" (str "what is the time?") end)

-- A conversation that puts one question into the prompt.
abbrev pub turn_env : TurnEnv ℕ
turn_env = record {
  loop_env = env;
  limit_text = λ n. "limit";
  deep_equal = same_fields;
  run_turn = none;
  mint_turn_id = λ n. (ok "t1", n);
  conversation_build_prompt = λ session message n. (ok (question ∷ []), n);
  load_persisted_history = none;
  post_turn = λ session n. (ok tt, n);
  record_messages = λ session messages n. (ok tt, n);
}

begin_turn-loads_example :
    load_messages_ctx background [] (begin_turn turn_env "s" "hi" (0, new_direct_executor)).1.1
    ≡ load_messages_ctx background [] new_direct_executor
begin_turn-loads_example = begin_turn-loads turn_env "s" "hi" (0, new_direct_executor)
