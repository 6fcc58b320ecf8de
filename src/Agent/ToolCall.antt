-- ===== src/Agent/ToolCall.antt =====
-- The handling of one tool call in runAgentLoop of exoclaw/agent/loop.go: the checks before it, the
-- dispatch, and the message that goes into the buffer and to the conversation.
use exoclaw_go.Prelude.{
  String, Option, none, some, List, [], ◌∷◌, ◌++◌, if◌then◌else◌, str_eq, when_set,
}
use exoclaw_go.Prelude.Text.{◌<>◌, is_private}
use exoclaw_go.Prelude.Effects.{
  Error, canceled, deadline_exceeded, context_window_exceeded, failure, Result, ok, err, Exec, pure,
  ◌>>=◌, ◌>>◌,
}
use exoclaw_go.Json.{Fields, field, end, str}
use exoclaw_go.Providers.{ToolCallRequest}
use exoclaw_go.Executor.{MessageBuffer}
use exoclaw_go.Agent.Env.{
  Env, Decision, decided, failed, panicked, HookContext, BeforeToolResult, ToolResult,
}
use exoclaw_go.Agent.State.{LoopState, lift, push_messages, load, flush, session_key_of}

-- What the checks before a call decide: execErr, a rejection that is not empty, or neither.
pub data Verdict : Type 0 where
  errored : Error → Verdict
  rejected : String → Verdict
  proceed : Verdict

-- Error()
unfoldable pub error_text : Error → String
error_text canceled = "context canceled"
error_text deadline_exceeded = "context deadline exceeded"
error_text (context_window_exceeded m) = if str_eq m "" then "context window exceeded" else m
error_text (failure t) = t

unfoldable pub error_result : (Error → String) → String → Error → String
error_result type_name name e =
    let detail = if str_eq (error_text e) "" then type_name e else error_text e in
    "Error executing " <> name <> ": " <> detail
    <> "\n\n[Analyze the error above and try a different approach.]"

unfoldable pub verdict_of : Result String → Verdict
verdict_of (ok rejection) = if str_eq rejection "" then proceed else rejected rejection
verdict_of (err e) = errored e

-- callBeforeTool and callBeforeFinish: an error or a panic is no decision.
unfoldable pub swallow : {A : Type 0} → Decision A → Option A
swallow (decided d) = d
swallow (failed e) = none
swallow panicked = none

unfoldable pub new_arguments : Option Fields → Fields → Fields
new_arguments none arguments = arguments
new_arguments (some params) arguments = params

-- The decision of a before_tool decider applied to the call.
unfoldable pub apply_before_tool :
    ToolCallRequest → Option BeforeToolResult → ToolCallRequest × Verdict
apply_before_tool c none = (c, proceed)
apply_before_tool c (some bt) = (
  record c { arguments = new_arguments bt.params c.arguments },
  if bt.block
      then rejected (if str_eq bt.block_reason "" then "blocked" else bt.block_reason)
      else proceed,
)

unfoldable pub tool_message : ToolCallRequest → String → String → Fields
tool_message c result content_file = field "role" (str "tool") (
    field "tool_call_id" (str c.id) (
      field "name" (str c.name) (
        field "content" (str result)
          (if str_eq content_file "" then end else field "_content_file" (str content_file) end))))

-- The copy without the keys that begin with an underscore.
unfoldable pub persisted : Fields → Fields
persisted end = end
persisted (field k v fs) = let rest = persisted fs in if is_private k then rest else field k v rest

module _ {W X : Type 0} (env : Env W) (buf : MessageBuffer X) where
  abbrev pub St : Type 0
  St = LoopState W X

  unfoldable pub run_context_of : Option (W → Option Fields) → W → Option Fields
  run_context_of none w = none
  run_context_of (some f) w = f w

  -- makeHookContext: the fields that a seam fills in are empty.
  unfoldable pub make_hook_context : String → St → HookContext
  make_hook_context event s = record {
    event = event;
    run_context = run_context_of env.run_context s.world;
    messages = load buf s;
    tool_name = "";
    params = end;
    final_content = "";
    tools_used = [];
  }

  -- OnPreTool
  unfoldable pub pre_tool : ToolCallRequest → St → Verdict × St
  pre_tool c s = when_set env.on_pre_tool ((proceed, s)) (λ hook.
      let (r, s') = lift (hook c.name c.arguments (session_key_of env.current_tctx)) s in
      (verdict_of r, s'))

  -- The before_tool decider, where nothing has stopped the call.
  unfoldable pub decide : Verdict → ToolCallRequest → St → (ToolCallRequest × Verdict) × St
  decide (errored e) c s = ((c, errored e), s)
  decide (rejected r) c s = ((c, rejected r), s)
  decide proceed c s = when_set env.before_tool (((c, proceed), s)) (λ decider.
      let hc = make_hook_context "before_tool" s in
      let (d, w) = decider (record hc { tool_name = c.name; params = c.arguments }) s.world in
      (apply_before_tool c (swallow d), record s { world = w }))

  unfoldable pub handle_result :
      ToolCallRequest → Result (Option ToolResult) → Exec W (String × String)
  handle_result c (ok (some res)) = pure (res.content, res.content_file)
  handle_result c (ok none) = do legacy ← env.execute_tool c; pure (legacy, "")
  handle_result c (err e) = do legacy ← env.execute_tool c; pure (legacy, "")

  -- invokeTool: the handle path, and the legacy path where it fails or gives nil.
  unfoldable pub invoke_tool : ToolCallRequest → Exec W (String × String)
  invoke_tool c w = let (r, w') = env.execute_tool_with_handle c w in handle_result c r w'

  unfoldable pub outcome_of : ToolCallRequest → Result (String × String) → String × String
  outcome_of c (ok out) = out
  outcome_of c (err e) = (error_result env.type_name c.name e, "")

  -- The text that the model sees, and the file behind it. An error never leaves this step.
  unfoldable pub perform : ToolCallRequest × Verdict → St → (String × String) × St
  perform (c, errored e) s = ((error_result env.type_name c.name e, ""), s)
  perform (c, rejected r) s = ((r, ""), s)
  perform (c, proceed) s = let (r, s') = lift (invoke_tool c) s in (outcome_of c r, s')

  -- OnToolResult, whose error is dropped.
  unfoldable pub tool_result_hook : ToolCallRequest → String → St → St
  tool_result_hook c result s = when_set env.on_tool_result (s) (λ hook. (lift (hook c result) s).1)

  -- The checks and the dispatch: the call as it was made, its result, and the state after it.
  unfoldable pub settle : ToolCallRequest → St → (ToolCallRequest × (String × String)) × St
  settle c s =
      let (v, s₁) = pre_tool c (record s { tools_used = s.tools_used ++ c.name ∷ [] }) in
      let (cv, s₂) = decide v c s₁ in
      let (out, s₃) = perform cv s₂ in ((cv.0, out), tool_result_hook cv.0 out.0 s₃)

  unfoldable pub record_result : String → ToolCallRequest → String × String → Exec St (Unit {0})
  record_result session_id c out = do
    push_messages buf (tool_message c out.0 out.1 ∷ [])
    flush env session_id (persisted (tool_message c out.0 out.1))

  -- One round of the loop over response.ToolCalls.
  unfoldable pub run_tool_call : String → ToolCallRequest → Exec St (Unit {0})
  run_tool_call session_id c s =
      let (done, s') = settle c s in record_result session_id done.0 done.1 s'

  unfoldable pub run_tool_calls : String → List ToolCallRequest → Exec St (Unit {0})
  run_tool_calls session_id [] = pure tt
  run_tool_calls session_id (c ∷ cs) = do run_tool_call session_id c; run_tool_calls session_id cs
