-- ===== src/Agent/Pass.antt =====
-- One round of the `for` loop of runAgentLoop in exoclaw/agent/loop.go.
use exoclaw_go.Prelude.{
  suc, String, Bool, Option, none, some, List, [], ◌∷◌, if◌then◌else◌, str_eq, when_set, ltb, leb,
}
use exoclaw_go.Prelude.Effects.{
  context_window_exceeded, Result, ok, err, Exec, pure, raise, ◌>>=◌, ◌>>◌,
}
use exoclaw_go.Json.{Fields, field, end, Value, str, maps, obj, Items, nil, cons}
use exoclaw_go.Providers.{ToolCallRequest, LlmResponse, has_tool_calls, drop_malformed_tool_calls}
use exoclaw_go.Executor.{MessageBuffer}
use exoclaw_go.Agent.Think.{strip_think}
use exoclaw_go.Agent.Env.{Env, BeforeFinishResult, Progress, thought, hint}
use exoclaw_go.Agent.State.{
  LoopState, lift, push_messages, replace_messages, load, flush, session_key_of,
}
use exoclaw_go.Agent.ToolCall.{make_hook_context, swallow, run_tool_calls}

-- How a round ends: the next round (`continue`, or the end of the body), `break` with the final
-- content set, or `break` because the loop may not continue.
pub data Next : Type 0 where
  again : Next
  finished : String → Next
  stopped : Next

abbrev pub overflow_message : String
overflow_message =
    "The conversation exceeded the model's context window and I couldn't recover. Try starting a new session."

abbrev pub text_or_empty : Option String → String
text_or_empty none = ""
text_or_empty (some t) = t

unfoldable pub tool_call_dict : (Fields → String) → ToolCallRequest → Value
tool_call_dict marshal c = obj (
    field "id" (str c.id) (
      field "type" (str "function") (
        field "function"
          (obj (field "name" (str c.name) (field "arguments" (str (marshal c.arguments)) end)))
          end)))

unfoldable pub tool_call_dicts : (Fields → String) → List ToolCallRequest → Items
tool_call_dicts marshal [] = nil
tool_call_dicts marshal (c ∷ cs) = cons (tool_call_dict marshal c) (tool_call_dicts marshal cs)

unfoldable pub blocks : List Fields → Items
blocks [] = nil
blocks (b ∷ bs) = cons (obj b) (blocks bs)

unfoldable pub thinking : List Fields → Fields
thinking [] = end
thinking (b ∷ bs) = field "thinking_blocks" (maps (blocks (b ∷ bs))) end

unfoldable pub with_reasoning : LlmResponse → Fields
with_reasoning r =
    let rest = thinking r.thinking_blocks in
    elim r.reasoning_content [ none ↦ rest | some t ↦ field "reasoning_content" (str t) rest ]

-- The assistant turn with tool calls; the loop appends it only where there is a call.
unfoldable pub tool_call_turn : (Fields → String) → LlmResponse → Fields
tool_call_turn marshal r = field "role" (str "assistant") (
    field "content" (str (text_or_empty r.content))
      (field "tool_calls" (maps (tool_call_dicts marshal r.tool_calls)) (with_reasoning r)))

unfoldable pub final_turn : LlmResponse → String → Fields
final_turn r clean = field "role" (str "assistant") (field "content" (str clean) (with_reasoning r))

unfoldable pub user_turn : String → Fields
user_turn text = field "role" (str "user") (field "content" (str text) end)

module _ {W X : Type 0} (env : Env W) (buf : MessageBuffer X)
    (on_progress : Option (Progress → Exec W (Unit {0}))) (model session_id : String) where
  unfoldable pub should_continue : Exec (LoopState W X) Bool
  should_continue s =
      when_set env.iteration_policy ((ok (ltb s.iteration env.max_iterations), s))
        (λ p. lift (p.should_continue s.iteration s.tools_used) s)

  -- A buffered message that also goes to the conversation.
  unfoldable pub emit : Fields → Exec (LoopState W X) (Unit {0})
  emit msg = do push_messages buf (msg ∷ []); flush env session_id msg

  -- The list from OnContextOverflow, else from the executor's RecoverFromOverflow.
  unfoldable pub compacted : List Fields → Exec (LoopState W X) (Option (List Fields))
  compacted messages =
      when_set env.on_context_overflow
        (when_set env.recover_from_overflow (pure none)
          (λ recover. if str_eq session_id "" then pure none else lift (recover session_id)))
        (λ hook. lift (hook messages))

  unfoldable pub retry_with : Option (List Fields) → Exec (LoopState W X) Next
  retry_with none = pure (finished overflow_message)
  retry_with (some messages) = do replace_messages buf messages; pure again

  -- A ContextWindowExceededError: recovery is tried MaxRecoveryAttempts times at most.
  unfoldable pub on_overflow : List Fields → Exec (LoopState W X) Next
  on_overflow messages s =
      if leb env.max_recovery_attempts s.recovery_attempts
      then (ok (finished overflow_message), s)
      else (do c ← compacted messages; retry_with c)
          (record s { recovery_attempts = suc s.recovery_attempts })

  -- onProgress, whose errors are dropped.
  unfoldable pub tell : Progress → LoopState W X → LoopState W X
  tell p s = when_set on_progress (s) (λ f. (lift (f p) s).1)

  unfoldable pub tell_thought : Option String → LoopState W X → LoopState W X
  tell_thought none s = s
  tell_thought (some t) s =
      if str_eq (strip_think t) "" then s else tell (thought (strip_think t)) s

  unfoldable pub on_tool_calls : List ToolCallRequest → Exec (LoopState W X) (Unit {0})
  on_tool_calls calls = when_set env.on_tool_calls (pure tt) (λ hook. lift (hook calls))

  -- The branch of a response with tool calls.
  unfoldable pub tool_round : LlmResponse → Exec (LoopState W X) Next
  tool_round r s =
      (do
        on_tool_calls r.tool_calls
        emit (tool_call_turn env.marshal r)
        run_tool_calls env buf session_id r.tool_calls
        pure again)
        (tell (hint r.tool_calls) (tell_thought r.content s))

  -- A follow-up that is not empty becomes a user turn, and the loop goes on.
  unfoldable pub nudge : String → Exec (LoopState W X) Next → Exec (LoopState W X) Next
  nudge text rest = if str_eq text "" then rest else (do emit (user_turn text); pure again)

  unfoldable pub finish_key : String
  finish_key = if str_eq session_id "" then session_key_of env.current_tctx else session_id

  unfoldable pub continue_message : Option BeforeFinishResult → String
  continue_message none = ""
  continue_message (some bf) = bf.continue_message

  -- The before_finish decider of the Conversation.
  unfoldable pub decide_finish : String → Exec (LoopState W X) Next
  decide_finish clean s = when_set env.before_finish ((ok (finished clean), s)) (λ decider.
      let hc = make_hook_context env buf "before_finish" s in
      let (d, w) =
        decider (record hc { final_content = clean; tools_used = s.tools_used }) s.world in
      nudge (continue_message (swallow d)) (pure (finished clean)) (record s { world = w }))

  -- OnBeforeFinish, and then the decider.
  unfoldable pub before_finish : String → Exec (LoopState W X) Next
  before_finish clean s = when_set env.on_before_finish (decide_finish clean s) (λ hook.
      (do
        followup ← lift (hook clean s.tools_used finish_key)
        nudge followup (decide_finish clean))
        s)

  -- The branch of a response with no tool calls.
  unfoldable pub finish_round : LlmResponse → Exec (LoopState W X) Next
  finish_round r =
      let clean = strip_think (text_or_empty r.content) in
      if str_eq r.finish_reason "error"
      then pure (
          finished (
            if str_eq clean ""
            then "Sorry, I encountered an error calling the AI model."
            else clean))
      else (do emit (final_turn r clean); before_finish clean)

  -- The malformed calls are dropped before the branch is chosen.
  unfoldable pub respond : LlmResponse → Exec (LoopState W X) Next
  respond response =
      let r = (drop_malformed_tool_calls response).0 in
      if has_tool_calls r then tool_round r else finish_round r

  unfoldable pub after_chat : List Fields → Result LlmResponse → Exec (LoopState W X) Next
  after_chat messages (ok r) = respond r
  after_chat messages (err (context_window_exceeded m)) = on_overflow messages
  after_chat messages (err e) = raise e

  abbrev pub effective_model : String
  effective_model = if str_eq model "" then env.model else model

  unfoldable pub include : Option (W → List String) → W → Option (List String)
  include none w = none
  include (some f) w = some (f w)

  -- The model call of a round and what follows it.
  unfoldable pub ask : Exec (LoopState W X) Next
  ask s =
      let tools = env.get_definitions (include env.active_tools s.world) s.world in
      let (r, s') = lift (env.chat tools effective_model (load buf s)) s in
      after_chat (load buf s) r s'

  unfoldable pub round : Exec (LoopState W X) Next
  round = do
    cont ← should_continue
    if cont then (λ s. ask (record s { iteration = suc s.iteration })) else pure stopped
