-- ===== src/Agent/Context.antt =====
-- currentTCtx of exoclaw/agent/loop.go, which the tools of a turn get.
use exoclaw_go.Prelude.{
  ℕ, ◌≡◌, refl, ◌∙◌, ◌&&◌, String, Bool, true, false, Option, none, some, List, if◌then◌else◌,
  if-ind, str_eq, when_set-ind,
}
use exoclaw_go.Prelude.Text.{trim_space}
use exoclaw_go.Prelude.Folding.{lower_eq}
use exoclaw_go.Prelude.Effects.{Result, ok, err, Exec, pure, continue}
use exoclaw_go.Json.{Fields}
use exoclaw_go.Bus.Queue.{InboundMessage, OutboundMessage, session_key}
use exoclaw_go.Agent.Env.{Progress, ToolContext}
use exoclaw_go.Agent.Turn.{Turn}
use exoclaw_go.Agent.Message.{
  MessageEnv, AgentState, or_else, any_sent, with_turn, in_world, put_turn, run_turn, after_turn,
  finish_system, process_system,
}
use exoclaw_go.Agent.Inbound.{
  context_of, start_new, enter, gather, finish_user, run_gathered, process_user, process_message,
}

-- A message of a user that is no command sets the context, and nothing else does.
abbrev pub user_context : InboundMessage → String → Option ToolContext → Option ToolContext
user_context msg sid old =
    if lower_eq "/new" (trim_space msg.content)
    then old
    else if lower_eq "/help" (trim_space msg.content)
    then old
    else some (context_of msg sid)

abbrev pub context_after : InboundMessage → String → Option ToolContext → Option ToolContext
context_after msg key old =
    if str_eq msg.channel "system"
    then old
    else user_context msg (or_else key (session_key msg)) old

-- The context beside a result, if there is one.
abbrev pub LeavesContext :
    {W A : Type 0} → Option ToolContext → Option (Result A × AgentState W) → Type 0
LeavesContext c none = Unit
LeavesContext c (some x) = x.1.current_tctx ≡ c

module _ {W : Type 0} (m : MessageEnv W) where
  abbrev Done : Type 0
  Done = Result (Option OutboundMessage) × AgentState W

  put_turn-context :
      (c : Option ToolContext) (s : AgentState W)
      (x : Option (Result (String × List Fields) × Turn W))
      → s.current_tctx ≡ c
      → LeavesContext c (put_turn m s x)
  put_turn-context c s none h = tt
  put_turn-context c s (some (r, turn)) h = h

  after_turn-context :
      (c : Option ToolContext) (finish : String × List Fields → AgentState W → Done)
      (x : Option (Result (String × List Fields) × AgentState W))
      → ((r : String × List Fields) (s : AgentState W)
          → (finish r s).1.current_tctx ≡ s.current_tctx)
      → LeavesContext c x
      → LeavesContext c (after_turn m finish x)
  after_turn-context c finish none keeps h = tt
  after_turn-context c finish (some (err e, s)) keeps h = h
  after_turn-context c finish (some (ok r, s)) keeps h = keeps r s ∙ h

  finish_system-context :
      (msg : InboundMessage) (origin : String × String) (sid : String) (publish : Bool)
      (r : String × List Fields) (s : AgentState W)
      → (finish_system m msg origin sid publish r s).1.current_tctx ≡ s.current_tctx
  unfolding finish_system
  finish_system-context msg origin sid publish r s =
      if-ind (λ (x : Done). x.1.current_tctx ≡ s.current_tctx) (publish && m.handles_response_send)
        _ _ (λ _. refl) (λ _. refl)

  finish_user-context :
      (msg : InboundMessage) (sid : String) (publish : Bool) (r : String × List Fields)
      (s : AgentState W)
      → (finish_user m msg sid publish r s).1.current_tctx ≡ s.current_tctx
  unfolding finish_user
  finish_user-context msg sid publish r s =
      if-ind (λ (x : Done). x.1.current_tctx ≡ s.current_tctx) (publish && m.handles_response_send)
        _ _ (λ _. refl)
        (λ _.
          if-ind (λ (x : Done). x.1.current_tctx ≡ s.current_tctx)
            (any_sent m.sent_in_turn s.turn.0) _ _ (λ _. refl) (λ _. refl))

  continue-context :
      {A B : Type 0} (s : AgentState W) (x : Result A × W) (f : A → B)
      → (continue (with_turn m s x) (λ a. pure (f a))).1.current_tctx ≡ s.current_tctx
  continue-context s (ok a, w) f = refl
  continue-context s (err e, w) f = refl

  gather-context :
      (msg : InboundMessage) (sid : String) (s : AgentState W)
      → (gather m msg sid s).1.current_tctx ≡ s.current_tctx
  unfolding gather in_world
  gather-context msg sid s =
      when_set-ind (λ (x : Result (List String) × AgentState W). x.1.current_tctx ≡ s.current_tctx)
        m.on_pre_context _ _ refl (λ hook. continue-context s _ _)

  gathered-context :
      (c : Option ToolContext) (fuel : ℕ) (msg : InboundMessage) (sid : String)
      (on_progress : Option (Progress → Exec W (Unit {0}))) (model : String) (publish : Bool)
      (x : Result (List String) × AgentState W)
      → x.1.current_tctx ≡ c
      → LeavesContext c (run_gathered m fuel msg sid on_progress model publish x)
  unfolding run_turn
  gathered-context c fuel msg sid on_progress model publish (err e, s) h = h
  gathered-context c fuel msg sid on_progress model publish (ok plugin_context, s) h =
      after_turn-context c (finish_user m msg sid publish) _ (finish_user-context msg sid publish)
        (put_turn-context c s _ h)

  context_branches :
      (b : Bool) (c d : Option ToolContext) (x y : Option Done)
      → LeavesContext c x
      → LeavesContext d y
      → LeavesContext (if b then c else d) (if b then x else y)
  context_branches true c d x y h k = h
  context_branches false c d x y h k = k

  entered-context :
      (fuel : ℕ) (msg : InboundMessage) (sid : String)
      (on_progress : Option (Progress → Exec W (Unit {0}))) (model : String) (publish : Bool)
      (s : AgentState W)
      → LeavesContext (some (context_of msg sid)) (
          run_gathered m fuel msg sid on_progress model publish
            (gather m msg sid (enter m msg sid s)))
  unfolding enter
  entered-context fuel msg sid on_progress model publish s =
      gathered-context (some (context_of msg sid)) fuel msg sid on_progress model publish
        (gather m msg sid (enter m msg sid s)) (gather-context msg sid (enter m msg sid s))

  process_user-context :
      (fuel : ℕ) (msg : InboundMessage) (sid : String)
      (on_progress : Option (Progress → Exec W (Unit {0}))) (model : String) (publish : Bool)
      (s : AgentState W)
      → LeavesContext
          (user_context msg sid s.current_tctx)
          (process_user m fuel msg sid on_progress model publish s)
  unfolding process_user start_new in_world
  process_user-context fuel msg sid on_progress model publish s =
      context_branches (lower_eq "/new" (trim_space msg.content)) s.current_tctx _ _ _
        (continue-context s _ _)
        (context_branches (lower_eq "/help" (trim_space msg.content)) s.current_tctx
          (some (context_of msg sid)) _ _ refl
          (entered-context fuel msg sid on_progress model publish s))

  process_system-context :
      (fuel : ℕ) (msg : InboundMessage) (model : String) (publish : Bool) (s : AgentState W)
      → LeavesContext s.current_tctx (process_system m fuel msg model publish s)
  unfolding process_system run_turn
  process_system-context fuel msg model publish s =
      after_turn-context s.current_tctx (finish_system m msg _ _ publish) _
        (finish_system-context msg _ _ publish) (put_turn-context s.current_tctx s _ refl)

  -- processMessage sets the context of the tools to that of the message for a user's message that is
  -- no command, also where it fails. Behind a command and behind a system message it is what it was
  -- before. (No answer: the fuel ran out, and nothing is said.)
  pub process_message-context :
      (fuel : ℕ) (msg : InboundMessage) (key : String)
      (on_progress : Option (Progress → Exec W (Unit {0}))) (model : String) (publish : Bool)
      (s : AgentState W)
      → LeavesContext
          (context_after msg key s.current_tctx)
          (process_message m fuel msg key on_progress model publish s)
  unfolding process_message
  process_message-context fuel msg key on_progress model publish s =
      context_branches (str_eq msg.channel "system") s.current_tctx _ _ _
        (process_system-context fuel msg model publish s)
        (process_user-context fuel msg (or_else key (session_key msg)) on_progress model publish s)
