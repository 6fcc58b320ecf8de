-- ===== src/Agent/Inbound.antt =====
-- processMessage for the messages of users, dispatch and ProcessDirect of exoclaw/agent/loop.go. A panic
-- is left out, and so is the log.
use exoclaw_go.Prelude.{
  ℕ, String, Bool, true, false, ◌&&◌, Option, none, some, List, [], ◌∷◌, ◌++◌, if◌then◌else◌,
  str_eq, when_set,
}
use exoclaw_go.Prelude.Text.{is_empty, trim_space}
use exoclaw_go.Prelude.Folding.{lower_eq}
use exoclaw_go.Prelude.Effects.{Result, ok, err, canceled, Exec, pure, ◌>>=◌}
use exoclaw_go.Json.{boolean, Fields, end, put}
use exoclaw_go.Bus.Queue.{InboundMessage, OutboundMessage, session_key}
use exoclaw_go.Agent.Env.{Progress, thought, hint, ToolContext}
use exoclaw_go.Agent.Message.{
  TurnOptions, MessageEnv, PostTurn, AgentState, tool_hint, reply, with_session_key, or_else,
  collect_plugin_context, any_sent, in_world, run_turn, after_turn, process_system,
}

abbrev pub no_response_text : String
no_response_text = "I've completed processing but have no response to give."

abbrev pub help_text : String
help_text =
    "🦀 exoclaw commands:\n/new — Start a new conversation\n/stop — Stop the current task\n/help — Show available commands"

-- bus.NewInboundMessage
unfoldable pub new_inbound_message : String → String → String → String → InboundMessage
new_inbound_message channel sender_id chat_id content = record {
  channel = channel;
  sender_id = sender_id;
  chat_id = chat_id;
  content = content;
  media = [];
  metadata = end;
  session_key_override = "";
  model_override = "";
}

-- The context that the tools of the message's turn get.
unfoldable pub context_of : InboundMessage → String → ToolContext
context_of msg sid = record { session_key = sid; channel = msg.channel; chat_id = msg.chat_id }

module _ {W : Type 0} (m : MessageEnv W) where
  abbrev progress_text : Progress → String × Bool
  progress_text (thought t) = (t, false)
  progress_text (hint calls) = (tool_hint calls, true)

  -- defaultProgress
  unfoldable pub default_progress : InboundMessage → Progress → Exec W (Unit {0})
  default_progress msg p = m.publish_outbound (
      reply msg.channel msg.chat_id (progress_text p).0 (
        put "_tool_hint" (boolean (progress_text p).1)
          (put "_progress" (boolean true) msg.metadata)))

  abbrev pub effective_progress :
      InboundMessage → Option (Progress → Exec W (Unit {0})) → Option (Progress → Exec W (Unit {0}))
  effective_progress msg none = some (default_progress msg)
  effective_progress msg (some f) = some f

  abbrev pub cleared_text : Bool → String
  cleared_text success =
      if success
      then "New session started."
      else "Memory archival failed, session not cleared. Please try again."

  -- The command /new.
  unfoldable pub start_new : InboundMessage → String → Exec (AgentState W) (Option OutboundMessage)
  start_new msg sid = do
    success ← in_world m (m.clear sid)
    pure (some (reply msg.channel msg.chat_id (cleared_text success) end))

  -- From notifyToolsInbound to the assignment of currentTCtx.
  unfoldable pub enter : InboundMessage → String → AgentState W → AgentState W
  enter msg sid s = record s {
    turn = (m.on_inbound msg s.turn.0, s.turn.1);
    current_tctx = some (context_of msg sid);
  }

  abbrev pub with_extra : List String → String → List String
  with_extra plugin_context extra =
      if is_empty extra then plugin_context else plugin_context ++ extra ∷ []

  -- The plugin context, with what OnPreContext adds.
  unfoldable pub gather : InboundMessage → String → Exec (AgentState W) (List String)
  gather msg sid s =
      let plugin_context = collect_plugin_context m.system_contexts s.turn.0 in
      when_set m.on_pre_context ((ok plugin_context, s)) (λ hook.
        (do
          extra ← in_world m (hook msg.content sid msg.channel msg.chat_id)
          pure (with_extra plugin_context extra))
          s)

  abbrev post_turn_of : InboundMessage → String → List Fields → List PostTurn
  post_turn_of msg sid [] = []
  post_turn_of msg sid (n ∷ ns) =
      if m.has_on_post_turn
      then record {
        new_messages = n ∷ ns;
        session_id = sid;
        channel = msg.channel;
        chat_id = msg.chat_id;
      }
        ∷ []
      else []

  unfoldable pub finish_user :
      InboundMessage
      → String
      → Bool
      → String × List Fields
      → AgentState W
      → Result (Option OutboundMessage) × AgentState W
  finish_user msg sid publish r s =
      let s' = record s { post_turns = s.post_turns ++ post_turn_of msg sid r.1 } in
      if publish && m.handles_response_send
      then (ok none, s')
      else if any_sent m.sent_in_turn s.turn.0
      then (ok none, s')
      else (
        ok (
            some (
              reply msg.channel msg.chat_id (or_else r.0 no_response_text)
                (with_session_key sid msg.metadata))),
        s',
      )

  abbrev pub run_gathered :
      ℕ
      → InboundMessage
      → String
      → Option (Progress → Exec W (Unit {0}))
      → String
      → Bool
      → Result (List String) × AgentState W
      → Option (Result (Option OutboundMessage) × AgentState W)
  run_gathered fuel msg sid on_progress model publish (err e, s) = some (err e, s)
  run_gathered fuel msg sid on_progress model publish (ok plugin_context, s) =
      let opts : TurnOptions = record {
        channel = msg.channel;
        chat_id = msg.chat_id;
        media = msg.media;
        plugin_context = plugin_context;
        publish_response = publish;
      } in
      after_turn m (finish_user msg sid publish) (
        run_turn m fuel opts (effective_progress msg on_progress) (or_else model msg.model_override)
          sid msg.content s)

  -- What processMessage does for a message that is no system message.
  unfoldable pub process_user :
      ℕ
      → InboundMessage
      → String
      → Option (Progress → Exec W (Unit {0}))
      → String
      → Bool
      → AgentState W
      → Option (Result (Option OutboundMessage) × AgentState W)
  process_user fuel msg sid on_progress model publish s =
      let cmd = trim_space msg.content in
      if lower_eq "/new" cmd
      then some (start_new msg sid s)
      else if lower_eq "/help" cmd
      then some (ok (some (reply msg.channel msg.chat_id help_text end)), s)
      else run_gathered fuel msg sid on_progress model publish (gather msg sid (enter msg sid s))

  unfoldable pub process_message :
      ℕ
      → InboundMessage
      → String
      → Option (Progress → Exec W (Unit {0}))
      → String
      → Bool
      → AgentState W
      → Option (Result (Option OutboundMessage) × AgentState W)
  process_message fuel msg key on_progress model publish s =
      if str_eq msg.channel "system"
      then process_system m fuel msg model publish s
      else process_user fuel msg (or_else key (session_key msg)) on_progress model publish s

  -- PublishOutbound, whose error is dropped.
  unfoldable pub publish : OutboundMessage → AgentState W → AgentState W
  publish out s = (in_world m (m.publish_outbound out) s).1

  unfoldable pub after_message :
      InboundMessage → Result (Option OutboundMessage) × AgentState W → AgentState W
  after_message msg (err canceled, s) = s
  after_message msg (err e, s) =
      publish (reply msg.channel msg.chat_id "Sorry, I encountered an error." end) s
  after_message msg (ok (some out), s) = publish out s
  after_message msg (ok none, s) =
      if str_eq msg.channel "cli"
      then publish (reply msg.channel msg.chat_id "" msg.metadata) s
      else s

  abbrev if_done : {A B : Type 0} → (A → B) → Option A → Option B
  if_done f none = none
  if_done f (some a) = some (f a)

  -- dispatch, under processingMu.
  unfoldable pub dispatch : ℕ → InboundMessage → AgentState W → Option (AgentState W)
  dispatch fuel msg s = if_done (after_message msg) (process_message fuel msg "" none "" true s)

  abbrev content_or_empty : Option OutboundMessage → String
  content_or_empty none = ""
  content_or_empty (some out) = out.content

  abbrev direct_of : Result (Option OutboundMessage) × AgentState W → Result String × AgentState W
  direct_of (ok o, s) = (ok (content_or_empty o), s)
  direct_of (err e, s) = (err e, s)

  unfoldable pub process_direct :
      ℕ
      → String
      → String
      → String
      → String
      → Option (Progress → Exec W (Unit {0}))
      → String
      → AgentState W
      → Option (Result String × AgentState W)
  process_direct fuel content key channel chat_id on_progress model s = if_done direct_of (
      process_message fuel (new_inbound_message channel "user" chat_id content) key on_progress
        model false s)
