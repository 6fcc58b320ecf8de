-- ===== src/Agent/Message.antt =====
-- processMessage, dispatch and ProcessDirect of exoclaw/agent/loop.go. A panic is left out, and so is
-- the log.
use exoclaw_go.Prelude.{
  ℕ, String, Bool, true, false, ◌&&◌, Option, none, some, List, [], ◌∷◌, if◌then◌else◌, when_set,
  ltb,
}
use exoclaw_go.Prelude.Text.{◌<>◌, is_empty, cut_colon, byte_len, take_bytes}
use exoclaw_go.Prelude.Effects.{Result, ok, err, Exec}
use exoclaw_go.Json.{Value, str, Fields, end, field, get, put}
use exoclaw_go.Providers.{ToolCallRequest}
use exoclaw_go.Bus.Queue.{InboundMessage, OutboundMessage}
use exoclaw_go.Agent.Env.{Progress, ToolContext}
use exoclaw_go.Agent.Turn.{TurnEnv, Turn, process_turn}

-- executor.RunTurnOptions, without the model and the progress callback.
pub record TurnOptions : Type 0 where
  pub channel : String
  pub chat_id : String
  pub media : List String
  pub plugin_context : List String
  pub publish_response : Bool

-- What a message asks of the rest of the program, besides what its turn does.
pub record MessageEnv (W : Type 0) : Type 0 where
  pub turn_env : TurnOptions → TurnEnv W
  -- Executor.Clear
  pub clear : String → Exec W Bool
  -- OnInbound of the tools that have one
  pub on_inbound : InboundMessage → W → W
  -- SystemContext of the tools that have one, "" for one that panics
  pub system_contexts : List (W → String)
  pub on_pre_context : Option (String → String → String → String → Exec W String)
  pub has_on_post_turn : Bool
  pub handles_response_send : Bool
  -- SentInTurn of the tools that have one
  pub sent_in_turn : List (W → Bool)
  pub publish_outbound : OutboundMessage → Exec W (Unit {0})

-- The arguments with which the goroutine of OnPostTurn was started.
pub record PostTurn : Type 0 where
  pub new_messages : List Fields
  pub session_id : String
  pub channel : String
  pub chat_id : String

pub record AgentState (W : Type 0) : Type 0 where
  pub turn : Turn W
  pub current_tctx : Option ToolContext
  pub post_turns : List PostTurn

abbrev first_value : Fields → Option Value
first_value end = none
first_value (field k v fs) = some v

abbrev hint_text : String → Option Value → String
hint_text name (some (str s)) =
    if ltb 40 (byte_len s)
    then name <> ("(\"" <> (take_bytes 40 s <> "…\")"))
    else name <> ("(\"" <> (s <> "\")"))
hint_text name _ = name

-- toolHint; the value that a range over the arguments meets first is the first in the list.
unfoldable pub tool_hint : List ToolCallRequest → String
tool_hint [] = ""
tool_hint (c ∷ []) = hint_text c.name (first_value c.arguments)
tool_hint (c ∷ cs) = hint_text c.name (first_value c.arguments) <> (", " <> tool_hint cs)

unfoldable pub reply : String → String → String → Fields → OutboundMessage
reply channel chat_id content metadata = record {
  channel = channel;
  chat_id = chat_id;
  content = content;
  reply_to = "";
  media = [];
  metadata = metadata;
  buttons = [];
}

abbrev is_set : Option Value → Bool
is_set none = false
is_set (some v) = true

unfoldable pub with_session_key : String → Fields → Fields
with_session_key sid metadata =
    if is_set (get "session_key" metadata) then metadata else put "session_key" (str sid) metadata

abbrev pub or_else : String → String → String
or_else t other = if is_empty t then other else t

-- Where a system message comes from, by its chat id.
unfoldable pub system_origin : String → String × String
system_origin chat_id = when_set (cut_colon chat_id) ("cli", chat_id) (λ p. p)

unfoldable pub collect_plugin_context {ℓ} : {W : Type ℓ} → List (W → String) → W → List String
collect_plugin_context [] w = []
collect_plugin_context (t ∷ ts) w =
    let rest = collect_plugin_context ts w in if is_empty (t w) then rest else t w ∷ rest

unfoldable pub any_sent {ℓ} : {W : Type ℓ} → List (W → Bool) → W → Bool
any_sent [] w = false
any_sent (t ∷ ts) w = let rest = any_sent ts w in if t w then true else rest

module _ {W : Type 0} (m : MessageEnv W) where
  abbrev pub with_turn : {A : Type 0} → AgentState W → Result A × W → Result A × AgentState W
  with_turn s (r, w) = (r, record s { turn = (w, s.turn.1) })

  -- A call into the world.
  unfoldable pub in_world : {A : Type 0} → Exec W A → Exec (AgentState W) A
  in_world call s = with_turn s (call s.turn.0)

  -- What a turn is given: the tools see the context of the agent.
  abbrev pub env_of : TurnOptions → Option ToolContext → TurnEnv W
  env_of opts tctx =
      let t = m.turn_env opts in record t { loop_env = record t.loop_env { current_tctx = tctx } }

  abbrev pub put_turn :
      AgentState W
      → Option (Result (String × List Fields) × Turn W)
      → Option (Result (String × List Fields) × AgentState W)
  put_turn s none = none
  put_turn s (some (r, turn)) = some (r, record s { turn = turn })

  unfoldable pub run_turn :
      ℕ
      → TurnOptions
      → Option (Progress → Exec W (Unit {0}))
      → String
      → String
      → String
      → AgentState W
      → Option (Result (String × List Fields) × AgentState W)
  run_turn fuel opts on_progress model sid content s =
      put_turn s
        (process_turn (env_of opts s.current_tctx) on_progress model fuel sid content s.turn)

  unfoldable pub finish_system :
      InboundMessage
      → String × String
      → String
      → Bool
      → String × List Fields
      → AgentState W
      → Result (Option OutboundMessage) × AgentState W
  finish_system msg origin sid publish r s =
      if publish && m.handles_response_send then (ok none, s) else (
        ok (
            some (
              reply origin.0 origin.1 (or_else r.0 "Background task completed.")
                (with_session_key sid msg.metadata))),
        s,
      )

  -- What follows the turn of a message, where it returns no error.
  abbrev pub after_turn :
      (String × List Fields → AgentState W → Result (Option OutboundMessage) × AgentState W)
      → Option (Result (String × List Fields) × AgentState W)
      → Option (Result (Option OutboundMessage) × AgentState W)
  after_turn finish none = none
  after_turn finish (some (err e, s)) = some (err e, s)
  after_turn finish (some (ok r, s)) = some (finish r s)

  unfoldable pub process_system :
      ℕ
      → InboundMessage
      → String
      → Bool
      → AgentState W
      → Option (Result (Option OutboundMessage) × AgentState W)
  process_system fuel msg model publish s =
      let origin = system_origin msg.chat_id in
      let sid = or_else msg.session_key_override (origin.0 <> (":" <> origin.1)) in
      let opts : TurnOptions = record {
        channel = origin.0;
        chat_id = origin.1;
        media = [];
        plugin_context = collect_plugin_context m.system_contexts s.turn.0;
        publish_response = publish;
      } in
      after_turn (finish_system msg origin sid publish)
        (run_turn fuel opts none (or_else model msg.model_override) sid msg.content s)
