-- ===== src/Session/Lossy.antt =====
-- What prepareTurn of conversation-file/conversation.go does to the agent loop's assistant turn
-- (exoclaw/agent/loop.go).
use exoclaw_go.Prelude.{◌≡◌, refl, String, true, [], ◌∷◌}
use exoclaw_go.Prelude.Text.{is_empty}
use exoclaw_go.Json.{Fields, get}
use exoclaw_go.Providers.{LlmResponse}
use exoclaw_go.Agent.Pass.{tool_call_turn, text_or_empty}
use exoclaw_go.Session.Prepare.{prepare_assistant, prepare_role, prepare_turn}

-- The assistant's turn of a round with tool calls and no text is not persisted: its calls are a
-- `[]map[string]any`, in which prepareTurn sees no calls.
pub prepare_turn-tool_call_turn :
    (now : String) (marshal : Fields → String) (r : LlmResponse)
    → is_empty (text_or_empty r.content) ≡ true
    → prepare_turn now (tool_call_turn marshal r ∷ []) ≡ []
unfolding prepare_turn prepare_role prepare_assistant tool_call_turn get
prepare_turn-tool_call_turn now marshal r h = rw h refl
