-- ===== src/OpenAi/OneShot.antt =====
-- consumeOneShot of providers/openai/provider.go.
use exoclaw_go.Prelude.{ℕ, suc, String, not, ◌&&◌, Option, none, some, List, if◌then◌else◌}
use exoclaw_go.Prelude.Text.{is_empty}
use exoclaw_go.Prelude.Folding.{contains_folded}
use exoclaw_go.Json.{Value, obj, Items, nil, cons, Fields, get, items_of, str_of}
use exoclaw_go.Providers.{LlmResponse}
use exoclaw_go.OpenAi.Response.{
  map_of, Slot, put_slot, Collected, nothing_collected, take_usage, add_part, replace_text,
  build_response,
}
use exoclaw_go.OpenAi.Stream.{Answer, answered, failed, retryable, fatal, HttpResponse}

unfoldable pub slot_of : Fields → Slot
slot_of tcm =
    let fn = map_of (get "function" tcm) in
    record {
      id = str_of (get "id" tcm);
      name = str_of (get "name" fn);
      args = str_of (get "arguments" fn);
    }

unfoldable pub read_call : ℕ → Value → List (ℕ × Slot) → List (ℕ × Slot)
read_call i (obj tcm) slots = put_slot i (slot_of tcm) slots
read_call i _ slots = slots

-- The loop over message.tool_calls; a slot's index is the place in the list.
unfoldable pub read_calls : ℕ → Items → List (ℕ × Slot) → List (ℕ × Slot)
read_calls i nil slots = slots
read_calls i (cons t ts) slots = read_calls (suc i) ts (read_call i t slots)

unfoldable pub read_choice : Value → Collected → Collected
read_choice (obj cm) c =
    let msg = map_of (get "message" cm) in
    record c {
      content_parts = add_part (get "content" msg) c.content_parts;
      reasoning_parts = add_part (get "reasoning_content" msg) c.reasoning_parts;
      tool_slots = read_calls 0 (items_of (get "tool_calls" msg)) c.tool_slots;
      finish_reason = replace_text (get "finish_reason" cm) c.finish_reason;
    }
read_choice _ c = c

unfoldable pub read_choices : Items → Collected → Collected
read_choices nil c = c
read_choices (cons v vs) c = read_choices vs (read_choice v c)

unfoldable pub read_body : Fields → Collected
read_body body =
    read_choices (items_of (get "choices" body))
      (record nothing_collected { usage = take_usage (get "usage" body) nothing_collected.usage })

module _ (decode : String → Option Fields) (short_tool_id : ℕ → String) where
  unfoldable pub consume_decoded : Option Fields → Answer (LlmResponse × Fields)
  consume_decoded none = failed (fatal "decode chat-completion body")
  consume_decoded (some body) = answered (build_response decode short_tool_id (read_body body))

  unfoldable pub consume_body : Option String → Answer (LlmResponse × Fields)
  consume_body none = failed (retryable "read body")
  consume_body (some raw) = consume_decoded (decode raw)

  unfoldable pub consume_one_shot : HttpResponse → Answer (LlmResponse × Fields)
  consume_one_shot r =
      if not (is_empty r.content_type) && not (contains_folded "application/json" r.content_type)
      then failed (retryable "expected application/json")
      else consume_body r.body
