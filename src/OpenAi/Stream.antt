-- ===== src/OpenAi/Stream.antt =====
-- consumeSSEStream of providers/openai/provider.go.
use exoclaw_go.Prelude.{
  ℕ, String, Bool, true, false, not, Option, none, some, List, [], ◌∷◌, if◌then◌else◌, str_eq,
}
use exoclaw_go.Prelude.Text.{has_prefix, trim_space, skip_runes}
use exoclaw_go.Prelude.Folding.{contains_folded}
use exoclaw_go.Json.{Value, obj, Items, nil, cons, Fields, get, items_of}
use exoclaw_go.Providers.{LlmResponse}
use exoclaw_go.OpenAi.Response.{
  int_from_any, map_of, Slot, empty_slot, slot_at, put_slot, Collected, nothing_collected,
  take_usage, add_part, replace_text, append_text, build_response,
}

-- How a request fails: the errors that Chat tells apart, and all others, with the first words of the text.
pub data ChatError : Type 0 where
  retryable context_window_exceeded fatal no_deployment : String → ChatError

pub data Answer (A : Type 0) : Type 0 where
  answered : A → Answer A
  failed : ChatError → Answer A

abbrev pub or_empty_slot : Option Slot → Slot
or_empty_slot none = empty_slot
or_empty_slot (some slot) = slot

-- One element of delta.tool_calls.
unfoldable pub merge_call : Fields → Slot → Slot
merge_call tcm slot =
    let fn = map_of (get "function" tcm) in
    record {
      id = replace_text (get "id" tcm) slot.id;
      name = replace_text (get "name" fn) slot.name;
      args = append_text (get "arguments" fn) slot.args;
    }

unfoldable pub take_call : Value → List (ℕ × Slot) → List (ℕ × Slot)
take_call (obj tcm) slots =
    let idx = int_from_any (get "index" tcm) in
    put_slot idx (merge_call tcm (or_empty_slot (slot_at idx slots))) slots
take_call _ slots = slots

unfoldable pub take_calls : Items → List (ℕ × Slot) → List (ℕ × Slot)
take_calls nil slots = slots
take_calls (cons t ts) slots = take_calls ts (take_call t slots)

unfoldable pub take_choice : Value → Collected → Collected
take_choice (obj cm) c =
    let delta = map_of (get "delta" cm) in
    record c {
      content_parts = add_part (get "content" delta) c.content_parts;
      reasoning_parts = add_part (get "reasoning_content" delta) c.reasoning_parts;
      tool_slots = take_calls (items_of (get "tool_calls" delta)) c.tool_slots;
      finish_reason = replace_text (get "finish_reason" cm) c.finish_reason;
    }
take_choice _ c = c

unfoldable pub take_choices : Items → Collected → Collected
take_choices nil c = c
take_choices (cons v vs) c = take_choices vs (take_choice v c)

unfoldable pub take_chunk : Fields → Collected → Collected
take_chunk chunk c =
    take_choices (items_of (get "choices" chunk))
      (record c { usage = take_usage (get "usage" chunk) c.usage })

abbrev pub take_decoded : Option Fields → Collected → Collected
take_decoded none c = c
take_decoded (some chunk) c = take_chunk chunk c

-- What the lines channel gives: it is silent for longer than the TTFT budget, or it has the lines of
-- the body, with the error channel's error behind them.
pub data Arrival : Type 0 where
  late : Arrival
  lines : List String → Option String → Arrival

-- A response; `body` is none where ARead fails.
pub record HttpResponse : Type 0 where
  pub status : ℕ
  pub content_type : String
  pub body : Option String
  pub arrival : Arrival

module _ (decode : String → Option Fields) (short_tool_id : ℕ → String) where
  -- `line[len("data:"):]`, trimmed
  abbrev pub payload_of : String → String
  payload_of line = trim_space (skip_runes 5 line)

  -- processLine: whether the stream is done.
  unfoldable pub process_line : String → Collected → Bool × Collected
  process_line line c =
      if not (has_prefix "data:" line)
      then (false, c)
      else if str_eq (payload_of line) "[DONE]"
      then (true, c)
      else (false, take_decoded (decode (payload_of line)) c)

  unfoldable pub process_lines : List String → Collected → Collected
  process_lines [] c = c
  process_lines (l ∷ ls) c =
      let (done, c') = process_line l c in
      let rest = process_lines ls c' in if done then c' else rest

  unfoldable pub consume_arrival : Arrival → Answer (LlmResponse × Fields)
  consume_arrival late = failed (retryable "TTFT exceeded")
  consume_arrival (lines [] e) = failed (retryable "stream closed before any data")
  consume_arrival (lines ls (some e)) = failed (fatal e)
  consume_arrival (lines ls none) =
      answered (build_response decode short_tool_id (process_lines ls nothing_collected))

  unfoldable pub consume_sse_stream : HttpResponse → Answer (LlmResponse × Fields)
  consume_sse_stream r =
      if contains_folded "text/event-stream" r.content_type
      then consume_arrival r.arrival
      else failed (retryable "expected SSE")
