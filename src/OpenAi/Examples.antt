-- ===== src/OpenAi/Examples.antt =====
-- Runs of the provider's functions.
use exoclaw_go.Prelude.{
  ◌==◌, ℕ, zero, suc, ◌≡◌, ◌≢◌, refl, arith, String, true, false, Option, none, some, List, [], ◌∷◌,
  if◌then◌else◌, str_eq,
}
use exoclaw_go.Prelude.Text.{
  ◌<>◌, has_prefix, trim_space, skip_runes, drop_last, last_is, is_private,
}
use exoclaw_go.Prelude.Folding.{contains_folded}
use exoclaw_go.Json.{Value, float, str, arr, obj, nil, cons, Fields, end, field, get}
use exoclaw_go.Json.Escape.{escape, escape_rune, text_lt}
use exoclaw_go.Json.Print.{
  sort_entries, insert_entry, members, object_text, print_value, print_fields,
}
use exoclaw_go.OpenAi.Body.{
  clean_of, head_of, keep_fields, unclosed, escaped_of, write_chunks, write_backed, write_prefix,
  emit_message, emit_messages, then_write, write_stream_body,
}
use exoclaw_go.OpenAi.Whole.{Emits, body_text, write_stream_body-body_text}
use exoclaw_go.OpenAi.Response.{int_from_any, int_of_float}
use exoclaw_go.OpenAi.Stream.{lines, failed, no_deployment, consume_arrival, consume_sse_stream}
use exoclaw_go.OpenAi.OneShot.{consume_body}
use exoclaw_go.OpenAi.Same.{same_call, no_calls, consume_body-consume_arrival}
use exoclaw_go.OpenAi.Setup.{
  Deployment, Options, StreamingProvider, made, new_streaming_provider, entry_of, bad_fallback,
  first_undeployed,
}
use exoclaw_go.OpenAi.Chat.{
  ChatParams, Request, Posted, connect_error, response, chat, ask, chain_of, chat_once, read_posted,
  read_response, is_retryable_status, is_context_window_error,
}
use exoclaw_go.OpenAi.Fallback.{chat-new_streaming_provider, chat-append}

abbrev call_fields : Fields
call_fields = field "name" (str "read_file") (field "arguments" (str "{}") end)

abbrev message_call : Fields
message_call = field "id" (str "a1") (field "function" (obj call_fields) end)

abbrev delta_call : Fields
delta_call = field "index" (float 0) message_call

abbrev choice : Fields
choice = field "finish_reason" (str "tool_calls") (
    field "message"
      (obj (
        field "content" (str "Reading.")
          (field "tool_calls" (arr (cons (obj message_call) nil)) end)))
      end)

abbrev delta_choice : Fields
delta_choice = field "finish_reason" (str "tool_calls") (
    field "delta"
      (obj (
        field "content" (str "Reading.")
          (field "tool_calls" (arr (cons (obj delta_call) nil)) end)))
      end)

abbrev used : Value
used = obj (field "prompt_tokens" (float 0x4024000000000000) end)

abbrev whole : Fields
whole = field "usage" used (field "choices" (arr (cons (obj choice) nil)) end)

abbrev one_chunk : Fields
one_chunk = field "choices" (arr (cons (obj delta_choice) nil)) (field "usage" used end)

-- The texts "W" and "C" stand for the two answers.
abbrev decode_test : String → Option Fields
decode_test t = if str_eq t "W" then some whole else if str_eq t "C" then some one_chunk else none

abbrev drawn_id : ℕ → String
drawn_id n = "drawn"

consume_body-consume_arrival_example :
    consume_body decode_test drawn_id (some "W")
    ≡ consume_arrival decode_test drawn_id (lines ("data: C" ∷ "data: [DONE]" ∷ []) none)
unfolding has_prefix trim_space skip_runes get int_from_any int_of_float
consume_body-consume_arrival_example =
    consume_body-consume_arrival decode_test drawn_id "W" "data: C" whole one_chunk choice
      delta_choice refl refl refl refl refl refl refl
      (refl, refl, refl, same_call refl refl refl no_calls)

abbrev deployment : Deployment
deployment = record {
  base_url = "https://api.example.com/v1/";
  api_key = "key";
  extra_headers = [];
  extra_body = end;
}

abbrev options : Options
options = record {
  default_model = "large";
  deployments = ("large", deployment) ∷ ("small", deployment) ∷ [];
  fallbacks = ("large", "small" ∷ []) ∷ [];
  request_timeout = 0;
  stream_ttft_timeout = 0;
  has_client = false;
}

abbrev provider : StreamingProvider
provider = record {
  default_model = "large";
  deployments = ("large", deployment) ∷ ("small", deployment) ∷ [];
  fallbacks = ("large", "small" ∷ []) ∷ [];
  request_timeout = 120000000000;
  stream_ttft_timeout = 15000000000;
  has_client = true;
  owns_client = true;
}

abbrev params : ChatParams
params = record {
  tools = nil;
  model = "";
  max_tokens = 0;
  temperature = 0;
  reasoning_effort = "";
  response_format = none;
  stream = none;
}

-- The first request cannot connect, and all others are answered with a stream.
abbrev network : ℕ → Request → Posted
network zero r = connect_error "refused"
network (suc n) r = response (record {
  status = 200;
  content_type = "Text/Event-Stream";
  body = none;
  arrival = lines ("data: C" ∷ []) none;
})

made_example : new_streaming_provider options ≡ made provider
unfolding new_streaming_provider bad_fallback first_undeployed entry_of
made_example = refl

chat-new_streaming_provider_example :
    chat decode_test drawn_id network provider [] params ≢ failed (no_deployment "small")
chat-new_streaming_provider_example =
    chat-new_streaming_provider decode_test drawn_id network options provider [] params "small"
      made_example (λ e. absurd (ground (arith, e)))

chat-append_example :
    chat decode_test drawn_id network provider [] params
    ≡ ask decode_test drawn_id network provider 1 [] params "small"
unfolding chain_of entry_of chat_once read_posted read_response consume_sse_stream
    is_retryable_status contains_folded consume_arrival is_context_window_error
chat-append_example =
    chat-append decode_test drawn_id network provider [] params ("large" ∷ []) [] "small" refl
      (refl, tt) refl

abbrev float_text : ℕ → Option String
float_text bits = some "0.7"

-- Three signs of ASCII as they are, and any other byte as U+FFFD.
abbrev byte_text : ℕ → String
byte_text b = if b == 34 then "\"" else if b == 104 then "h" else if b == 105 then "i" else "�"

abbrev block_text : List ℕ → String
block_text [] = ""
block_text (b ∷ bs) = byte_text b <> block_text bs

-- The reads of the second message's file cut the two bytes of its last sign.
abbrev file : String → Option (List (List ℕ))
file path =
    if str_eq path "big.txt" then some ((34 ∷ 104 ∷ 105 ∷ 195 ∷ []) ∷ (169 ∷ []) ∷ []) else none

abbrev sent : List Fields
sent =
    field "role" (str "user") (field "content" (str "hello") end)
    ∷ field "role" (str "tool")
        (field "content" (str "preview") (field "_content_file" (str "big.txt") end))
    ∷ []

write_stream_body-body_text_example :
    Emits
      (body_text float_text block_text file
        (field "model" (str "large") (field "temperature" (float 0) end))
        sent)
      (write_stream_body float_text block_text file
        (field "model" (str "large") (field "temperature" (float 0) end))
        sent)
unfolding last_is
write_stream_body-body_text_example =
    write_stream_body-body_text float_text block_text file
      (field "model" (str "large") (field "temperature" (float 0) end)) sent (λ bits. refl)

body_example :
    write_stream_body float_text block_text file (field "model" (str "large") end) sent ≡ (
      "{\"model\":\"large\",\"messages\":[{\"content\":\"hello\",\"role\":\"user\"},{\"role\":\"tool\",\"content\":\"\\\"hi��\"}]}",
      true,
    )
unfolding write_stream_body emit_messages emit_message then_write clean_of head_of keep_fields
    unclosed write_backed write_prefix write_chunks escaped_of print_value print_fields object_text
    members sort_entries insert_entry escape escape_rune text_lt is_private last_is drop_last
    trim_space skip_runes get
body_example = refl

-- A float that JSON does not have, in the second message: the first is written all the same.
failed_example :
    write_stream_body
      (λ bits. none)
      block_text
      file
      end
      (field "role" (str "user") end ∷ field "x" (float 0) end ∷ [])
    ≡ ("{\"messages\":[{\"role\":\"user\"},", false)
unfolding write_stream_body emit_messages emit_message then_write clean_of keep_fields unclosed
    write_prefix print_value print_fields object_text members sort_entries insert_entry escape
    escape_rune text_lt is_private last_is drop_last get
failed_example = refl
