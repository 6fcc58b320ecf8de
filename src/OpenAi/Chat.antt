-- ===== src/OpenAi/Chat.antt =====
-- Chat, chatOnce and what they call in providers/openai/provider.go. The log is left out.
use exoclaw_go.Prelude.{
  ℕ, suc, String, Bool, true, false, not, ◌&&◌, ◌||◌, Option, none, some, List, [], ◌∷◌, ◌++◌,
  if◌then◌else◌, leb, ◌==◌,
}
use exoclaw_go.Prelude.Text.{◌<>◌, is_empty, trim_slashes}
use exoclaw_go.Prelude.Folding.{contains_folded}
use exoclaw_go.Prelude.Words.{slt}
use exoclaw_go.Json.{
  Value, null, boolean, int, float, str, obj, maps, Items, nil, cons, Fields, end, field, get, put,
}
use exoclaw_go.Providers.{LlmResponse}
use exoclaw_go.OpenAi.Stream.{
  ChatError, retryable, context_window_exceeded, fatal, no_deployment, Answer, answered, failed,
  HttpResponse, consume_sse_stream,
}
use exoclaw_go.OpenAi.OneShot.{consume_one_shot}
use exoclaw_go.OpenAi.Setup.{Deployment, StreamingProvider, entry_of, is_some}
use exoclaw_go.OpenAi.Format.{ResponseFormat, put_if_any, encode_response_format}

pub record ChatParams : Type 0 where
  pub tools : Items
  pub model : String
  pub max_tokens : ℕ
  pub temperature : ℕ
  pub reasoning_effort : String
  pub response_format : Option ResponseFormat
  pub stream : Option Bool

-- What StreamPost is called with; `head` and `messages` make the body.
pub record Request : Type 0 where
  pub url : String
  pub headers : List (String × String)
  pub head : Fields
  pub messages : List Fields
  pub timeout : ℕ

pub data Posted : Type 0 where
  connect_error read_timeout write_timeout other_error : String → Posted
  response : HttpResponse → Posted

unfoldable pub url_of : Deployment → String
url_of d = trim_slashes d.base_url <> "/chat/completions"

unfoldable pub add_headers :
    List (String × String) → List (String × String) → List (String × String)
add_headers [] headers = headers
add_headers (e ∷ es) headers =
    let kept = add_headers es headers in
    let added = add_headers es (headers ++ e ∷ []) in
    if is_some (entry_of e.0 headers) then kept else added

unfoldable pub build_headers : Deployment → List (String × String)
build_headers d =
    add_headers d.extra_headers
      (("Authorization", "Bearer " <> d.api_key) ∷ ("Content-Type", "application/json") ∷ [])

unfoldable pub add_extra : Fields → Fields → Fields
add_extra end head = head
add_extra (field k v fs) head = add_extra fs (put_if_any (not (is_some (get k head))) k v head)

abbrev has_items : Items → Bool
has_items nil = false
has_items (cons v vs) = true

abbrev pub streams : ChatParams → Bool
streams params = elim params.stream [ none ↦ true | some b ↦ b ]

-- max_tokens and temperature with their defaults; 0.7 is a word of bits, and so is the zero of either sign.
abbrev max_tokens_of : ℕ → ℕ
max_tokens_of n = if slt 0 n then n else 4096

abbrev temperature_of : ℕ → ℕ
temperature_of bits = if bits == 0 || bits == 0x8000000000000000 then 0x3fe6666666666666 else bits

abbrev format_value : Option Fields → Value
format_value none = null
format_value (some fs) = obj fs

abbrev add_format : Option ResponseFormat → Fields → Fields
add_format none head = head
add_format (some rf) head = put "response_format" (format_value (encode_response_format rf)) head

-- bodyHead of chatOnce.
unfoldable pub body_head : Deployment → String → ChatParams → Fields
body_head d model params =
    let base = field "model" (str model) (
      field "max_tokens" (int (max_tokens_of params.max_tokens)) (
        field "temperature" (float (temperature_of params.temperature))
          (field "stream" (boolean (streams params)) end))) in
    let streamed =
      put_if_any (streams params) "stream_options" (obj (field "include_usage" (boolean true) end))
        base in
    let tooled =
      put_if_any (has_items params.tools) "tool_choice" (str "auto")
        (put_if_any (has_items params.tools) "tools" (maps params.tools) streamed) in
    let reasoned =
      put_if_any (not (is_empty params.reasoning_effort)) "reasoning_effort"
        (str params.reasoning_effort) tooled in
    add_extra d.extra_body (add_format params.response_format reasoned)

-- retryableStatus
unfoldable pub is_retryable_status : ℕ → Bool
is_retryable_status s =
    s == 408 || s == 425 || s == 429 || s == 500 || s == 502 || s == 503 || s == 504

unfoldable pub is_context_window_error : Option String → Bool
is_context_window_error none = false
is_context_window_error (some body) =
    contains_folded "context_length_exceeded" body || contains_folded "context window" body

unfoldable pub build_request :
    StreamingProvider → Deployment → String → List Fields → ChatParams → Request
build_request p d model messages params = record {
  url = url_of d;
  headers = build_headers d;
  head = body_head d model params;
  messages = messages;
  timeout = p.request_timeout;
}

-- p.fallbacks[resolved]
abbrev pub chain_behind : Option (List String) → List String
chain_behind none = []
chain_behind (some ms) = ms

-- The chain of Chat: the model and its fallbacks.
unfoldable pub chain_of : StreamingProvider → ChatParams → List String
chain_of p params =
    let resolved = if is_empty params.model then p.default_model else params.model in
    resolved ∷ chain_behind (entry_of resolved p.fallbacks)

-- `post n` is StreamPost as the n-th request of the provider finds the network.
module _ (decode : String → Option Fields) (short_tool_id : ℕ → String)
    (post : ℕ → Request → Posted) where
  -- What chatOnce makes of a response, by its status.
  unfoldable pub read_response : Bool → HttpResponse → Answer (LlmResponse × Fields)
  read_response stream r =
      if is_retryable_status r.status
      then failed (retryable "status")
      else if r.status == 400 && is_context_window_error r.body
      then failed (context_window_exceeded "Prompt exceeds model context window")
      else if leb 400 r.status
      then failed (fatal "status")
      else if stream
      then consume_sse_stream decode short_tool_id r
      else consume_one_shot decode short_tool_id r

  unfoldable pub read_posted : Bool → Posted → Answer (LlmResponse × Fields)
  read_posted stream (connect_error e) = failed (retryable "connect error")
  read_posted stream (read_timeout e) = failed (retryable "read timeout")
  read_posted stream (write_timeout e) = failed (retryable "write timeout")
  read_posted stream (other_error e) = failed (fatal e)
  read_posted stream (response r) = read_response stream r

  unfoldable pub chat_once :
      StreamingProvider
      → ℕ
      → Deployment
      → String
      → List Fields
      → ChatParams
      → Answer (LlmResponse × Fields)
  chat_once p n d model messages params =
      read_posted (streams params) (post n (build_request p d model messages params))

  -- A try of one candidate, if it has a deployment.
  abbrev pub try_once :
      StreamingProvider
      → ℕ
      → String
      → List Fields
      → ChatParams
      → Option Deployment
      → Answer (LlmResponse × Fields)
  try_once p n model messages params none = failed (no_deployment model)
  try_once p n model messages params (some d) = chat_once p n d model messages params

  -- The try of a model by its name.
  abbrev pub ask :
      StreamingProvider → ℕ → List Fields → ChatParams → String → Answer (LlmResponse × Fields)
  ask p n messages params m = try_once p n m messages params (entry_of m p.deployments)

  -- The error stays, unless the chain goes on behind a retryable one.
  abbrev pub or_next :
      Answer (LlmResponse × Fields)
      → (ChatError → Answer (LlmResponse × Fields))
      → Answer (LlmResponse × Fields)
  or_next (failed (retryable e)) next = next (retryable e)
  or_next (failed (context_window_exceeded e)) next = failed (context_window_exceeded e)
  or_next (failed (fatal e)) next = failed (fatal e)
  or_next (failed (no_deployment e)) next = failed (no_deployment e)
  or_next (answered r) next = answered r

  -- The loop of Chat over the chain, behind the last error.
  unfoldable pub chat_chain :
      StreamingProvider
      → ℕ
      → List String
      → List Fields
      → ChatParams
      → Option ChatError
      → Answer (LlmResponse × Fields)
  chat_chain p n [] messages params none = failed (fatal "chat: empty fallback chain")
  chat_chain p n [] messages params (some e) = failed e
  chat_chain p n (m ∷ ms) messages params last =
      or_next (ask p n messages params m) (λ e. chat_chain p (suc n) ms messages params (some e))

  unfoldable pub chat : StreamingProvider → List Fields → ChatParams → Answer (LlmResponse × Fields)
  chat p messages params = chat_chain p 0 (chain_of p params) messages params none

  -- SendStreamingBody, where `posted` is what StreamPost gives for the caller's body.
  abbrev text_or_empty : Option String → String
  text_or_empty none = ""
  text_or_empty (some t) = t

  abbrev only_content : Answer (LlmResponse × Fields) → Answer String
  only_content (answered r) = answered (text_or_empty r.0.content)
  only_content (failed e) = failed e

  unfoldable pub read_sent : Posted → Answer String
  read_sent (connect_error e) = failed (fatal e)
  read_sent (read_timeout e) = failed (fatal e)
  read_sent (write_timeout e) = failed (fatal e)
  read_sent (other_error e) = failed (fatal e)
  read_sent (response r) =
      if leb 400 r.status
      then failed (fatal "status")
      else only_content (consume_sse_stream decode short_tool_id r)

  abbrev sent_to :
      String → (String → List (String × String) → Posted) → Option Deployment → Answer String
  sent_to model posted none = failed (no_deployment model)
  sent_to model posted (some d) = read_sent (posted (url_of d) (build_headers d))

  unfoldable pub send_streaming_body :
      StreamingProvider → String → (String → List (String × String) → Posted) → Answer String
  send_streaming_body p model posted = sent_to model posted (entry_of model p.deployments)
