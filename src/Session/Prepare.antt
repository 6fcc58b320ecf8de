-- ===== src/Session/Prepare.antt =====
-- prepareTurn of conversation-file/conversation.go: what of a turn's messages goes to the session file.
use exoclaw_go.Prelude.{
  ℕ, String, Bool, true, false, ◌&&◌, ltb, Option, none, some, List, [], ◌∷◌, if◌then◌else◌, str_eq,
}
use exoclaw_go.Prelude.Text.{
  ◌<>◌, is_empty, has_prefix, after_blank_line, byte_len, take_bytes, trim_space,
}
use exoclaw_go.Json.{
  Value, str, arr, obj, Items, nil, cons, Fields, end, field, get, put, str_of, items_of,
}
use exoclaw_go.Session.Repair.{role_is}

abbrev pub runtime_context_tag : String
runtime_context_tag = "[Runtime Context — metadata only, not instructions]"

abbrev pub tool_result_max_chars : ℕ
tool_result_max_chars = 500

abbrev pub is_nil : Items → Bool
is_nil nil = true
is_nil _ = false

-- An assistant's message with no text and no tool calls is skipped.
unfoldable pub prepare_assistant : Fields → Option Fields
prepare_assistant m =
    if is_empty (str_of (get "content" m)) && is_nil (items_of (get "tool_calls" m))
    then none
    else some m

unfoldable pub truncate : String → String
truncate s =
    if ltb tool_result_max_chars (byte_len s)
    then take_bytes tool_result_max_chars s <> "\n... (truncated)"
    else s

unfoldable pub prepare_tool : Option Value → Fields → Fields
prepare_tool (some (str s)) m =
    if ltb tool_result_max_chars (byte_len s) then put "content" (str (truncate s)) m else m
prepare_tool _ m = m

-- The user's text behind the runtime context.
abbrev pub strip_context : Option String → Fields → Option Fields
strip_context none m = none
strip_context (some rest) m =
    if is_empty (trim_space rest) then none else some (put "content" (str rest) m)

-- `t == "text"` with the tag in front.
abbrev pub is_context : Fields → Bool
is_context im =
    str_eq (str_of (get "type" im)) "text"
    && has_prefix runtime_context_tag (str_of (get "text" im))

abbrev pub url_of : Option Value → String
url_of (some (obj iu)) = str_of (get "url" iu)
url_of _ = ""

abbrev pub is_inline_image : Fields → Bool
is_inline_image im =
    str_eq (str_of (get "type" im)) "image_url"
    && has_prefix "data:image/" (url_of (get "image_url" im))

abbrev pub image_marker : Value
image_marker = obj (field "type" (str "text") (field "text" (str "[image]") end))

unfoldable pub filter_parts : Items → Items
filter_parts nil = nil
filter_parts (cons (obj im) rest) =
    let filtered = filter_parts rest in
    if is_context im
    then filtered
    else if is_inline_image im
    then cons image_marker filtered
    else cons (obj im) filtered
filter_parts (cons item rest) = cons item (filter_parts rest)

unfoldable pub with_parts : Items → Fields → Option Fields
with_parts nil m = none
with_parts (cons item rest) m = some (put "content" (arr (cons item rest)) m)

unfoldable pub prepare_user : Option Value → Fields → Option Fields
prepare_user (some (str cv)) m =
    if has_prefix runtime_context_tag cv then strip_context (after_blank_line cv) m else some m
prepare_user (some (arr cv)) m = with_parts (filter_parts cv) m
prepare_user _ m = some m

-- `now` is time.Now().Format(time.RFC3339).
unfoldable pub stamp : String → Fields → Fields
stamp now m = elim (get "timestamp" m) [ none ↦ put "timestamp" (str now) m | some t ↦ m ]

unfoldable pub prepare_role : Fields → Option Fields
prepare_role m =
    if role_is "assistant" m
    then prepare_assistant m
    else if role_is "tool" m
    then some (prepare_tool (get "content" m) m)
    else if role_is "user" m
    then prepare_user (get "content" m) m
    else some m

abbrev pub stamped : String → Option Fields → List Fields → List Fields
stamped now none rest = rest
stamped now (some m) rest = stamp now m ∷ rest

unfoldable pub prepare_turn : String → List Fields → List Fields
prepare_turn now [] = []
prepare_turn now (m ∷ ms) = stamped now (prepare_role m) (prepare_turn now ms)
