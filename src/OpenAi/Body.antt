-- ===== src/OpenAi/Body.antt =====
-- writeStreamBody and emitMessage of providers/openai/provider.go: what they write, and whether they end
-- without an error. The writes themselves do not fail. `file` has the blocks of bytes that the reads of
-- a file give until they end or fail, or none where it does not open, and `block_text` is the text
-- that json.Marshal reads in the bytes of one block.
use exoclaw_go.Prelude.{
  ℕ, String, Bool, not, ◌&&◌, ◌||◌, Option, none, some, List, [], ◌∷◌, map, true, false,
  if◌then◌else◌, str_eq,
}
use exoclaw_go.Prelude.Text.{◌<>◌, is_empty, is_private, trim_space, skip_runes, drop_last, last_is}
use exoclaw_go.Json.{Value, str, Fields, end, field, get, str_of}
use exoclaw_go.Json.Escape.{quote}
use exoclaw_go.Json.Print.{marshal, map_some}

unfoldable pub keep_fields : (String → Bool) → Fields → Fields
keep_fields p end = end
keep_fields p (field k v fs) = let rest = keep_fields p fs in if p k then field k v rest else rest

unfoldable pub clean_of : Fields → Fields
clean_of msg = keep_fields (λ k. not (is_private k)) msg

unfoldable pub head_of : Fields → Fields
head_of msg = keep_fields (λ k. not (str_eq k "content") && not (is_private k)) msg

-- A text without its closing brace, if it ends with one.
unfoldable pub unclosed : String → Option String
unclosed t = if is_empty t || not (last_is "}" t) then none else some (drop_last t)

-- escaped[1 : len(escaped)-1]
unfoldable pub escaped_of : String → String
escaped_of s = drop_last (skip_runes 1 (quote s))

unfoldable pub write_chunks : List String → String
write_chunks [] = ""
write_chunks (c ∷ cs) = escaped_of c <> write_chunks cs

abbrev pub fallback_of : Option Value → String
fallback_of (some (str s)) = if is_empty s then "" else escaped_of s
fallback_of _ = ""

abbrev pub write_file_content : Option (List String) → Option Value → String
write_file_content none content = fallback_of content
write_file_content (some chunks) content = write_chunks chunks

unfoldable pub write_backed : Option (List String) → Option Value → String → String
write_backed chunks content prefix =
    prefix
    <> ((if str_eq (trim_space prefix) "{" then "" else ",")
        <> ("\"content\":\"" <> (write_file_content chunks content <> "\"}")))

-- What stands before the messages.
unfoldable pub write_prefix : String → String
write_prefix prefix =
    if not (is_empty prefix) && not (last_is "{" prefix)
    then prefix <> ",\"messages\":["
    else "{\"messages\":["

abbrev pub and_then {ℓ} : {A B : Type ℓ} → Option A → (A → Option B) → Option B
and_then none f = none
and_then (some a) f = f a

-- The text written, and `false` behind an error.
abbrev pub Output : Type 0
Output = String × Bool

-- What is written behind an error is nothing.
unfoldable pub then_write : Output → Output → Output
then_write (text, false) out = (text, false)
then_write (text, true) out = (text <> out.0, out.1)

abbrev pub or_error : Option String → Output
or_error none = ("", false)
or_error (some text) = (text, true)

abbrev pub or_failed : Option Output → Output
or_failed none = ("", false)
or_failed (some out) = out

-- The messages between what stands before and behind them.
abbrev pub enclose : Output → String → Output
enclose messages before = then_write (then_write (before, true) messages) ("]}", true)

module _ (float_text : ℕ → Option String) (block_text : List ℕ → String)
    (file : String → Option (List (List ℕ))) where
  abbrev pub texts_of : String → Option (List String)
  texts_of path = map_some (map block_text) (file path)

  unfoldable pub emit_message : Fields → Output
  emit_message msg =
      let path = str_of (get "_content_file" msg) in
      or_error (
        if is_empty path
        then marshal float_text (clean_of msg)
        else map_some (write_backed (texts_of path) (get "content" msg))
            (and_then (marshal float_text (head_of msg)) unclosed))

  -- The loop over the messages, each behind a comma but the first.
  unfoldable pub emit_messages : String → List Fields → Output
  emit_messages separator [] = ("", true)
  emit_messages separator (m ∷ ms) =
      then_write (then_write (separator, true) (emit_message m)) (emit_messages "," ms)

  unfoldable pub write_stream_body : Fields → List Fields → Output
  write_stream_body head messages = or_failed (
      map_some (λ prefix. enclose (emit_messages "" messages) (write_prefix prefix))
        (and_then (marshal float_text head) unclosed))
