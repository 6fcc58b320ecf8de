-- ===== src/OpenAi/Whole.antt =====
-- writeStreamBody of providers/openai/provider.go against the text of an object with all of its members.
use std.Path.{subst}
use exoclaw_go.Prelude.{
  true, false, arith, ℕ, ◌≡◌, refl, ap, ap₂, ◌∙◌, sym, String, Option, none, some, List, [], ◌∷◌,
  ◌++◌, All, if◌then◌else◌,
}
use exoclaw_go.Prelude.Text.{◌<>◌, is_empty}
use exoclaw_go.Json.{Value, Fields, get, str_of}
use exoclaw_go.Json.Escape.{escape_rune, escape, quote}
use exoclaw_go.Json.Print.{
  Entry, sort_entries, map₂, map_some, with_text, members, object_text, elements, array_text,
  print_fields, print_value, marshal,
}
use exoclaw_go.Json.Members.{
  IsClosedEntry, IsClosedIfAny, AreClosedIfAny, print_fields-AreClosed, sort_entries-AreClosed,
}
use exoclaw_go.OpenAi.Body.{
  clean_of, head_of, unclosed, write_backed, write_prefix, and_then, Output, then_write, or_error,
  or_failed, enclose, texts_of, emit_message, emit_messages, write_stream_body,
}
use exoclaw_go.OpenAi.BodyText.{
  content_of, write_file_content-escape, behind, unclosed-object_text, object_text-append,
  separator_of, write_prefix-members,
}
use text.Mathlib.TextLemmas.{append_assoc}

-- The object of a message that names a file: the content stands last, as one string.
abbrev backed_text : Option (List String) → Option Value → List Entry → String
backed_text chunks content es =
    object_text (sort_entries es ++ ("content", quote (content_of chunks content)) ∷ [])

abbrev object_with_messages : List Entry → List String → String
object_with_messages es ts = object_text (sort_entries es ++ ("messages", array_text ts) ∷ [])

module _ (float_text : ℕ → Option String) (block_text : List ℕ → String)
    (file : String → Option (List (List ℕ))) where
  abbrev pub message_text : Fields → Option String
  message_text msg =
      if is_empty (str_of (get "_content_file" msg))
      then marshal float_text (clean_of msg)
      else map_some
          (backed_text (texts_of float_text block_text file (str_of (get "_content_file" msg)))
            (get "content" msg))
          (print_fields float_text (head_of msg))

  abbrev pub message_texts : List Fields → Option (List String)
  message_texts [] = some []
  message_texts (m ∷ ms) = map₂ with_text (message_text m) (message_texts ms)

  -- The text of the object that has the members of the head and, last, the messages.
  abbrev pub body_text : Fields → List Fields → Option String
  body_text head messages =
      map₂ object_with_messages (print_fields float_text head) (message_texts messages)

flatten :
    (a b c x d e : String) → (a <> (b <> (c <> (x <> d)))) <> e ≡ ((a <> b) <> c) <> (x <> (d <> e))
flatten a b c x d e = simp append_assoc refl

regroup : (a b c d : String) → (a <> (b <> c)) <> d ≡ a <> (b <> (c <> d))
regroup a b c d = simp append_assoc refl

write_backed-object :
    (chunks : Option (List String)) (content : Option Value) (es : List Entry)
    → write_backed chunks content ("{" <> members "" es)
      ≡ object_text (es ++ ("content", quote (content_of chunks content)) ∷ [])
unfolding write_backed escape escape_rune
write_backed-object chunks content es =
    let text = escape (content_of chunks content) in
    ap₂ (λ s t. ("{" <> members "" es) <> (s <> ("\"content\":\"" <> (t <> "\"}"))))
      (separator_of es) (write_file_content-escape chunks content)
    ∙ ap (λ s. ("{" <> members "" es) <> (behind "" es <> s))
        (sym (flatten "\"content\"" ":" "\"" text "\"" "}"))
    ∙ sym (object_text-append es "content" (quote (content_of chunks content)))

write_whole-object :
    (es : List Entry) (ts : List String)
    → All IsClosedEntry es
    → write_prefix ("{" <> members "" es) <> (elements "" ts <> "]}")
      ≡ object_text (es ++ ("messages", array_text ts) ∷ [])
unfolding array_text escape escape_rune
write_whole-object es ts h =
    ap (λ s. s <> (elements "" ts <> "]}")) (write_prefix-members es h)
    ∙ regroup ("{" <> members "" es) (behind "" es) "\"messages\":[" (elements "" ts <> "]}")
    ∙ ap (λ s. ("{" <> members "" es) <> (behind "" es <> s))
        (sym (flatten "\"messages\"" ":" "[" (elements "" ts) "]" "}"))
    ∙ sym (object_text-append es "messages" (array_text ts))

unclosed-marshal :
    {B : Type 0} (f : String → B) (o : Option (List Entry))
    → map_some f (and_then (map_some (λ es. object_text (sort_entries es)) o) unclosed)
      ≡ map_some (λ es. f ("{" <> members "" (sort_entries es))) o
unclosed-marshal f none = refl
unclosed-marshal f (some es) = ap (map_some f) (unclosed-object_text (sort_entries es))

write_backed-backed_text :
    (chunks : Option (List String)) (content : Option Value) (o : Option (List Entry))
    → map_some (λ es. write_backed chunks content ("{" <> members "" (sort_entries es))) o
      ≡ map_some (backed_text chunks content) o
write_backed-backed_text chunks content none = refl
write_backed-backed_text chunks content (some es) =
    ap some (write_backed-object chunks content (sort_entries es))

-- The code writes a text without an error where there is one, and returns an error where there is none.
abbrev pub Emits : Option String → Output → Type 0
Emits none out = out.1 ≡ false
Emits (some text) out = out ≡ (text, true)

or_error-Emits : (o : Option String) → Emits o (or_error o)
or_error-Emits none = refl
or_error-Emits (some text) = refl

then_write-Emits :
    (separator : String) (o : Option String) (os : Option (List String)) (rest : Output)
    → Emits (map_some (elements ",") os) rest
    → Emits
        (map_some (elements separator) (map₂ with_text o os))
        (then_write (then_write (separator, true) (or_error o)) rest)
unfolding then_write elements
then_write-Emits separator none os rest h = refl
then_write-Emits separator (some t) none rest h = h
then_write-Emits separator (some t) (some ts) rest h =
    ap (λ (out : Output). ((separator <> t) <> out.0, out.1)) h
    ∙ ap (λ text. (text, true)) (append_assoc separator t (elements "," ts))

enclose-failed :
    (messages : Output) (before : String) → messages.1 ≡ false → (enclose messages before).1 ≡ false
unfolding then_write
enclose-failed (text, false) before h = refl
enclose-failed (text, true) before h = absurd (ground arith)

enclose-whole :
    (text before : String) → enclose (text, true) before ≡ (before <> (text <> "]}"), true)
unfolding then_write
enclose-whole text before = ap (λ t. (t, true)) (append_assoc before text "]}")

enclose-Emits :
    (o : Option (List Entry)) (os : Option (List String)) (messages : Output)
    → AreClosedIfAny o
    → Emits (map_some (elements "") os) messages
    → Emits (map₂ object_with_messages o os) (
        or_failed (
          map_some (λ es. enclose messages (write_prefix ("{" <> members "" (sort_entries es)))) o))
enclose-Emits none os messages h k = refl
enclose-Emits (some es) none messages h k =
    enclose-failed messages (write_prefix ("{" <> members "" (sort_entries es))) k
enclose-Emits (some es) (some ts) messages h k =
    let before = write_prefix ("{" <> members "" (sort_entries es)) in
    ap (λ out. enclose out before) k
    ∙ enclose-whole (elements "" ts) before
    ∙ ap (λ t. (t, true)) (write_whole-object (sort_entries es) ts (sort_entries-AreClosed es h))

module _ (float_text : ℕ → Option String) (block_text : List ℕ → String)
    (file : String → Option (List (List ℕ))) where
  emit_message-text :
      (msg : Fields)
      → emit_message float_text block_text file msg
        ≡ or_error (message_text float_text block_text file msg)
  unfolding emit_message print_value
  emit_message-text msg =
      let path = str_of (get "_content_file" msg) in
      let texts = texts_of float_text block_text file path in
      let content = get "content" msg in
      ap (λ o. or_error (if is_empty path then marshal float_text (clean_of msg) else o))
        (unclosed-marshal (write_backed texts content) (print_fields float_text (head_of msg))
          ∙ write_backed-backed_text texts content (print_fields float_text (head_of msg)))

  emit_messages-Emits :
      (separator : String) (ms : List Fields)
      → Emits
          (map_some (elements separator) (message_texts float_text block_text file ms))
          (emit_messages float_text block_text file separator ms)
  unfolding emit_messages elements
  emit_messages-Emits separator [] = refl
  emit_messages-Emits separator (m ∷ ms) =
      let texts = message_texts float_text block_text file (m ∷ ms) in
      subst
        (λ out. Emits (map_some (elements separator) texts) (
          then_write (then_write (separator, true) out)
            (emit_messages float_text block_text file "," ms)))
        (sym (emit_message-text m))
        (then_write-Emits separator (message_text float_text block_text file m)
          (message_texts float_text block_text file ms) _ (emit_messages-Emits "," ms))

  -- Where json.Marshal fails for no part, the body that is written in pieces is the text of one
  -- object, which has the members of the head and then the messages, and of a message that names a
  -- file the texts of the blocks that were read, one behind the other, as one string. Where it fails
  -- for a part, an error is returned; nothing is said of what was written before. No float is printed
  -- with an opening brace at its end.
  pub write_stream_body-body_text :
      (head : Fields) (messages : List Fields)
      → ((bits : ℕ) → IsClosedIfAny (float_text bits))
      → Emits
          (body_text float_text block_text file head messages)
          (write_stream_body float_text block_text file head messages)
  unfolding write_stream_body print_value
  write_stream_body-body_text head messages closed =
      let es = print_fields float_text head in
      let ms = emit_messages float_text block_text file "" messages in
      let texts = message_texts float_text block_text file messages in
      subst (λ o. Emits (map₂ object_with_messages es texts) (or_failed o))
        (sym (unclosed-marshal (λ prefix. enclose ms (write_prefix prefix)) es))
        (enclose-Emits es texts ms (print_fields-AreClosed float_text closed head)
          (emit_messages-Emits "" messages))
