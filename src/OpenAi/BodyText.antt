-- ===== src/OpenAi/BodyText.antt =====
-- What writeStreamBody of providers/openai/provider.go writes is the text of one JSON object.
use exoclaw_go.Prelude.{
  ◌≡◌, refl, ap, ap₂, ◌∙◌, sym, String, Bool, Option, none, some, List, [], ◌∷◌, ◌++◌, All,
  if◌then◌else◌, str_eq,
}
use exoclaw_go.Prelude.Text.{◌<>◌, trim_space, last_is, drop_last-append}
use exoclaw_go.Json.{Value, str_of}
use exoclaw_go.Json.Escape.{escape, quote}
use exoclaw_go.Json.Print.{Entry, member_text, members, object_text}
use exoclaw_go.Json.Closed.{
  IsClosed, IsClosed-append, quote-IsClosed, is_empty-append, last_is-append,
}
use exoclaw_go.Json.Members.{IsClosedEntry}
use exoclaw_go.OpenAi.Response.{join}
use exoclaw_go.OpenAi.Body.{unclosed, write_chunks, write_file_content, write_prefix}
use exoclaw_go.OpenAi.Escaping.{
  escape-append, escaped_of-escape, fallback_of-escape, is_empty-member, trim_space-member,
}
use text.Mathlib.TextLemmas.{nil-append, append-nil, append_assoc}

-- The content of a message that names a file: the blocks of the file, or the content in the message.
abbrev pub content_of : Option (List String) → Option Value → String
content_of none content = str_of content
content_of (some chunks) content = join chunks

write_chunks-escape : (chunks : List String) → write_chunks chunks ≡ escape (join chunks)
unfolding write_chunks join escape
write_chunks-escape [] = refl
write_chunks-escape (c ∷ cs) =
    ap₂ (λ s t. s <> t) (escaped_of-escape c) (write_chunks-escape cs)
    ∙ sym (escape-append c (join cs))

pub write_file_content-escape :
    (chunks : Option (List String)) (content : Option Value)
    → write_file_content chunks content ≡ escape (content_of chunks content)
write_file_content-escape none content = fallback_of-escape content
write_file_content-escape (some chunks) content = write_chunks-escape chunks

-- The separator behind some members.
abbrev pub behind : String → List Entry → String
behind separator [] = separator
behind separator (e ∷ es) = ","

behind-comma : (es : List Entry) → behind "," es ≡ ","
behind-comma [] = refl
behind-comma (e ∷ es) = refl

regroup : (a b c d : String) → a <> (b <> (c <> d)) ≡ (a <> (b <> c)) <> d
regroup a b c d = simp append_assoc refl

members-append :
    (separator : String) (es : List Entry) (e : Entry)
    → members separator (es ++ e ∷ [])
      ≡ members separator es <> (behind separator es <> member_text e)
unfolding members
members-append separator [] e =
    ap (λ t. separator <> t) (append-nil (member_text e))
    ∙ sym (nil-append (separator <> member_text e))
members-append separator (f ∷ fs) e =
    let rest =
      members-append "," fs e
      ∙ ap (λ s. members "," fs <> (s <> member_text e)) (behind-comma fs) in
    ap (λ t. separator <> (member_text f <> t)) rest
    ∙ regroup separator (member_text f) (members "," fs) ("," <> member_text e)

unclosed-append : (s : String) → unclosed (s <> "}") ≡ some s
unfolding unclosed last_is
unclosed-append s =
    rw (is_empty-append s "}" refl, last_is-append "}" s "}" refl, drop_last-append s "}") refl

pub unclosed-object_text :
    (es : List Entry) → unclosed (object_text es) ≡ some ("{" <> members "" es)
unfolding object_text
unclosed-object_text es =
    ap unclosed (sym (append_assoc "{" (members "" es) "}"))
    ∙ unclosed-append ("{" <> members "" es)

-- Members that stand behind others, with the separator that the program writes.
pub object_text-append :
    (es : List Entry) (k t : String)
    → object_text (es ++ (k, t) ∷ [])
      ≡ ("{" <> members "" es) <> (behind "" es <> ((quote k <> (":" <> t)) <> "}"))
unfolding object_text
object_text-append es k t =
    ap (λ s. "{" <> (s <> "}")) (members-append "" es (k, t)) ∙ simp append_assoc refl

pub separator_of :
    (es : List Entry)
    → (if str_eq (trim_space ("{" <> members "" es)) "{" then "" else ",") ≡ behind "" es
unfolding members trim_space
separator_of [] = refl
separator_of (e ∷ es) =
    ap (λ (b : Bool). if b then "" else ",") (trim_space-member e (members "," es))

member_text-IsClosed : (e : Entry) → IsClosedEntry e → IsClosed (member_text e)
unfolding last_is
member_text-IsClosed e h =
    IsClosed-append (quote e.0) (":" <> e.1) (quote-IsClosed e.0) (IsClosed-append ":" e.1 refl h)

members-IsClosed :
    (separator : String) (es : List Entry)
    → IsClosed separator
    → All IsClosedEntry es
    → IsClosed (members separator es)
unfolding members last_is
members-IsClosed separator [] s h = refl
members-IsClosed separator (e ∷ es) s h =
    IsClosed-append separator (member_text e <> members "," es) s (
      IsClosed-append (member_text e) (members "," es) (member_text-IsClosed e h.0)
        (members-IsClosed "," es refl h.1))

prefix-IsClosed :
    (e : Entry) (es : List Entry)
    → All IsClosedEntry (e ∷ es)
    → IsClosed ("{" <> ("" <> (member_text e <> members "," es)))
unfolding members last_is
prefix-IsClosed e es h =
    last_is-append "{" "{" ("" <> (member_text e <> members "," es))
      (is_empty-member e (members "," es))
    ∙ members-IsClosed "" (e ∷ es) refl h

pub write_prefix-members :
    (es : List Entry)
    → All IsClosedEntry es
    → write_prefix ("{" <> members "" es)
      ≡ ("{" <> members "" es) <> (behind "" es <> "\"messages\":[")
unfolding write_prefix members last_is
write_prefix-members [] h = refl
write_prefix-members (e ∷ es) h =
    let inner = "" <> (member_text e <> members "," es) in
    rw (is_empty-append "{" inner (is_empty-member e (members "," es)), prefix-IsClosed e es h) refl
