-- ===== src/OpenAi/Escaping.antt =====
-- The content of a file in emitMessage of providers/openai/provider.go is escaped chunk by chunk.
use Prim.Native.String.{[], ◌∷◌}
use exoclaw_go.Prelude.{◌≡◌, refl, ap, ◌∙◌, sym, String, false, Option, none, some, if-ind, str_eq}
use exoclaw_go.Prelude.Text.{
  ◌<>◌, is_empty, empty_eq, skip_runes, drop_last, single-append, drop_last-append, trim_space,
  trim_space-two,
}
use exoclaw_go.Json.{Value, null, boolean, int, float, str, arr, maps, obj, str_of}
use exoclaw_go.Json.Escape.{escape_rune, escape}
use exoclaw_go.Json.Print.{Entry, member_text}
use exoclaw_go.OpenAi.Body.{escaped_of, fallback_of}
use text.Mathlib.TextLemmas.{nil-append, cons-append, append_assoc}

pub escape-append : (s t : String) → escape (s <> t) ≡ escape s <> escape t
unfolding escape
escape-append [] t = ap escape (nil-append t) ∙ sym (nil-append (escape t))
escape-append (c ∷ s) t =
    ap escape (cons-append c s t)
    ∙ ap (λ x. escape_rune c <> x) (escape-append s t)
    ∙ sym (append_assoc (escape_rune c) (escape s) (escape t))

pub escaped_of-escape : (s : String) → escaped_of s ≡ escape s
unfolding escaped_of skip_runes
escaped_of-escape s =
    ap (λ t. drop_last (skip_runes 1 t)) (single-append "\"" (escape s <> "\""))
    ∙ drop_last-append (escape s) "\""

pub fallback_of-escape : (content : Option Value) → fallback_of content ≡ escape (str_of content)
unfolding escape
fallback_of-escape (some (str s)) =
    if-ind (λ t. t ≡ escape s) (is_empty s) "" (escaped_of s) (λ e. ap escape (sym (empty_eq s e)))
      (λ _. escaped_of-escape s)
fallback_of-escape none = refl
fallback_of-escape (some null) = refl
fallback_of-escape (some (boolean b)) = refl
fallback_of-escape (some (int n)) = refl
fallback_of-escape (some (float n)) = refl
fallback_of-escape (some (arr xs)) = refl
fallback_of-escape (some (maps xs)) = refl
fallback_of-escape (some (obj fs)) = refl

-- A member behind an opening brace starts with a quote.
quoted-append :
    (e : Entry) (s : String)
    → member_text e <> s ≡ "\"" ∷ (((escape e.0 <> "\"") <> (":" <> e.1)) <> s)
quoted-append e s =
    ap (λ t. t <> s) (append_assoc "\"" (escape e.0 <> "\"") (":" <> e.1))
    ∙ append_assoc "\"" ((escape e.0 <> "\"") <> (":" <> e.1)) s
    ∙ single-append "\"" (((escape e.0 <> "\"") <> (":" <> e.1)) <> s)

pub is_empty-member : (e : Entry) (s : String) → is_empty ("" <> (member_text e <> s)) ≡ false
is_empty-member e s = ap is_empty (nil-append (member_text e <> s) ∙ quoted-append e s)

pub trim_space-member :
    (e : Entry) (s : String) → str_eq (trim_space ("{" <> ("" <> (member_text e <> s)))) "{" ≡ false
trim_space-member e s =
    ap (λ t. str_eq (trim_space t) "{")
      (single-append "{" ("" <> (member_text e <> s))
        ∙ ap (λ t. "{" ∷ t) (nil-append (member_text e <> s) ∙ quoted-append e s))
    ∙ trim_space-two "{" "\"" "{" (((escape e.0 <> "\"") <> (":" <> e.1)) <> s) refl refl
