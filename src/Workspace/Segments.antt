-- ===== src/Workspace/Segments.antt =====
-- The parts of Go's packages strings and filepath that split paths.
use Prim.Native.Char.{Char, code}
use Prim.Native.String.{[], ◌∷◌}
use exoclaw_go.Prelude.{
  ◌≡◌, str_eq, eq_iff, refl, ap, sym, ◌∙◌, arith, Bool-cases, inl, inr, ◌==◌, String, Bool, false,
  Option, none, some, List, if◌then◌else◌,
}
use text.Mathlib.TextLemmas.{nil-append, cons-append}
use exoclaw_go.Prelude.Text.{◌<>◌, single-append}

abbrev onto_first : Char → List String → List String
onto_first c List.[] = List.◌∷◌ (c ∷ []) List.[]
onto_first c (List.◌∷◌ s ss) = List.◌∷◌ (c ∷ s) ss

-- strings.Split(s, "/"), and of strings.ReplaceAll(s, "\\", "/") where `backslash` is set.
unfoldable pub split_slashes : Bool → String → List String
split_slashes backslash [] = List.◌∷◌ [] List.[]
split_slashes backslash (c ∷ s) =
    let rest = split_slashes backslash s in
    if code c == b'/'
    then List.◌∷◌ [] rest
    else if (if backslash then code c == b'\\' else false)
    then List.◌∷◌ [] rest
    else onto_first c rest

-- strings.CutPrefix
unfoldable pub cut_prefix : String → String → Option String
cut_prefix [] s = some s
cut_prefix (c ∷ p) [] = none
cut_prefix (c ∷ p) (d ∷ s) =
    let rest = cut_prefix p s in if str_eq (c ∷ []) (d ∷ []) then rest else none

-- filepath.IsAbs
unfoldable pub starts_with_slash : String → Bool
starts_with_slash [] = false
starts_with_slash (c ∷ s) = code c == b'/'

abbrev pub put_before : Char → Option (String × String) → Option (String × String)
put_before c none = none
put_before c (some (before, after)) = some (c ∷ before, after)

abbrev pub found_or : Option (String × String) → Option String → Option (String × String)
found_or later none = later
found_or later (some after) = some ([], after)

-- What stands around the first place of `old`, as strings.Index finds it.
unfoldable pub find_split : String → String → Option (String × String)
find_split old [] = found_or none (cut_prefix old [])
find_split old (c ∷ s) = found_or (put_before c (find_split old s)) (cut_prefix old (c ∷ s))

abbrev text_in : String → Option String → String
text_in s none = s
text_in s (some t) = t

pub cut_prefix-append : (p s rest : String) → cut_prefix p s ≡ some rest → s ≡ p <> rest
unfolding cut_prefix
cut_prefix-append [] s rest h = ap (λ o. text_in s o) h ∙ sym (nil-append rest)
cut_prefix-append (c ∷ p) [] rest h = absurd (ground (arith, h))
cut_prefix-append (c ∷ p) (d ∷ s) rest h = elim (Bool-cases (str_eq (c ∷ []) (d ∷ []))) [
  | inl e ↦
      sym (single-append d s)
      ∙ ap (λ t. t <> s) (sym ((eq_iff (c ∷ []) (d ∷ [])).0 e))
      ∙ single-append c s
      ∙ ap (◌∷◌ c) (cut_prefix-append p s rest (ground (arith, h, e)))
      ∙ sym (cons-append c p rest)
  | inr ne ↦ absurd (ground (arith, h, ne))
]

-- A text is what stands around `old`, if anything was found.
abbrev pub IsAround : String → String → Option (String × String) → Type 0
IsAround old s none = Unit
IsAround old s (some (b, a)) = s ≡ b <> (old <> a)

found_or-IsAround :
    (old s : String) (later : Option (String × String)) (o : Option String)
    → ((a : String) → o ≡ some a → s ≡ old <> a)
    → IsAround old s later
    → IsAround old s (found_or later o)
found_or-IsAround old s later none h l = l
found_or-IsAround old s later (some a) h l = h a refl ∙ sym (nil-append (old <> a))

put_before-IsAround :
    (old : String) (c : Char) (s : String) (o : Option (String × String))
    → IsAround old s o
    → IsAround old (c ∷ s) (put_before c o)
put_before-IsAround old c s none h = tt
put_before-IsAround old c s (some (b, a)) h = ap (◌∷◌ c) h ∙ sym (cons-append c b (old <> a))

pub find_split-IsAround : (old s : String) → IsAround old s (find_split old s)
unfolding find_split
find_split-IsAround old [] =
    found_or-IsAround old [] none (cut_prefix old []) (cut_prefix-append old []) tt
find_split-IsAround old (c ∷ s) =
    found_or-IsAround old (c ∷ s) (put_before c (find_split old s)) (cut_prefix old (c ∷ s))
      (cut_prefix-append old (c ∷ s)) (put_before-IsAround old c s _ (find_split-IsAround old s))
