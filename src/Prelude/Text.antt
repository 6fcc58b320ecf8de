-- ===== src/Prelude/Text.antt =====
-- The parts of Go's package strings that the program uses.
use Prim.Native.Char.{Char, code}
use Prim.Native.String.{String, [], ◌∷◌, ◌++◌}
use Prim.Native.Nat.{ℕ, zero, suc, ◌+◌, ◌-◌, ◌≤◌}
use mathlib.Core.Option.{Option, none, some}
use mathlib.Core.Path.{◌≡◌, refl, ap, sym, ◌∙◌}
use native.Mathlib.Omega.{arith}
use text.Mathlib.Text.{◌==◌ as str_eq}
use text.Mathlib.TextLemmas.{nil-append, cons-append}
use text.Mathlib.TextEquality.{eq_iff}
use mathlib.Core.Logic.{inl, inr}
use mathlib.Core.Bool.{Bool, true, false, ◌&&◌, ◌||◌}
use exoclaw_go.Prelude.Tests.{Bool-cases, if-ind, leb, leb→le, ltb, ◌==◌, if◌then◌else◌}

-- Go's `+` on strings.
infixr 65 ◌<>◌
abbrev pub ◌<>◌ : String → String → String
s <> t = s ++ t

-- unicode.IsSpace
abbrev pub is_space : Char → Bool
is_space ch =
    let c = code ch in
    (leb 9 c && leb c 13)
    || c == 32
    || c == 0x85
    || c == 0xA0
    || c == 0x1680
    || (leb 0x2000 c && leb c 0x200a)
    || c == 0x2028
    || c == 0x2029
    || c == 0x202f
    || c == 0x205f
    || c == 0x3000

abbrev pub is_empty : String → Bool
is_empty [] = true
is_empty (c ∷ s) = false

pub not_empty : (s : String) → is_empty s ≡ false → str_eq "" s ≡ false
not_empty s h = elim (Bool-cases (str_eq "" s)) [
  | inl e ↦ absurd (ground (arith, ap is_empty ((eq_iff "" s).0 e), h))
  | inr e ↦ e
]

trim_left : String → String
trim_left [] = []
trim_left (c ∷ s) = let rest = trim_left s in if is_space c then rest else c ∷ s

trim_right : String → String
trim_right [] = []
trim_right (c ∷ s) = let rest = trim_right s in if is_empty rest && is_space c then [] else c ∷ rest

-- strings.TrimSpace
unfoldable pub trim_space : String → String
unfolding trim_left trim_right
trim_space s = trim_right (trim_left s)

-- strings.HasPrefix(s, "_")
unfoldable pub is_private : String → Bool
is_private [] = false
is_private (c ∷ s) = code c == b'_'

-- strings.HasPrefix
unfoldable pub has_prefix : String → String → Bool
has_prefix [] s = true
has_prefix (c ∷ p) [] = false
has_prefix (c ∷ p) (d ∷ s) = let rest = has_prefix p s in if code c == code d then rest else false

newline_then : String → Option String → Option String
newline_then [] later = later
newline_then (d ∷ s) later = if code d == 10 then some s else later

-- The second part of strings.SplitN(s, "\n\n", 2), if there is one.
unfoldable pub after_blank_line : String → Option String
unfolding newline_then
after_blank_line [] = none
after_blank_line (c ∷ s) =
    let later = after_blank_line s in if code c == 10 then newline_then s later else later

-- The bytes of a rune in UTF-8.
abbrev pub rune_len : Char → ℕ
rune_len c =
    if ltb (code c) 0x80
    then 1
    else if ltb (code c) 0x800
    then 2
    else if ltb (code c) 0x10000
    then 3
    else 4

-- len(s)
unfoldable pub byte_len : String → ℕ
byte_len [] = 0
byte_len (c ∷ s) = rune_len c + byte_len s

-- s[:n], without the rune that the cut goes through.
unfoldable pub take_bytes : ℕ → String → String
take_bytes n [] = []
take_bytes n (c ∷ s) =
    let rest = take_bytes (n - rune_len c) s in if leb (rune_len c) n then c ∷ rest else []

pub byte_len-take_bytes : (n : ℕ) (s : String) → byte_len (take_bytes n s) ≤ n
unfolding byte_len take_bytes
byte_len-take_bytes n [] = omega arith
byte_len-take_bytes n (c ∷ s) =
    if-ind (λ t. byte_len t ≤ n) (leb (rune_len c) n) (c ∷ take_bytes (n - rune_len c) s) []
      (λ fits. omega (arith, leb→le (rune_len c) n fits, byte_len-take_bytes (n - rune_len c) s))
      (λ _. omega arith)

pub byte_len-append : (s t : String) → byte_len (s <> t) ≡ byte_len s + byte_len t
unfolding byte_len
byte_len-append [] t = rw (nil-append t) (omega arith)
byte_len-append (c ∷ s) t = rw (cons-append c s t) (omega (arith, byte_len-append s t))

-- strings.Contains(s, sub)
unfoldable pub contains : String → String → Bool
contains sub [] = is_empty sub
contains sub (c ∷ s) = let later = contains sub s in if has_prefix sub (c ∷ s) then true else later

pub empty_eq : (s : String) → is_empty s ≡ true → s ≡ ""
empty_eq [] h = refl
empty_eq (c ∷ s) h = absurd (ground arith)

-- A rune by rune change, as strings.Map makes it.
unfoldable pub map_runes : (Char → Char) → String → String
map_runes f [] = []
map_runes f (c ∷ s) = f c ∷ map_runes f s

-- s[n:] for a text that starts with n bytes of ASCII.
unfoldable pub skip_runes : ℕ → String → String
skip_runes zero s = s
skip_runes (suc n) [] = []
skip_runes (suc n) (c ∷ s) = skip_runes n s

-- strings.TrimRight(s, "/")
unfoldable pub trim_slashes : String → String
trim_slashes [] = []
trim_slashes (c ∷ s) =
    let rest = trim_slashes s in if is_empty rest && code c == b'/' then [] else c ∷ rest

-- Whether a text ends with a rune.
unfoldable pub last_is : Char → String → Bool
last_is c [] = false
last_is c (d ∷ s) = let rest = last_is c s in if is_empty s then code c == code d else rest

unfoldable pub drop_last : String → String
drop_last [] = []
drop_last (d ∷ s) = let rest = drop_last s in if is_empty s then [] else d ∷ rest

trim_right-cons :
    (c : Char) (s : String) → is_space c ≡ false → trim_right (c ∷ s) ≡ c ∷ trim_right s
unfolding trim_right
trim_right-cons c s h =
    if-ind (λ t. t ≡ c ∷ trim_right s) (is_empty (trim_right s) && is_space c) [] (c ∷ trim_right s)
      (λ e. absurd (ground (arith, e, h))) (λ _. refl)

-- A text of two runes that are no spaces at its start is not one rune when it is trimmed.
pub trim_space-two :
    (c d e : Char) (s : String)
    → is_space c ≡ false
    → is_space d ≡ false
    → str_eq (trim_space (c ∷ d ∷ s)) (e ∷ []) ≡ false
unfolding trim_space trim_left skip_runes
trim_space-two c d e s hc hd =
    let trimmed : trim_space (c ∷ d ∷ s) ≡ c ∷ d ∷ trim_right s =
      rw hc (trim_right-cons c (d ∷ s) hc ∙ ap (◌∷◌ c) (trim_right-cons d s hd)) in
    elim (Bool-cases (str_eq (trim_space (c ∷ d ∷ s)) (e ∷ []))) [
      | inl eq ↦ absurd (
          ground (
            arith,
            ap (λ t. is_empty (skip_runes 1 t))
                (sym trimmed ∙ (eq_iff (trim_space (c ∷ d ∷ s)) (e ∷ [])).0 eq),
          ))
      | inr ne ↦ ne
    ]

pub single-append : (c : Char) (s : String) → (c ∷ []) <> s ≡ c ∷ s
single-append c s = cons-append c [] s ∙ ap (◌∷◌ c) (nil-append s)

pub is_empty-append_one : (s : String) (c : Char) → is_empty (s <> (c ∷ [])) ≡ false
is_empty-append_one [] c = ap is_empty (nil-append (c ∷ []))
is_empty-append_one (d ∷ s) c = ap is_empty (cons-append d s (c ∷ []))

pub drop_last-append : (s : String) (c : Char) → drop_last (s <> (c ∷ [])) ≡ s
unfolding drop_last
drop_last-append [] c = ap drop_last (nil-append (c ∷ []))
drop_last-append (d ∷ s) c =
    ap drop_last (cons-append d s (c ∷ []))
    ∙ rw (is_empty-append_one s c) (ap (◌∷◌ d) (drop_last-append s c))

abbrev with_rune : Char → Option (String × String) → Option (String × String)
with_rune c none = none
with_rune c (some (s, t)) = some (c ∷ s, t)

-- The parts of a text around its first colon, if it has one.
unfoldable pub cut_colon : String → Option (String × String)
cut_colon [] = none
cut_colon (c ∷ s) = if code c == b':' then some ([], s) else with_rune c (cut_colon s)
