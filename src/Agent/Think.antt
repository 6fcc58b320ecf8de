-- ===== src/Agent/Think.antt =====
-- stripThink of exoclaw/agent/loop.go: `(?s)<think>.*?</think>` is removed wherever it matches.
use Prim.Native.Char.{code}
use Prim.Native.String.{String, [], ◌∷◌}
use exoclaw_go.Prelude.{ℕ, zero, suc, ◌≡◌, refl, Option, none, some, ◌==◌, if◌then◌else◌, str_eq}
use exoclaw_go.Prelude.Text.{trim_space}

-- What follows a prefix.
strip_prefix : String → String → Option String
strip_prefix [] s = some s
strip_prefix (p ∷ ps) [] = none
strip_prefix (p ∷ ps) (c ∷ s) =
    let rest = strip_prefix ps s in if code p == code c then rest else none

-- What follows the first "</think>": the shortest `.*?`.
after_close : String → Option String
unfolding strip_prefix
after_close [] = none
after_close (c ∷ s) =
    let rest = after_close s in
    elim (strip_prefix "</think>" (c ∷ s)) [ some r ↦ some r | none ↦ rest ]

opened : Option String → Option String
unfolding after_close
opened none = none
opened (some s) = after_close s

-- Every round removes a match or takes a character, so as many rounds as characters suffice.
remove_think : ℕ → String → String
unfolding opened
remove_think zero s = s
remove_think (suc n) [] = []
remove_think (suc n) (c ∷ s) = elim (opened (strip_prefix "<think>" (c ∷ s))) [
  | some rest ↦ remove_think n rest
  | none ↦ c ∷ remove_think n s
]

size : String → ℕ
size [] = 0
size (c ∷ s) = suc (size s)

unfoldable pub strip_think : String → String
unfolding remove_think size trim_space
strip_think text = if str_eq text "" then "" else trim_space (remove_think (size text) text)

strip_think_test : strip_think "<think>a</think> b <think>c" ≡ "b <think>c"
unfolding strip_think
strip_think_test = refl
