-- ===== src/Prelude/Folding.antt =====
-- Comparisons of texts in lower case, and with their case folded.
use Prim.Native.Char.{code}
use Prim.Native.String.{String, [], ◌∷◌}
use Prim.Native.Nat.{ℕ, ◌+◌}
use mathlib.Core.Bool.{Bool, true, false, ◌&&◌}
use exoclaw_go.Prelude.Tests.{leb, ◌==◌, if◌then◌else◌}
use exoclaw_go.Prelude.Text.{is_empty}

abbrev lower_code : ℕ → ℕ
lower_code n =
    if leb 65 n && leb n 90
    then n + 32
    else if n == 0x130
    then b'i'
    else if n == 0x212a
    then b'k'
    else n

has_folded_prefix : String → String → Bool
has_folded_prefix [] s = true
has_folded_prefix (c ∷ p) [] = false
has_folded_prefix (c ∷ p) (d ∷ s) =
    let rest = has_folded_prefix p s in if code c == lower_code (code d) then rest else false

-- strings.Contains(strings.ToLower(s), sub) for a sub in ASCII: two runes outside ASCII have a lower
-- case in it.
unfoldable pub contains_folded : String → String → Bool
unfolding has_folded_prefix
contains_folded sub [] = is_empty sub
contains_folded sub (c ∷ s) =
    let later = contains_folded sub s in if has_folded_prefix sub (c ∷ s) then true else later

same_runes : (ℕ → ℕ) → String → String → Bool
same_runes fold [] [] = true
same_runes fold (c ∷ s) (d ∷ t) =
    let rest = same_runes fold s t in if code c == fold (code d) then rest else false
same_runes fold _ _ = false

-- strings.ToLower(t) == s for an s in ASCII.
unfoldable pub lower_eq : String → String → Bool
unfolding same_runes
lower_eq s t = same_runes lower_code s t

abbrev fold_code : ℕ → ℕ
fold_code n =
    if leb 65 n && leb n 90
    then n + 32
    else if n == 0x17f
    then b's'
    else if n == 0x212a
    then b'k'
    else n

-- strings.EqualFold for an s in ASCII without capitals.
unfoldable pub equal_fold : String → String → Bool
unfolding same_runes
equal_fold s t = same_runes fold_code s t
