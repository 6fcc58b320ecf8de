-- ===== src/Json/Escape.antt =====
-- The texts of numbers and strings in json.Marshal.
use Prim.Native.Char.{Char, code}
use Prim.Native.String.{[], ◌∷◌}
use exoclaw_go.Prelude.{
  ℕ, zero, suc, ◌-◌, ◌/◌, ◌%◌, String, Bool, true, false, if◌then◌else◌, ltb, ◌==◌,
}
use exoclaw_go.Prelude.Text.{◌<>◌}
use exoclaw_go.Prelude.Words.{modulus, sign_bit}

-- The rune at a place, or an f.
unfoldable pub rune_at : ℕ → String → Char
rune_at n [] = "f"
rune_at zero (c ∷ s) = c
rune_at (suc n) (c ∷ s) = rune_at n s

-- A hexadecimal digit in lower case.
unfoldable pub digit : ℕ → String
digit n = rune_at n "0123456789abcde" ∷ []

-- The decimal digits of a number below 10 ^ fuel.
unfoldable pub decimal : ℕ → ℕ → String
decimal zero n = ""
decimal (suc fuel) n =
    let rest = decimal fuel (n / 10) in
    if n / 10 == 0 then digit (n % 10) else rest <> digit (n % 10)

-- An int64 word has at most 20 digits.
unfoldable pub int_text : ℕ → String
int_text n = if ltb n sign_bit then decimal 20 n else "-" <> decimal 20 (modulus - n)

unfoldable pub escape_rune : Char → String
escape_rune c =
    let n = code c in
    if n == b'"'
    then "\\\""
    else if n == b'\\'
    then "\\\\"
    else if n == 8
    then "\\b"
    else if n == 12
    then "\\f"
    else if n == 10
    then "\\n"
    else if n == 13
    then "\\r"
    else if n == 9
    then "\\t"
    else if ltb n 32
    then "\\u00" <> (digit (n / 16) <> digit (n % 16))
    else if n == b'<'
    then "\\u003c"
    else if n == b'>'
    then "\\u003e"
    else if n == b'&'
    then "\\u0026"
    else if n == 0x2028
    then "\\u2028"
    else if n == 0x2029
    then "\\u2029"
    else c ∷ []

unfoldable pub escape : String → String
escape [] = []
escape (c ∷ s) = escape_rune c <> escape s

abbrev pub quote : String → String
quote s = "\"" <> (escape s <> "\"")

-- The order of Go's strings, which is the order of the runes.
unfoldable pub text_lt : String → String → Bool
text_lt s [] = false
text_lt [] (d ∷ t) = true
text_lt (c ∷ s) (d ∷ t) =
    let rest = text_lt s t in if code c == code d then rest else ltb (code c) (code d)
