-- ===== src/Json/Closed.antt =====
-- The texts of json.Marshal do not end with an opening brace.
use Prim.Native.Char.{Char, code}
use Prim.Native.String.{[], ◌∷◌}
use exoclaw_go.Prelude.{
  ℕ, zero, suc, ◌-◌, ltb, ◌/◌, ◌%◌, ◌≡◌, refl, ap, ◌∙◌, String, Bool, true, false, if◌then◌else◌,
  ◌==◌, if-ind, Bool-cases, inl, inr, arith,
}
use exoclaw_go.Prelude.Text.{◌<>◌, is_empty, empty_eq, last_is}
use exoclaw_go.Prelude.Words.{modulus, sign_bit}
use exoclaw_go.Json.Escape.{rune_at, digit, decimal, int_text, escape, quote}
use text.Mathlib.TextLemmas.{nil-append, append-nil, cons-append}

pub is_empty-append : (s t : String) → is_empty t ≡ false → is_empty (s <> t) ≡ false
is_empty-append [] t h = ap is_empty (nil-append t) ∙ h
is_empty-append (c ∷ s) t h = ap is_empty (cons-append c s t)

pub last_is-append :
    (c : Char) (s t : String) → is_empty t ≡ false → last_is c (s <> t) ≡ last_is c t
unfolding last_is
last_is-append c [] t h = ap (last_is c) (nil-append t)
last_is-append c (d ∷ s) t h =
    ap (last_is c) (cons-append d s t) ∙ rw (is_empty-append s t h) (last_is-append c s t h)

-- A text that does not end with an opening brace.
abbrev pub IsClosed : String → Type 0
IsClosed t = last_is "{" t ≡ false

pub IsClosed-append : (s t : String) → IsClosed s → IsClosed t → IsClosed (s <> t)
IsClosed-append s t hs ht = elim (Bool-cases (is_empty t)) [
  | inl e ↦ ap (λ u. last_is "{" (s <> u)) (empty_eq t e) ∙ ap (last_is "{") (append-nil s) ∙ hs
  | inr e ↦ last_is-append "{" s t e ∙ ht
]

has_no_brace : String → Bool
has_no_brace [] = true
has_no_brace (c ∷ s) = if code c == b'{' then false else has_no_brace s

rune_at-has_no_brace :
    (n : ℕ) (s : String) → has_no_brace s ≡ true → (code "{" == code (rune_at n s)) ≡ false
unfolding rune_at has_no_brace
rune_at-has_no_brace n [] h = refl
rune_at-has_no_brace zero (c ∷ s) h = ground (arith, h)
rune_at-has_no_brace (suc n) (c ∷ s) h = rune_at-has_no_brace n s (ground (arith, h))

digit-IsClosed : (n : ℕ) → IsClosed (digit n)
unfolding digit last_is has_no_brace
digit-IsClosed n = rune_at-has_no_brace n "0123456789abcde" refl

decimal-IsClosed : (fuel n : ℕ) → IsClosed (decimal fuel n)
unfolding decimal last_is
decimal-IsClosed zero n = refl
decimal-IsClosed (suc fuel) n =
    if-ind IsClosed (n / 10 == 0) (digit (n % 10)) (decimal fuel (n / 10) <> digit (n % 10))
      (λ _. digit-IsClosed (n % 10))
      (λ _.
        IsClosed-append (decimal fuel (n / 10)) (digit (n % 10)) (decimal-IsClosed fuel (n / 10))
          (digit-IsClosed (n % 10)))

pub int_text-IsClosed : (n : ℕ) → IsClosed (int_text n)
unfolding int_text last_is
int_text-IsClosed n =
    if-ind IsClosed (ltb n sign_bit) (decimal 20 n) ("-" <> decimal 20 (modulus - n))
      (λ _. decimal-IsClosed 20 n)
      (λ _. IsClosed-append "-" (decimal 20 (modulus - n)) refl (decimal-IsClosed 20 (modulus - n)))

pub IsClosed-behind : (s t : String) → is_empty t ≡ false → IsClosed t → IsClosed (s <> t)
IsClosed-behind s t h closed = last_is-append "{" s t h ∙ closed

pub quote-IsClosed : (s : String) → IsClosed (quote s)
unfolding last_is
quote-IsClosed s =
    IsClosed-behind "\"" (escape s <> "\"") (is_empty-append (escape s) "\"" refl)
      (IsClosed-behind (escape s) "\"" refl refl)
