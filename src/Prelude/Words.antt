-- ===== src/Prelude/Words.antt =====
-- int64 as a bit pattern below 2^64, read in two's complement.
use Prim.Native.Nat.{ℕ, ◌+◌, ◌-◌, ◌*◌, ◌%◌, ◌<◌}
use mathlib.Core.Bool.{Bool}
use exoclaw_go.Prelude.Tests.{ltb}

abbrev pub modulus : ℕ
modulus = 18446744073709551616

abbrev pub sign_bit : ℕ
sign_bit = 9223372036854775808

unfoldable pub add64 : ℕ → ℕ → ℕ
add64 a b = (a + b) % modulus

unfoldable pub sub64 : ℕ → ℕ → ℕ
sub64 a b = (a + modulus - b) % modulus

unfoldable pub mul64 : ℕ → ℕ → ℕ
mul64 a b = (a * b) % modulus

-- a < b as signed numbers: the sign bit is flipped in both.
abbrev pub slt : ℕ → ℕ → Bool
slt a b = ltb ((a + sign_bit) % modulus) ((b + sign_bit) % modulus)

-- A word that is a non-negative number.
abbrev pub IsNatural : ℕ → Type 0
IsNatural a = a < sign_bit
