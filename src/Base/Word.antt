-- ===== src/Base/Word.antt =====
-- Go's int64 on a 64-bit machine: a bit pattern below 2 ^ 64, with the wrap-around written out.
-- An `int` is the same. The sign bit is flipped to compare two patterns as signed numbers.
use Prim.Native.Nat.{ℕ, ◌+◌, ◌-◌, ◌%◌, ◌<◌}
use mathlib.Core.Bool.{Bool}
use mathlib.Core.Path.{◌≡◌, ap}
use native.Mathlib.Nat.{add_comm}
use native.Mathlib.Omega.{arith}
use mquery.Base.Tests.{ltb}

-- 2 ^ 64 and 2 ^ 63
abbrev pub word_mod : ℕ
word_mod = 18446744073709551616

abbrev pub sign_bit : ℕ
sign_bit = 9223372036854775808

unfoldable pub add64 : ℕ → ℕ → ℕ
add64 a b = (a + b) % word_mod

unfoldable pub sub64 : ℕ → ℕ → ℕ
sub64 a b = (a + (word_mod - b % word_mod)) % word_mod

-- a < b, read as signed numbers.
unfoldable pub slt64 : ℕ → ℕ → Bool
slt64 a b = ltb ((a + sign_bit) % word_mod) ((b + sign_bit) % word_mod)

pub add64-lt : (a b : ℕ) → add64 a b < word_mod
unfolding add64
add64-lt a b = omega arith

pub add64-zero : (a : ℕ) → a < word_mod → add64 a 0 ≡ a
unfolding add64
add64-zero a h = omega arith

pub add64_comm : (a b : ℕ) → add64 a b ≡ add64 b a
unfolding add64
add64_comm a b = ap (λ t. t % word_mod) (add_comm a b)

pub add64_assoc : (a b c : ℕ) → add64 (add64 a b) c ≡ add64 a (add64 b c)
unfolding add64
add64_assoc a b c = omega arith

-- A sum that fits is the sum.
pub add64-eq-add : (a b : ℕ) → a + b < word_mod → add64 a b ≡ a + b
unfolding add64
add64-eq-add a b h = omega arith
