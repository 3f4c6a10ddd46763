-- ===== src/Common/Words.antt =====
-- Unsigned 64-bit arithmetic with its wrap-around.
use Prim.Native.Nat.{ℕ, ◌+◌, ◌-◌, ◌%◌, ◌^◌, ◌≤◌, ◌<◌}
use mathlib.Core.Path.{◌≡◌}
use native.Mathlib.Omega.{arith}

unfoldable pub add64 : ℕ → ℕ → ℕ
add64 a b = (a + b) % 2 ^ 64

-- The modulus is added first, since `-` on ℕ stops at 0.
unfoldable pub sub64 : ℕ → ℕ → ℕ
sub64 a b = (a + 2 ^ 64 - b) % 2 ^ 64

pub add64_fits : (a b : ℕ) → a + b < 2 ^ 64 → add64 a b ≡ a + b
unfolding add64
add64_fits a b h = omega arith

pub sub64_fits : (a b : ℕ) → b ≤ a → a < 2 ^ 64 → sub64 a b ≡ a - b
unfolding sub64
sub64_fits a b h k = omega arith

pub sub64_below : (a b : ℕ) → a < b → b < 2 ^ 64 → sub64 a b ≡ a + 2 ^ 64 - b
unfolding sub64
sub64_below a b h k = omega arith

pub ruleset words = (arith, add64_fits, sub64_fits)
