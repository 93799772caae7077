-- ===== src/Prelude/Words.antt =====
-- DWORD and LONG arithmetic. A LONG is kept as its 32-bit pattern.
use Prim.Native.Nat.{ℕ, ◌+◌, ◌-◌, ◌%◌, ◌^◌, ◌≤◌, ◌<◌}
use mathlib.Core.Path.{◌≡◌}
use native.Mathlib.Omega.{arith}

abbrev pub word : ℕ
word = 2 ^ 32

abbrev pub interlocked_increment : ℕ → ℕ
interlocked_increment n = (n + 1) % word

unfoldable pub add32 : ℕ → ℕ → ℕ
add32 a b = (a + b) % word

unfoldable pub sub32 : ℕ → ℕ → ℕ
sub32 a b = (a + word - b) % word

-- The tick counter wraps; the difference of two ticks less than 2^32 ms apart does not.
pub sub32_elapsed :
    (since now : ℕ)
    → since ≤ now
    → now < since + word
    → sub32 (now % word) (since % word) ≡ now - since
unfolding sub32
sub32_elapsed since now h k = omega arith

pub sub32_self : (n : ℕ) → sub32 n n ≡ 0
unfolding sub32
sub32_self n = omega arith
