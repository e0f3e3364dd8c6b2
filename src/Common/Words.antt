-- ===== src/Common/Words.antt =====
-- `uint64_t`: the stored value is below 2^64 and the operations wrap.
use Prim.Native.Nat.{ℕ, ◌+◌, ◌-◌, ◌*◌, ◌%◌, ◌^◌}
use mathlib.Core.Path.{◌≡◌}
use native.Mathlib.Omega.{arith}

abbrev pub word : ℕ
word = 2 ^ 64

unfoldable pub add64 : ℕ → ℕ → ℕ
add64 a b = (a + b) % word

unfoldable pub sub64 : ℕ → ℕ → ℕ
sub64 a b = (a + (word - b % word)) % word

unfoldable pub mul64 : ℕ → ℕ → ℕ
mul64 a b = (a * b) % word

-- A counter that holds a sum modulo 2^64 follows the sum.
pub add64_tracks : (s t n : ℕ) → t ≡ s + n → add64 (s % word) n ≡ t % word
unfolding add64
add64_tracks s t n h = omega arith

pub sub64_tracks : (s t n : ℕ) → t + n ≡ s → sub64 (s % word) n ≡ t % word
unfolding sub64
sub64_tracks s t n h = omega arith
