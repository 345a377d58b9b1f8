-- ===== src/Base/Word.antt =====
-- Unsigned machine words as native numbers, with the wrap-around of `uint32_t` and `uint64_t`.
use Prim.Native.Nat.{ℕ, ◌+◌, ◌-◌, ◌%◌, ◌^◌, ◌<◌}
use mathlib.Core.Path.{◌≡◌}
use native.Mathlib.Omega.{arith}

-- `x += y` and `x -= y` on 64 bits.
unfoldable pub add64 : ℕ → ℕ → ℕ
add64 a b = (a + b) % 2 ^ 64

unfoldable pub sub64 : ℕ → ℕ → ℕ
sub64 a b = (a + 2 ^ 64 - b) % 2 ^ 64

-- `++x` and `--x` on 64 and on 32 bits.
unfoldable pub inc64 : ℕ → ℕ
inc64 a = (a + 1) % 2 ^ 64

unfoldable pub dec64 : ℕ → ℕ
dec64 a = (a + (2 ^ 64 - 1)) % 2 ^ 64

unfoldable pub inc32 : ℕ → ℕ
inc32 a = (a + 1) % 2 ^ 32

unfoldable pub dec32 : ℕ → ℕ
dec32 a = (a + (2 ^ 32 - 1)) % 2 ^ 32

pub inc64-lt : (a : ℕ) → inc64 a < 2 ^ 64
unfolding inc64
inc64-lt a = omega arith

pub inc64_exact : (a : ℕ) → a + 1 < 2 ^ 64 → inc64 a ≡ a + 1
unfolding inc64
inc64_exact a h = omega arith

pub dec32-inc32 : (a : ℕ) → a < 2 ^ 32 → dec32 (inc32 a) ≡ a
unfolding inc32 dec32
dec32-inc32 a h = omega arith

pub sub64-add64 : (a b : ℕ) → a < 2 ^ 64 → b < 2 ^ 64 → sub64 (add64 a b) b ≡ a
unfolding add64 sub64
sub64-add64 a b ha hb = omega arith
