-- ===== src/Prelude/Words.antt =====
-- Machine words as plain numbers: `u32` terms and `usize` indices of the release build of
-- Dockerfile, in which arithmetic wraps. A subtraction adds the modulus first.
use Prim.Native.Nat.{ℕ, ◌+◌, ◌-◌, ◌%◌, ◌≤◌, ◌<◌}
use mathlib.Core.Path.{◌≡◌}
use native.Mathlib.Omega.{arith}

abbrev pub u32_mod : ℕ
u32_mod = 4294967296

abbrev pub usize_mod : ℕ
usize_mod = 18446744073709551616

abbrev pub u32_add : ℕ → ℕ → ℕ
u32_add a b = (a + b) % u32_mod

abbrev pub usize_add : ℕ → ℕ → ℕ
usize_add a b = (a + b) % usize_mod

abbrev pub usize_sub : ℕ → ℕ → ℕ
usize_sub a b = (a + usize_mod - b) % usize_mod

pub usize_add-eq : (a b : ℕ) → a + b < usize_mod → usize_add a b ≡ a + b
usize_add-eq a b h = omega arith

pub usize_sub-eq : (a b : ℕ) → b ≤ a → a < usize_mod → usize_sub a b ≡ a - b
usize_sub-eq a b h k = omega arith
