-- ===== src/Base/Word.antt =====
-- Unsigned words: addition with the wrap-around of the fixed widths.
use Prim.Native.Nat.{ℕ, ◌+◌, ◌%◌, ◌^◌}
use mathlib.Core.Path.{◌≡◌}
use native.Mathlib.Omega.{arith}

abbrev pub u16 : ℕ → ℕ
u16 n = n % 2 ^ 16

abbrev pub u32 : ℕ → ℕ
u32 n = n % 2 ^ 32

abbrev pub u64 : ℕ → ℕ
u64 n = n % 2 ^ 64

-- `fetch_add` and `++` on a 64-bit counter.
abbrev pub add64 : ℕ → ℕ → ℕ
add64 a b = u64 (a + b)

pub add64_assoc : (a b c : ℕ) → add64 (add64 a b) c ≡ add64 a (b + c)
add64_assoc a b c = omega arith
