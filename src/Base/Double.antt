-- ===== src/Base/Double.antt =====
-- `double` values are their 64-bit patterns. Their arithmetic is the machine's: a parameter.
use Prim.Native.Nat.{ℕ, ◌^◌}
use mathlib.Core.Bool.{Bool, ◌||◌}
use qode.Base.Tests.{◌==◌}

pub record Arithmetic : Type 0 where
  -- The double nearest to `n / 10 ^ k`.
  pub literal : ℕ → ℕ → ℕ
  pub add : ℕ → ℕ → ℕ
  pub sub : ℕ → ℕ → ℕ
  pub mul : ℕ → ℕ → ℕ
  pub div : ℕ → ℕ → ℕ
  pub neg : ℕ → ℕ
  pub less : ℕ → ℕ → Bool
  pub less_eq : ℕ → ℕ → Bool
  pub sqrt : ℕ → ℕ
  pub log : ℕ → ℕ
  pub cos : ℕ → ℕ
  pub sin : ℕ → ℕ
  pub round : ℕ → ℕ
  -- Conversions from and to unsigned integers.
  pub of_nat : ℕ → ℕ
  pub to_nat : ℕ → ℕ

-- `x == 0.0`, which holds of both zeros.
abbrev pub is_zero : ℕ → Bool
is_zero x = x == 0 || x == 2 ^ 63
