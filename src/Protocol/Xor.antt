-- ===== src/Protocol/Xor.antt =====
-- What the checksum uses of `^`: it cancels on both sides, and stays within its width.
use Prim.Native.Nat.{digits, differ, bit_xor-bitwise}
use native.Mathlib.Nat.{pow-suc}
use qode.Base.{ℕ, zero, suc, ◌+◌, ◌*◌, ◌/◌, ◌%◌, ◌^◌, ◌≤◌, ◌<◌, ◌≡◌, refl, sym, ap, bit_xor, arith}

zero-bit_xor : (b : ℕ) → bit_xor 0 b ≡ b
zero-bit_xor b = bit_xor-bitwise 0 b

abbrev xor_digits : ℕ → ℕ → ℕ → ℕ
xor_digits n a b = digits (λ y. y) differ n a b

-- With fuel for its first argument the digit recursion is `^`.
xor_digits_lem : (k n a b : ℕ) → n ≤ k → a ≤ n → xor_digits n a b ≡ bit_xor a b
xor_digits_lem k zero zero b h e = sym (zero-bit_xor b)
xor_digits_lem k zero (suc a) b h e = absurd (omega arith)
xor_digits_lem k (suc n) zero b h e = sym (zero-bit_xor b)
xor_digits_lem zero (suc n) (suc a) b h e = absurd (omega arith)
xor_digits_lem (suc k) (suc n) (suc a) b h e = omega (
  arith,
  bit_xor-bitwise (suc a) b,
  xor_digits_lem k n (suc a / 2) (b / 2) (omega arith) (omega arith),
  xor_digits_lem k a (suc a / 2) (b / 2) (omega arith) (omega arith),
)

-- The digit in which two digits differ.
parity-differ : (a b : ℕ) → a < 2 → b < 2 → differ a b ≡ (a + b) % 2
parity-differ zero zero h k = refl
parity-differ zero (suc zero) h k = refl
parity-differ (suc zero) zero h k = refl
parity-differ (suc zero) (suc zero) h k = refl
parity-differ zero (suc (suc b)) h k = absurd (omega arith)
parity-differ (suc zero) (suc (suc b)) h k = absurd (omega arith)
parity-differ (suc (suc a)) b h k = absurd (omega arith)

-- The lowest digit of the result, and the others.
bit_xor_step : (a b : ℕ) → bit_xor a b ≡ bit_xor (a / 2) (b / 2) * 2 + (a % 2 + b % 2) % 2
bit_xor_step zero b = omega (arith, zero-bit_xor b, zero-bit_xor (b / 2))
bit_xor_step (suc a) b = omega (
  arith,
  bit_xor-bitwise (suc a) b,
  xor_digits_lem a a (suc a / 2) (b / 2) (omega arith) (omega arith),
  parity-differ (suc a % 2) (b % 2) (omega arith) (omega arith),
)

-- Equal results of equal right sides come from equal left sides.
xor_cancel_right_fuel : (n a b c : ℕ) → a ≤ n → b ≤ n → bit_xor a c ≡ bit_xor b c → a ≡ b
xor_cancel_right_fuel zero a b c p q e = omega arith
xor_cancel_right_fuel (suc n) a b c p q e =
    let high : bit_xor (a / 2) (c / 2) ≡ bit_xor (b / 2) (c / 2) =
      omega (arith, bit_xor_step a c, bit_xor_step b c) in
    omega (
      arith,
      bit_xor_step a c,
      bit_xor_step b c,
      xor_cancel_right_fuel n (a / 2) (b / 2) (c / 2) (omega arith) (omega arith) high,
    )

pub xor_cancel_right : (a b c : ℕ) → bit_xor a c ≡ bit_xor b c → a ≡ b
xor_cancel_right a b c = xor_cancel_right_fuel (a + b) a b c (omega arith) (omega arith)

xor_cancel_left_fuel : (n a b c : ℕ) → b ≤ n → c ≤ n → bit_xor a b ≡ bit_xor a c → b ≡ c
xor_cancel_left_fuel zero a b c p q e = omega arith
xor_cancel_left_fuel (suc n) a b c p q e =
    let high : bit_xor (a / 2) (b / 2) ≡ bit_xor (a / 2) (c / 2) =
      omega (arith, bit_xor_step a b, bit_xor_step a c) in
    omega (
      arith,
      bit_xor_step a b,
      bit_xor_step a c,
      xor_cancel_left_fuel n (a / 2) (b / 2) (c / 2) (omega arith) (omega arith) high,
    )

pub xor_cancel_left : (a b c : ℕ) → bit_xor a b ≡ bit_xor a c → b ≡ c
xor_cancel_left a b c = xor_cancel_left_fuel (b + c) a b c (omega arith) (omega arith)

-- `^` of two numbers of `k` bits has `k` bits.
pub bit_xor-lt : (k a b : ℕ) → a < 2 ^ k → b < 2 ^ k → bit_xor a b < 2 ^ k
bit_xor-lt zero a b p q = omega (
  arith,
  zero-bit_xor 0,
  ap (λ (t : ℕ). bit_xor t b) (let e : a ≡ 0 = omega arith in e),
  ap (λ (t : ℕ). bit_xor 0 t) (let e : b ≡ 0 = omega arith in e),
)
bit_xor-lt (suc k) a b p q =
    let twice = pow-suc 2 k in
    omega (arith, bit_xor_step a b, bit_xor-lt k (a / 2) (b / 2) (omega arith) (omega arith))
