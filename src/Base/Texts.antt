-- ===== src/Base/Texts.antt =====
-- Text as its code points, and numbers in decimal.
use Prim.Native.Nat.{ℕ, zero, suc, ◌+◌, ◌-◌, ◌*◌, ◌/◌, ◌%◌, ◌^◌, ◌<◌}
use Prim.Native.Char.{code}
use Prim.Native.String.{String}
use mathlib.Core.Path.{◌≡◌, ap, ◌∙◌}
use mathlib.Core.List.{List, [], ◌∷◌, ◌++◌}
use native.Mathlib.Omega.{arith}
use native.Mathlib.Nat.{pow-suc}
use qode.Base.Tests.{ltb, ltb→le, if◌then◌else◌, if-elim}
use qode.Base.Lists.{length, replicate}

abbrev pub Text : Type 0
Text = List ℕ

abbrev pub codes : String → Text
codes String.[] = []
codes (String.◌∷◌ c s) = code c ∷ codes s

-- The digits of a number of at most `left` of them, in front of `out`.
unfoldable pub digits : ℕ → ℕ → Text → Text
digits zero n out = out
digits (suc left) n out =
    let more = digits left (n / 10) ((48 + n % 10) ∷ out) in
    if ltb n 10 then (48 + n) ∷ out else more

-- `std::to_string` of a 64-bit number, which has 20 digits at most.
unfoldable pub to_string : ℕ → Text
unfolding digits
to_string n = digits 20 n []

-- `std::setw`, to the right and to the left.
unfoldable pub pad_left : ℕ → ℕ → Text → Text
pad_left width fill text = replicate (width - length text) fill ++ text

unfoldable pub pad_right : ℕ → Text → Text
pad_right width text = text ++ replicate (width - length text) 32

-- The number that digits stand for, behind those that gave `n`.
unfoldable pub read_digits : ℕ → Text → ℕ
read_digits n [] = n
read_digits n (c ∷ cs) = read_digits (n * 10 + (c - 48)) cs

read_digits-digits :
    (left n : ℕ) (out : Text)
    → n < 10 ^ left
    → 0 < left
    → read_digits 0 (digits left n out) ≡ read_digits n out
unfolding digits read_digits
read_digits-digits zero n out h p = absurd (omega arith)
read_digits-digits (suc zero) n out h p =
    if-elim (λ t. read_digits 0 t ≡ read_digits n out) (ltb n 10)
      (λ l. ap (λ k. read_digits k out) (omega arith))
      (λ l. absurd (omega (arith, ltb→le n 10 l, h)))
read_digits-digits (suc (suc left)) n out h p =
    if-elim (λ t. read_digits 0 t ≡ read_digits n out) (ltb n 10)
      (λ l. ap (λ k. read_digits k out) (omega arith))
      (λ l.
        read_digits-digits (suc left) (n / 10) ((48 + n % 10) ∷ out)
          (omega (arith, h, pow-suc 10 (suc left))) (omega arith)
        ∙ ap (λ k. read_digits k out) (omega arith))

-- A 64-bit number is read back from its digits.
pub read_digits-to_string : (n : ℕ) → n < 2 ^ 64 → read_digits 0 (to_string n) ≡ n
unfolding to_string read_digits
read_digits-to_string n h = read_digits-digits 20 n [] (omega arith) (omega arith)
