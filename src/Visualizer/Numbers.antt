-- ===== src/Visualizer/Numbers.antt =====
-- src/client/visualizer.cpp: what `format_number` shows of a number.
use qode.Base.{ℕ, ◌+◌, ◌*◌, ◌/◌, ◌≤◌, ◌<◌, ◌≡◌, [], ◌∷◌, ◌++◌, length, Text, read_digits}

-- The text is a number, one decimal digit and `letter`; number and digit stand for `n` rounded down
-- to a tenth of `unit`.
pub record IsRounded (unit letter n : ℕ) (text : Text) : Type 0 where
  pub whole : Text
  pub decimal : Text
  pub written : text ≡ whole ++ (b'.' ∷ (decimal ++ (letter ∷ [])))
  pub one_digit : length decimal ≡ 1
  pub below : read_digits 0 whole * unit + read_digits 0 decimal * (unit / 10) ≤ n
  pub close : n < read_digits 0 whole * unit + read_digits 0 decimal * (unit / 10) + unit / 10
