-- ===== src/Visualizer/Format.antt =====
-- src/client/visualizer.cpp: how numbers, prices and times are written. The digits of a `double` in
-- fixed notation are a parameter.
use qode.Base.{ℕ, ◌/◌, ◌%◌, ◌++◌, [], ◌∷◌, leb, if◌then◌else◌, Text, codes, to_string, pad_left}
use qode.Base.Double.{Arithmetic, is_zero}

-- The machine's doubles, and their text with a given number of decimals.
pub record Display : Type 0 where
  pub arithmetic : Arithmetic
  pub fixed : ℕ → ℕ → Text

abbrev pub color_green : Text
color_green = codes "\u{1b}[32m"

abbrev pub color_red : Text
color_red = codes "\u{1b}[31m"

abbrev pub color_yellow : Text
color_yellow = codes "\u{1b}[33m"

abbrev pub color_cyan : Text
color_cyan = codes "\u{1b}[36m"

abbrev pub color_reset : Text
color_reset = codes "\u{1b}[0m"

abbrev pub color_bold : Text
color_bold = codes "\u{1b}[1m"

-- `std::to_string(n / unit) + "." + std::to_string((n / tenth) % 10) + letter`.
abbrev pub with_tenth : ℕ → ℕ → ℕ → Text → Text
with_tenth n unit tenth letter =
    to_string (n / unit) ++ (b'.' ∷ (to_string (n / tenth % 10) ++ letter))

unfoldable pub format_number : ℕ → Text
format_number n =
    if leb 1000000000 n
    then with_tenth n 1000000000 100000000 (b'B' ∷ [])
    else if leb 1000000 n
    then with_tenth n 1000000 100000 (b'M' ∷ [])
    else if leb 1000 n
    then with_tenth n 1000 100 (b'K' ∷ [])
    else to_string n

unfoldable pub format_price : Display → ℕ → Text
format_price d price = if is_zero price then b'-' ∷ [] else d.fixed 2 price

-- The duration is in seconds.
unfoldable pub format_duration : ℕ → Text
format_duration duration =
    pad_left 2 b'0' (to_string (duration / 3600))
    ++ (b':'
        ∷ (pad_left 2 b'0' (to_string (duration % 3600 / 60))
            ++ (b':' ∷ pad_left 2 b'0' (to_string (duration % 60)))))

unfoldable pub format_rate : Display → ℕ → Text
format_rate d rate = d.fixed 0 rate ++ codes " msg/s"

unfoldable pub format_latency : ℕ → Text
format_latency ns =
    if leb 1000000 ns
    then to_string (ns / 1000000) ++ codes "ms"
    else if leb 1000 ns
    then to_string (ns / 1000) ++ codes "μs"
    else to_string ns ++ codes "ns"
