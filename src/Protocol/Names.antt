-- ===== src/Protocol/Names.antt =====
-- include/protocol.h: the names of the symbols.
use qode.Base.{
  ℕ, List, [], ◌∷◌, ◌++◌, Option, none, some, get_elem?, Text, codes, to_string, pad_left, take,
}

abbrev pub symbols : List Text
symbols =
    codes "RELIANCE"
    ∷ codes "TCS"
    ∷ codes "INFY"
    ∷ codes "HDFC"
    ∷ codes "ICICIBANK"
    ∷ codes "HDFCBANK"
    ∷ codes "SBIN"
    ∷ codes "BHARTIARTL"
    ∷ codes "ITC"
    ∷ codes "KOTAKBANK"
    ∷ codes "LT"
    ∷ codes "HINDUNILVR"
    ∷ codes "AXISBANK"
    ∷ codes "BAJFINANCE"
    ∷ codes "MARUTI"
    ∷ codes "ASIANPAINT"
    ∷ codes "TITAN"
    ∷ codes "SUNPHARMA"
    ∷ codes "ULTRACEMCO"
    ∷ codes "WIPRO"
    ∷ codes "HCLTECH"
    ∷ codes "TECHM"
    ∷ codes "POWERGRID"
    ∷ codes "NTPC"
    ∷ codes "ONGC"
    ∷ codes "TATASTEEL"
    ∷ codes "JSWSTEEL"
    ∷ codes "COALINDIA"
    ∷ codes "BPCL"
    ∷ codes "IOC"
    ∷ codes "GRASIM"
    ∷ codes "ADANIPORTS"
    ∷ codes "DRREDDY"
    ∷ codes "DIVISLAB"
    ∷ codes "CIPLA"
    ∷ codes "APOLLOHOSP"
    ∷ codes "EICHERMOT"
    ∷ codes "HEROMOTOCO"
    ∷ codes "BAJAJ-AUTO"
    ∷ codes "M&M"
    ∷ codes "TATAMOTORS"
    ∷ codes "NESTLEIND"
    ∷ codes "BRITANNIA"
    ∷ codes "DABUR"
    ∷ codes "GODREJCP"
    ∷ codes "PIDILITIND"
    ∷ codes "BERGER"
    ∷ codes "HAVELLS"
    ∷ codes "VOLTAS"
    ∷ codes "BLUESTAR"
    ∷ []

-- `snprintf(buffer, 16, "SYM%03u", symbol_id)`.
abbrev pub generic_name : ℕ → Text
generic_name symbol_id = take 15 (codes "SYM" ++ pad_left 3 b'0' (to_string symbol_id))

abbrev pub name_or : Option Text → ℕ → Text
name_or none symbol_id = generic_name symbol_id
name_or (some name) symbol_id = name

unfoldable pub get_symbol_name : ℕ → Text
get_symbol_name symbol_id = name_or (get_elem? symbols symbol_id) symbol_id
