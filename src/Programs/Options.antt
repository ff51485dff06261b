-- ===== src/Programs/Options.antt =====
-- src/server/main.cpp and src/client/main.cpp: what the options ask for. `getopt_long` gives each
-- option as a letter with its argument; `atoi` is a parameter that gives the 32-bit pattern of an
-- `int`.
use qode.Base.{
  ℕ, ◌+◌, ◌-◌, ◌^◌, Bool, true, false, ◌&&◌, List, [], ◌∷◌, ltb, ◌==◌, if◌then◌else◌, u16, u32,
  Text, codes,
}
use qode.Generator.{MarketCondition, neutral, bullish, bearish}
use qode.Feed.Handler.{FeedHandlerConfig}

abbrev pub default_port : ℕ
default_port = 9876

abbrev pub same_text : Text → Text → Bool
same_text [] [] = true
same_text (a ∷ as') (b ∷ bs) = a == b && same_text as' bs
same_text [] (b ∷ bs) = false
same_text (a ∷ as') [] = false

-- What is made of the options: the program goes on, or it ends with a code.
pub data Command {ℓ} (A : Type ℓ) : Type ℓ where
  proceed : A → Command A
  exit : ℕ → Command A

pub record ServerOptions : Type 0 where
  pub port : ℕ
  pub num_symbols : ℕ
  pub tick_rate : ℕ
  pub market : MarketCondition
  pub fault_injection : Bool

abbrev pub default_options : ServerOptions
default_options = record {
  port = default_port;
  num_symbols = 100;
  tick_rate = 100000;
  market = neutral;
  fault_injection = false;
}

-- `static_cast<size_t>` of an `int`.
abbrev pub size_of_int : ℕ → ℕ
size_of_int n = if ltb n (2 ^ 31) then n else n + (2 ^ 64 - 2 ^ 32)

module _ (atoi : Text → ℕ) where
  -- An option, or the code to end with.
  unfoldable pub read_server_option : ℕ → Text → ServerOptions → Command ServerOptions
  read_server_option opt optarg o =
      if opt == b'p'
      then proceed (record o { port = u16 (atoi optarg) })
      else if opt == b's'
      then proceed (record o { num_symbols = size_of_int (atoi optarg) })
      else if opt == b'r'
      then proceed (record o { tick_rate = u32 (atoi optarg) })
      else if opt == b'm'
      then proceed (
          if same_text optarg (codes "bull")
          then record o { market = bullish }
          else if same_text optarg (codes "bear")
          then record o { market = bearish }
          else o)
      else if opt == b'f'
      then proceed (record o { fault_injection = true })
      else exit (if opt == b'h' then 0 else 1)

  unfoldable pub read_server_options : List (ℕ × Text) → ServerOptions → Command ServerOptions
  unfolding read_server_option
  read_server_options [] o = proceed o
  read_server_options ((opt, optarg) ∷ opts) o = elim (read_server_option opt optarg o) [
    | proceed o' ↦ read_server_options opts o'
    | exit code ↦ exit code
  ]

  -- `-?` stands for `--help` and for what `getopt_long` does not know.
  unfoldable pub read_client_option : ℕ → Text → FeedHandlerConfig → Command FeedHandlerConfig
  read_client_option opt optarg c =
      if opt == b'h'
      then proceed (record c { host = optarg })
      else if opt == b'p'
      then proceed (record c { port = u16 (atoi optarg) })
      else if opt == b't'
      then proceed (record c { connect_timeout_ms = u32 (atoi optarg) })
      else if opt == b'n'
      then proceed (record c { enable_visualization = false })
      else if opt == b'r'
      then proceed (record c { auto_reconnect = false })
      else if opt == b'd'
      then proceed (record c { dump_file = optarg })
      else exit (if opt == b'?' then 0 else 1)

  unfoldable pub read_client_options :
      List (ℕ × Text) → FeedHandlerConfig → Command FeedHandlerConfig
  unfolding read_client_option
  read_client_options [] c = proceed c
  read_client_options ((opt, optarg) ∷ opts) c = elim (read_client_option opt optarg c) [
    | proceed c' ↦ read_client_options opts c'
    | exit code ↦ exit code
  ]
