-- ===== src/Programs.antt =====
-- src/server/main.cpp and src/client/main.cpp: the objects that the options ask for, and the
-- programs as a whole. The texts for the user and the signal handlers, which call `stop`, are left
-- out.
pub mod Options
pub mod Server
pub mod Client
use qode.Base.{
  ℕ, zero, suc, ◌+◌, ◌-◌, ◌^◌, Bool, true, false, ◌&&◌, Option, none, some, List, [], ◌∷◌, ltb,
  ◌==◌, if◌then◌else◌, u16, u32, Text, codes, ◌>>=◌,
}
use qode.Protocol.{max_symbols}
use qode.Parser.{new_parser}
use qode.Cache.{new_cache}
use qode.Latency.{reset_tracker}
use qode.Generator.{Machine, MarketCondition, neutral, bullish, bearish}
use qode.Exchange.Simulator as Simulator
use qode.Exchange.Simulator.{
  new_simulator, set_tick_rate, set_market_condition, enable_fault_injection,
}
use qode.Exchange.Ticks.{ExchangeSimulator}
use qode.Visualizer.{Visualizer, Terminal}
use qode.Feed.{Feed, all_callbacks}
use qode.Feed.Handler as Handler
use qode.Feed.Handler.{FeedHandler, FeedHandlerConfig, configure}
use qode.Programs.Options.{
  default_port, Command, ServerOptions, default_options, read_server_options, read_client_options,
  proceed, exit,
}

-- The simulator that the options ask for.
unfoldable pub configured : Machine → ServerOptions → ExchangeSimulator
unfolding new_simulator set_tick_rate set_market_condition enable_fault_injection
configured w o =
    enable_fault_injection o.fault_injection
      (set_market_condition w o.market (set_tick_rate o.tick_rate (new_simulator w o.num_symbols)))

-- `main` behind the options: the exit code, and the simulator once it is destroyed. A start that
-- fails is tried once more by `run`.
unfoldable pub serve :
    Machine
    → Simulator.Startup
    → Simulator.Startup
    → ℕ
    → List Simulator.Round
    → Command ServerOptions
    → Option (ℕ × Option ExchangeSimulator)
unfolding configured Simulator.start Simulator.run Simulator.destroy
serve w first second now rounds (proceed o) =
    Simulator.run w second now rounds (Simulator.start first (configured w o)) >>= λ x.
    some (0, some (Simulator.destroy x))
serve w first second now rounds (exit code) = some (code, none)

unfoldable pub server_main :
    Machine
    → (Text → ℕ)
    → List (ℕ × Text)
    → Simulator.Startup
    → Simulator.Startup
    → ℕ
    → List Simulator.Round
    → Option (ℕ × Option ExchangeSimulator)
unfolding read_server_options serve
server_main w atoi opts first second now rounds =
    serve w first second now rounds (read_server_options atoi opts default_options)

abbrev pub default_config : FeedHandlerConfig
default_config = record {
  host = codes "localhost";
  port = default_port;
  connect_timeout_ms = 5000;
  auto_reconnect = true;
  enable_visualization = true;
  dump_file = [];
  subscribe_symbols = [];
}

-- `Visualizer()` on a terminal; `original_termios` has not been read yet.
unfoldable pub new_visualizer : Terminal → ℕ → Visualizer
new_visualizer terminal now = record {
  running = false;
  connected = false;
  server_address = [];
  messages_received = 0;
  bytes_received = 0;
  sequence_gaps = 0;
  start_time = now;
  last_update = now;
  last_message_count = 0;
  terminal_rows = 24;
  terminal_cols = 80;
  terminal_initialized = false;
  original_termios = record { echo = false; canonical = false; min_chars = 0; wait_time = 0 };
  terminal = terminal;
}

unfoldable pub new_handler : Terminal → ℕ → FeedHandler
unfolding new_visualizer new_parser new_cache reset_tracker
new_handler terminal now = record {
  config = default_config;
  running = false;
  feed = record {
    socket = record {
      has_fd = false;
      has_events = false;
      connected = false;
      reconnect_count = 0;
      current_backoff_ms = 100;
      bytes_received = 0;
      recv_calls = 0;
    };
    parser = new_parser all_callbacks;
    market = record {
      cache = new_cache max_symbols;
      latency_tracker = reset_tracker;
      readings = 0;
    };
    messages_received = 0;
    bytes_received = 0;
  };
  visualizer = new_visualizer terminal now;
  dumping = false;
}

-- `main` behind the options: the exit code, and the handler once it is destroyed.
unfoldable pub watch :
    Terminal
    → ℕ
    → Handler.Startup
    → List Handler.Round
    → Command FeedHandlerConfig
    → Option (ℕ × Option FeedHandler)
unfolding new_handler configure Handler.run Handler.destroy
watch terminal now s rounds (proceed config) =
    Handler.run s rounds (configure config (new_handler terminal now)) >>= λ h.
    some (0, some (Handler.destroy h))
watch terminal now s rounds (exit code) = some (code, none)

unfoldable pub client_main :
    (Text → ℕ)
    → List (ℕ × Text)
    → Terminal
    → ℕ
    → Handler.Startup
    → List Handler.Round
    → Option (ℕ × Option FeedHandler)
unfolding read_client_options watch
client_main atoi opts terminal now s rounds =
    watch terminal now s rounds (read_client_options atoi opts default_config)
