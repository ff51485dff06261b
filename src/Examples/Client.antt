-- ===== src/Examples/Client.antt =====
-- The client's display and its main loop, and the ranking of the symbols.
use qode.Base.{
  ℕ, zero, suc, ◌%◌, ◌<◌, ◌≡◌, refl, true, false, none, some, List, [], ◌∷◌, arith, codes,
  read_digits,
}
use qode.Cache.{SymbolCache, MarketState, empty_state, entry_at}
use qode.Cache.Updates.{IsQuiet}
use qode.Cache.Ranking.{get_top_symbols}
use qode.Cache.Top.{IsTop, get_top_symbols-IsTop}
use qode.Visualizer.{Visualizer, Terminal, Sources, stop}
use qode.Visualizer.Restored.{IsTidy, stop-restored}
use qode.Visualizer.Calls.{Call, started, updated, keys, make_calls}
use qode.Socket.{hung_up, readable, Dial, in_progress, writable}
use qode.Socket.Backoff.{succeeds}
use qode.Feed.Handler.{FeedHandler, FeedHandlerConfig, Round, Startup, run_loop, run}
use qode.Feed.Ending.{run_loop-ends}
use qode.Feed.Handled.{IsHandled}
use qode.Feed.Safety.{run-IsHandled}
use qode.Programs.{default_config, client_main}
use qode.Programs.Options.{read_client_options, read_client_option, proceed}
use qode.Programs.Client.{client_main-IsHandled}
use qode.Examples.Stream.{feed0, feed0-IsReady, world, world-Fits}

-- Two symbols, updated three times and once.
abbrev ranked : SymbolCache
ranked = record {
  num_symbols = 2;
  entries =
      record { sequence = 6; state = record empty_state { update_count = 3 } }
      ∷ record { sequence = 2; state = record empty_state { update_count = 1 } }
      ∷ [];
}

ranked-IsQuiet : IsQuiet ranked
ranked-IsQuiet = record { fits = omega arith; even = go }
  where
    go : (i : ℕ) → i < 2 → (entry_at ranked i).sequence % 2 ≡ 0
    go zero h = refl
    go (suc zero) h = refl
    go (suc (suc i)) h = absurd (omega arith)

get_top_symbols-IsTop_example :
    (out : List (ℕ × MarketState)) × (get_top_symbols 3 ranked ≡ some out) × IsTop ranked 3 out
get_top_symbols-IsTop_example = get_top_symbols-IsTop 3 ranked ranked-IsQuiet

abbrev terminal : Terminal
terminal = record {
  settings = record { echo = true; canonical = true; min_chars = 1; wait_time = 0 };
  blocking = true;
  cursor = true;
}

abbrev display : Visualizer
display = record {
  running = false;
  connected = false;
  server_address = [];
  messages_received = 0;
  bytes_received = 0;
  sequence_gaps = 0;
  start_time = 0;
  last_update = 0;
  last_message_count = 0;
  terminal_rows = 24;
  terminal_cols = 80;
  terminal_initialized = false;
  original_termios = terminal.settings;
  terminal = terminal;
}

display-IsTidy : IsTidy terminal display
display-IsTidy = record { initialized = refl; kept = λ on. refl; untouched = λ off. refl }

abbrev no_sources : Sources
no_sources = record { cache = none; latency_tracker = none }

abbrev calls : List Call
calls =
    started (some (50, 100)) 5
    ∷ updated 7 300 0 none 900000000
    ∷ keys 10 (b'r' ∷ [])
    ∷ started none 11
    ∷ []

stop-restored_example : (stop (make_calls no_sources calls display)).terminal ≡ terminal
stop-restored_example = stop-restored terminal no_sources calls display refl refl display-IsTidy

abbrev config : FeedHandlerConfig
config = record {
  host = codes "localhost";
  port = 9876;
  connect_timeout_ms = 5000;
  auto_reconnect = true;
  enable_visualization = true;
  dump_file = [];
  subscribe_symbols = [];
}

abbrev handler : FeedHandler
handler = record {
  config = config;
  running = false;
  feed = feed0;
  visualizer = display;
  dumping = false;
}

handler-IsHandled : IsHandled terminal handler
handler-IsHandled = record {
  parses = feed0-IsReady;
  tidy = display-IsTidy;
  ends = λ off. refl;
  hidden = λ off. refl;
}

abbrev good_dial : Dial
good_dial = record {
  resolved = true;
  opened = true;
  connect_result = in_progress;
  poll_result = writable;
  socket_error = 0;
  registered = true;
}

-- The connection is made and refused at once.
abbrev refused_dial : Dial
refused_dial = record good_dial { socket_error = 111 }

abbrev bad_round : Round
bad_round = record {
  keys = [];
  key_time = 1;
  wait = hung_up;
  dial = refused_dial;
  world = world;
  size = none;
  time = 2;
  interrupted = false;
}

abbrev good_round : Round
good_round = record bad_round { wait = readable }

abbrev startup : Startup
startup = record {
  events_ok = true;
  dial = good_dial;
  subscription = none;
  dump_ok = true;
  size = some (50, 100);
  time = 3;
}

abbrev rounds : List Round
rounds = good_round ∷ bad_round ∷ []

run-IsHandled_example :
    (h' : FeedHandler) × (run startup rounds handler ≡ some h')
    × IsHandled terminal h'
    × (h'.running ≡ false → h'.visualizer.terminal ≡ terminal)
run-IsHandled_example =
    run-IsHandled terminal startup rounds handler refl refl (world-Fits, (world-Fits, tt))
      handler-IsHandled

-- The connection was lost, and two attempts were made.
abbrev lost_handler : FeedHandler
lost_handler = record handler {
  running = true;
  feed = record feed0 { socket = record (feed0.socket) { connected = false; reconnect_count = 2 } };
}

abbrev bad_rounds : List Round
bad_rounds = bad_round ∷ bad_round ∷ bad_round ∷ []

run_loop-ends_example :
    (h' : FeedHandler) × (run_loop bad_rounds lost_handler ≡ some h')
    × (h'.running ≡ false)
    × (h'.feed.socket.connected ≡ false)
run_loop-ends_example =
    run_loop-ends bad_rounds lost_handler refl (unfold succeeds in (refl, (refl, (refl, tt))))
      (omega arith) (omega arith)

-- `-n`, and what the options make of the default configuration.
abbrev quiet : FeedHandlerConfig
quiet = record default_config { enable_visualization = false }

quiet-read : read_client_options (read_digits 0) ((b'n', []) ∷ []) default_config ≡ proceed quiet
unfolding read_client_options read_client_option
quiet-read = refl

client_main-IsHandled_example :
    (h : FeedHandler) × (client_main (read_digits 0) ((b'n', []) ∷ []) terminal 0 startup rounds
      ≡ some (0, some h))
    × IsHandled terminal h
    × (h.visualizer.terminal ≡ terminal)
    × (h.visualizer.running ≡ false)
client_main-IsHandled_example =
    client_main-IsHandled (read_digits 0) ((b'n', []) ∷ []) quiet terminal 0 startup rounds refl
      refl (world-Fits, (world-Fits, tt)) quiet-read
