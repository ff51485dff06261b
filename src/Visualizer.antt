-- ===== src/Visualizer.antt =====
-- include/visualizer.h and src/client/visualizer.cpp: the state of the display and of the terminal,
-- and the keyboard. What is written is in Visualizer/Render.
pub mod Format
pub mod Render
pub mod Numbers
pub mod Restored
pub mod Calls
use qode.Base.{
  ℕ, zero, suc, ◌+◌, ◌-◌, ◌*◌, Bool, true, false, not, Option, none, some, List, [], ◌∷◌, leb, ◌==◌,
  ◌||◌, if◌then◌else◌, Text,
}
use qode.Cache.{SymbolCache}
use qode.Cache as Cache
use qode.Latency.{LatencyTracker, reset_tracker}

abbrev pub refresh_interval_ms : ℕ
refresh_interval_ms = 500

abbrev pub max_symbols_display : ℕ
max_symbols_display = 20

-- `struct termios`, as far as it is changed here.
pub record Termios : Type 0 where
  pub echo : Bool
  pub canonical : Bool
  pub min_chars : ℕ
  pub wait_time : ℕ

-- The terminal: its settings, whether a read of it waits, and whether its cursor is shown.
pub record Terminal : Type 0 where
  pub settings : Termios
  pub blocking : Bool
  pub cursor : Bool

-- `original_termios` is a variable of the file; the cache and the tracker are the handler's.
pub record Visualizer : Type 0 where
  pub running : Bool
  pub connected : Bool
  pub server_address : Text
  pub messages_received : ℕ
  pub bytes_received : ℕ
  pub sequence_gaps : ℕ
  pub start_time : ℕ
  pub last_update : ℕ
  pub last_message_count : ℕ
  pub terminal_rows : ℕ
  pub terminal_cols : ℕ
  pub terminal_initialized : Bool
  pub original_termios : Termios
  pub terminal : Terminal

-- The answer of `ioctl(TIOCGWINSZ)`: rows and columns.
abbrev pub Size : Type 0
Size = Option (ℕ × ℕ)

unfoldable pub update_terminal_size : Size → Visualizer → Visualizer
update_terminal_size none v = v
update_terminal_size (some (rows, cols)) v = record v { terminal_rows = rows; terminal_cols = cols }

unfoldable pub init_terminal : Size → Visualizer → Visualizer
unfolding update_terminal_size
init_terminal size v =
    if v.terminal_initialized
    then v
    else let raw = record (v.terminal.settings) {
      echo = false;
      canonical = false;
      min_chars = 0;
      wait_time = 0;
    } in
      let v' = update_terminal_size size (record v {
        original_termios = v.terminal.settings;
        terminal = record { settings = raw; blocking = false; cursor = false };
      }) in
      record v' { terminal_initialized = true }

unfoldable pub restore_terminal : Visualizer → Visualizer
restore_terminal v = if not v.terminal_initialized then v else record v {
  terminal = record { settings = v.original_termios; blocking = true; cursor = true };
  terminal_initialized = false;
}

unfoldable pub start : Size → ℕ → Visualizer → Visualizer
unfolding init_terminal
start size now v =
    if v.running then v else record (init_terminal size v) { running = true; start_time = now }

unfoldable pub stop : Visualizer → Visualizer
unfolding restore_terminal
stop v = if not v.running then v else restore_terminal (record v { running = false })

abbrev pub is_empty : Text → Bool
is_empty [] = true
is_empty (c ∷ cs) = false

unfoldable pub set_connected : Bool → Text → Visualizer → Visualizer
set_connected connected server v = record v {
  connected = connected;
  server_address = if is_empty server then v.server_address else server;
}

-- The state behind `render`, which asks for the terminal's size.
unfoldable pub render_state : Size → Visualizer → Visualizer
unfolding update_terminal_size
render_state size v = if not v.running then v else update_terminal_size size v

-- Whether `update_stats` renders, and the state after it; times are in nanoseconds.
unfoldable pub update_stats : ℕ → ℕ → ℕ → Size → ℕ → Visualizer → Bool × Visualizer
unfolding render_state
update_stats messages bytes gaps size now v =
    let v' = record v {
      messages_received = messages;
      bytes_received = bytes;
      sequence_gaps = gaps;
    } in
    if leb (refresh_interval_ms * 1000000) (now - v.last_update)
    then (v.running, record (render_state size v') { last_update = now })
    else (false, v')

-- What the display shows, which `reset_stats` resets.
pub record Sources : Type 0 where
  pub cache : Option SymbolCache
  pub latency_tracker : Option LatencyTracker

abbrev pub map_option {ℓ} : {A : Type ℓ} → (A → A) → Option A → Option A
map_option g none = none
map_option g (some a) = some (g a)

unfoldable pub reset_stats : ℕ → Visualizer × Sources → Visualizer × Sources
unfolding Cache.reset reset_tracker
reset_stats now (v, s) = (
  record v {
    messages_received = 0;
    bytes_received = 0;
    sequence_gaps = 0;
    start_time = now;
    last_message_count = 0;
  },
  record {
    cache = map_option Cache.reset s.cache;
    latency_tracker = map_option (λ t. reset_tracker) s.latency_tracker;
  },
)

-- The keys that `read` gives until it gives none.
unfoldable pub process_input : ℕ → List ℕ → Visualizer × Sources → Bool × Visualizer × Sources
unfolding reset_stats
process_input now [] (v, s) = (false, v, s)
process_input now (c ∷ cs) (v, s) =
    let quit = process_input now cs (v, s) in
    let after_reset = process_input now cs (reset_stats now (v, s)) in
    if c == b'q' || c == b'Q'
    then (true, v, s)
    else if c == b'r' || c == b'R'
    then after_reset
    else quit
