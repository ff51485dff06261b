-- ===== src/Feed/Handler.antt =====
-- include/feed_handler.h and src/client/feed_handler.cpp: configuration, start, the main loop and
-- stop. What the kernel, the keyboard and the clock give is there for each round; the texts for the
-- user and what is written to the dump file are left out.
use qode.Base.{
  ℕ, Bool, true, false, ◌||◌, Option, none, some, List, [], ◌∷◌, ◌++◌, leb, if◌then◌else◌, Text,
  to_string, ◌>>=◌,
}
use qode.Socket.{
  Socket, Dial, WaitResult, Waited, lost, idle, ready, connect, reconnect, wait_for_data,
  send_subscription, disconnect, max_retry_count,
}
use qode.Socket as Connection
use qode.Cache.{MarketState, get_snapshot}
use qode.Latency.{LatencyStats, get_stats}
use qode.Visualizer.{
  is_empty, Visualizer, Sources, Size, set_connected, update_stats, process_input,
}
use qode.Visualizer as Display
use qode.Base.Double.{Arithmetic}
use qode.Feed.{World, Feed, process_data}

pub record FeedHandlerConfig : Type 0 where
  pub host : Text
  pub port : ℕ
  pub connect_timeout_ms : ℕ
  pub auto_reconnect : Bool
  pub enable_visualization : Bool
  pub dump_file : Text
  pub subscribe_symbols : List ℕ

pub record FeedHandler : Type 0 where
  pub config : FeedHandlerConfig
  pub running : Bool
  pub feed : Feed
  pub visualizer : Visualizer
  -- Whether the dump file is open.
  pub dumping : Bool

unfoldable pub configure : FeedHandlerConfig → FeedHandler → FeedHandler
configure config h = record h { config = config }

abbrev pub with_socket : Socket → FeedHandler → FeedHandler
with_socket s h = record h { feed = record (h.feed) { socket = s } }

-- The calls on the visualizer, which are made where visualization is enabled.
abbrev pub on_display : (Visualizer → Visualizer) → FeedHandler → FeedHandler
on_display g h =
    if h.config.enable_visualization then record h { visualizer = g h.visualizer } else h

unfoldable pub stop : FeedHandler → FeedHandler
unfolding disconnect Display.stop
stop h =
    let h' = on_display Display.stop (record h { running = false }) in
    with_socket (disconnect h'.feed.socket) h'

-- The destructor, and those of the visualizer and the socket.
unfoldable pub destroy : FeedHandler → FeedHandler
unfolding stop Connection.destroy Display.stop
destroy h =
    let h' = stop h in
    record (with_socket (Connection.destroy h'.feed.socket) h') {
      visualizer = Display.stop h'.visualizer;
    }

-- How the calls of `start` end: `epoll_create`, those of the connection, the bytes that `send` took
-- of the subscription, the dump file; and the terminal's size and the time.
pub record Startup : Type 0 where
  pub events_ok : Bool
  pub dial : Dial
  pub subscription : Option ℕ
  pub dump_ok : Bool
  pub size : Size
  pub time : ℕ

abbrev pub is_nil : List ℕ → Bool
is_nil [] = true
is_nil (x ∷ xs) = false

-- `host:port`.
abbrev pub address_of : FeedHandlerConfig → Text
address_of config = config.host ++ (b':' ∷ to_string config.port)

unfoldable pub start : Startup → FeedHandler → Bool × FeedHandler
unfolding connect send_subscription set_connected Display.start
start s h =
    let (connected, socket) = connect s.events_ok s.dial h.feed.socket in
    let h1 = with_socket socket h in
    let ids = h.config.subscribe_symbols in
    let show : Visualizer → Visualizer =
      λ v. Display.start s.size s.time (set_connected true (address_of h.config) v) in
    let dumps = if is_empty h.config.dump_file then h.dumping else s.dump_ok in
    if connected
    then (if is_nil ids || send_subscription s.subscription ids socket
        then (true, record (on_display show h1) { running = true; dumping = dumps })
        else (false, h1))
    else (false, h1)

-- What a round of the main loop meets; `interrupted` says whether `stop` is called from outside
-- before the round ends.
pub record Round : Type 0 where
  pub keys : List ℕ
  pub key_time : ℕ
  pub wait : WaitResult
  pub dial : Dial
  pub world : World
  pub size : Size
  pub time : ℕ
  pub interrupted : Bool

-- The visualizer holds pointers to the handler's cache and tracker.
abbrev pub sources_of : FeedHandler → Sources
sources_of h = record {
  cache = some h.feed.market.cache;
  latency_tracker = some h.feed.market.latency_tracker;
}

abbrev pub or_else {ℓ} : {A : Type ℓ} → Option A → A → A
or_else none a = a
or_else (some b) a = b

abbrev pub with_sources : Visualizer × Sources → FeedHandler → FeedHandler
with_sources (v, s) h =
    let m = h.feed.market in
    record h {
      visualizer = v;
      feed = record (h.feed) {
        market = record m {
          cache = or_else s.cache m.cache;
          latency_tracker = or_else s.latency_tracker m.latency_tracker;
        };
      };
    }

-- The keys, where visualization is enabled: whether to quit.
unfoldable pub check_input : Round → FeedHandler → Bool × FeedHandler
unfolding process_input
check_input r h =
    let (quit, v, s) = process_input r.key_time r.keys (h.visualizer, sources_of h) in
    if h.config.enable_visualization then (quit, with_sources (v, s) h) else (false, h)

-- Once `reconnect` has returned. The subscription is sent again; its outcome is not looked at.
unfoldable pub after_reconnect : Bool × ℕ × Socket → FeedHandler → FeedHandler
unfolding stop set_connected
after_reconnect (ok, slept, socket) h =
    let h' = with_socket socket h in
    if ok
    then on_display (set_connected true []) h'
    else if leb max_retry_count socket.reconnect_count
    then stop h'
    else h'

-- The connection is lost.
unfoldable pub handle_lost : Round → FeedHandler → FeedHandler
unfolding after_reconnect reconnect
handle_lost r h =
    let h' = on_display (set_connected false []) h in
    if h.config.auto_reconnect
    then after_reconnect (reconnect r.dial h'.feed.socket) h'
    else stop h'

unfoldable pub show_stats : Round → FeedHandler → FeedHandler
unfolding update_stats
show_stats r h =
    let gaps = h.feed.parser.tracking.sequence_gaps in
    on_display
      (λ v. (update_stats h.feed.messages_received h.feed.bytes_received gaps r.size r.time v).1) h

-- The round once `wait_for_data` has answered; `none` is a write past the parser's buffer.
unfoldable pub handle_wait : Round → Waited → FeedHandler → Option FeedHandler
unfolding handle_lost process_data show_stats
handle_wait r lost h = some (handle_lost r h)
handle_wait r idle h = some (show_stats r h)
handle_wait r ready h =
    process_data r.world h.feed >>= λ feed. some (show_stats r (record h { feed = feed }))

unfoldable pub end_round : Round → FeedHandler → FeedHandler
unfolding stop
end_round r h = if r.interrupted then stop h else h

unfoldable pub run_round : Round → FeedHandler → Option FeedHandler
unfolding check_input handle_wait end_round wait_for_data stop
run_round r h =
    let (quit, h1) = check_input r h in
    let (waited, socket) = wait_for_data r.wait h1.feed.socket in
    if quit
    then some (stop h1)
    else (handle_wait r waited (with_socket socket h1) >>= λ h2. some (end_round r h2))

unfoldable pub run_loop : List Round → FeedHandler → Option FeedHandler
unfolding run_round
run_loop [] h = some h
run_loop (r ∷ rs) h = if h.running then (run_round r h >>= λ h'. run_loop rs h') else some h

unfoldable pub run : Startup → List Round → FeedHandler → Option FeedHandler
unfolding start run_loop
run s rs h =
    let (ok, h') = start s h in
    if h.running then run_loop rs h else if ok then run_loop rs h' else some h'

unfoldable pub get_market_state : ℕ → FeedHandler → Option MarketState
unfolding get_snapshot
get_market_state symbol_id h = get_snapshot h.feed.market.cache symbol_id

unfoldable pub get_latency_stats : Arithmetic → FeedHandler → LatencyStats
unfolding get_stats
get_latency_stats f h = get_stats f h.feed.market.latency_tracker

unfoldable pub sequence_gaps : FeedHandler → ℕ
sequence_gaps h = h.feed.parser.tracking.sequence_gaps

unfoldable pub is_connected : FeedHandler → Bool
is_connected h = h.feed.socket.connected

-- `FeedHandler::reconnect`.
unfoldable pub force_reconnect : Dial → FeedHandler → Bool × FeedHandler
unfolding reconnect
force_reconnect d h =
    let (done, slept, socket) = reconnect d h.feed.socket in (done, with_socket socket h)
