-- ===== src/Feed.antt =====
-- include/feed_handler.h and src/client/feed_handler.cpp: from the socket's bytes to the cache and
-- the latency statistics. The clock, the kernel's answers and the other threads are parameters;
-- what goes to the dump file, and the texts for the user, are left out.
pub mod Chunk
pub mod Process
pub mod Rounds
pub mod Answers
pub mod Delivery
pub mod View
pub mod Drained
pub mod Handler
pub mod Ending
pub mod Handled
pub mod Safety
pub mod Fresh
use qode.Base.{
  ℕ, zero, suc, ◌+◌, ◌-◌, ◌*◌, ◌/◌, ◌%◌, ◌^◌, Bool, true, false, not, ◌&&◌, ◌||◌, Option, none,
  some, List, [], ◌∷◌, ◌++◌, map, ltb, leb, ◌==◌, if◌then◌else◌, add64, u64, length,
}
use qode.Base.Double.{Arithmetic}
use qode.Protocol.{MessageHeader, TradePayload, QuotePayload, max_symbols}
use qode.Parser.{
  Parser, Event, on_trade, on_quote, on_heartbeat, on_gap, append_data, parse_messages, Run,
  Callbacks, new_parser,
}
use qode.Cache.{SymbolCache, update_trade, update_quote, new_cache}
use qode.Latency.{LatencyTracker, record_latency, reset_tracker}
use qode.Socket.{Socket, RecvResult, Received, error, nothing, bytes_in, receive}

abbrev pub recv_buffer_size : ℕ
recv_buffer_size = 4 * 1024 * 1024

abbrev pub max_iterations : ℕ
max_iterations = 1000

-- What the handlers of the messages change. `readings` counts how often the clock was read.
pub record Market : Type 0 where
  pub cache : SymbolCache
  pub latency_tracker : LatencyTracker
  pub readings : ℕ

pub record Feed : Type 0 where
  pub socket : Socket
  pub parser : Parser
  pub market : Market
  pub messages_received : ℕ
  pub bytes_received : ℕ

-- What the handler sees of the rest: the arithmetic of the machine, each reading of the clock, and
-- before each round `recv`'s answer, whether it still runs and whether its 50 ms have not passed.
pub record World : Type 0 where
  pub arithmetic : Arithmetic
  pub clock : ℕ → ℕ
  pub answers : ℕ → RecvResult
  pub running : ℕ → Bool
  pub in_time : ℕ → Bool

abbrev pub all_callbacks : Callbacks
all_callbacks = record { trade_cb = true; quote_cb = true; heartbeat_cb = true; gap_cb = true }

-- The latency of a message, unless the clock stands before the time in it.
unfoldable pub record_age : World → ℕ → Market → Market
record_age w timestamp m =
    let now_ns = w.clock m.readings in
    record m {
      readings = m.readings + 1;
      latency_tracker =
          if ltb timestamp now_ns
          then record_latency (now_ns - timestamp) m.latency_tracker
          else m.latency_tracker;
    }

-- `FeedHandler::on_trade`.
unfoldable pub handle_trade : World → MessageHeader → TradePayload → Market → Market
unfolding record_age
handle_trade w header payload m =
    let m' = record_age w header.timestamp_ns m in
    record m' {
      cache =
          update_trade header.symbol_id payload.price payload.quantity header.timestamp_ns m'.cache;
    }

-- `FeedHandler::on_quote`.
unfoldable pub handle_quote : World → MessageHeader → QuotePayload → Market → Market
unfolding record_age
handle_quote w header payload m =
    let m' = record_age w header.timestamp_ns m in
    record m' {
      cache =
          update_quote w.arithmetic header.symbol_id payload.bid_price payload.bid_quantity
            payload.ask_price payload.ask_quantity header.timestamp_ns m'.cache;
    }

-- The callbacks that the constructor sets.
unfoldable pub handle_event : World → Event → Market → Market
unfolding handle_trade handle_quote
handle_event w (on_trade header payload) m = handle_trade w header payload m
handle_event w (on_quote header payload) m = handle_quote w header payload m
handle_event w (on_heartbeat header) m = m
handle_event w (on_gap expected received) m = m

unfoldable pub handle_events : World → List Event → Market → Market
unfolding handle_event
handle_events w [] m = m
handle_events w (e ∷ es) m = handle_events w es (handle_event w e m)

-- The handlers do not touch the parser, so a run's callbacks can follow it.
unfoldable pub after_parse : World → ℕ → Option Run → Feed → Option Feed
unfolding handle_events
after_parse w n none feed = none
after_parse w n (some run) feed = some (record feed {
  parser = run.parser;
  market = handle_events w run.events feed.market;
  bytes_received = add64 feed.bytes_received n;
  messages_received = add64 feed.messages_received run.count;
})

unfoldable pub after_append : World → ℕ → Option (ℕ × Parser) → Feed → Option Feed
unfolding after_parse
after_append w n none feed = none
after_append w n (some (taken, p)) feed = after_parse w n (parse_messages p) feed

-- One round of `process_data` once bytes are there; `none` is a write past the parser's buffer.
unfoldable pub process_chunk : World → List ℕ → Feed → Option Feed
unfolding after_append
process_chunk w bytes feed = after_append w (length bytes) (append_data feed.parser bytes) feed

abbrev pub on_some : (Feed → Option Feed) → Option Feed → Option Feed
on_some k none = none
on_some k (some feed) = k feed

-- A round of `process_data`: an error or no data ends the loop, else `again` goes on.
unfoldable pub process_round : World → (Feed → Option Feed) → Received → Feed → Option Feed
unfolding process_chunk
process_round w again error feed = some feed
process_round w again nothing feed = some feed
process_round w again (bytes_in bytes) feed = on_some again (process_chunk w bytes feed)

-- The loop of `process_data` at `iterations`, with at most `left` rounds to come.
unfoldable pub process_loop : World → ℕ → ℕ → Feed → Option Feed
unfolding process_round receive
process_loop w zero iterations feed = some feed
process_loop w (suc left) iterations feed =
    let (answer, socket) = receive (w.answers iterations) feed.socket in
    let again : Feed → Option Feed = λ next. process_loop w left (iterations + 1) next in
    let rest = process_round w again answer (record feed { socket = socket }) in
    if w.running iterations && not (iterations % 100 == 0 && not (w.in_time iterations))
    then rest
    else some feed

unfoldable pub process_data : World → Feed → Option Feed
unfolding process_loop
process_data w feed = process_loop w max_iterations 0 feed
