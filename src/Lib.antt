-- ===== src/Lib.antt =====
-- qode: an exchange simulator and a market data client. The exchange writes a stream of binary
-- messages to its clients over TCP; the client cuts the stream into messages, keeps the market state
-- of each symbol and the statistics of the latencies.
--
-- The parts, and the files that model them (paths from the repository's root):
--   include/protocol.h: Protocol. The packed structs are lists of bytes (`header_bytes`, `read_header`
--     and so on) in the order of a little-endian host; `calculate_checksum` is the XOR checksum.
--     `trade_message`, `quote_message` and `heartbeat_message` are the bytes that
--     src/server/tick_generator.cpp puts together.
--   include/parser.h, src/client/parser.cpp: Parser. The state is the record `Parser` with the vector,
--     the two positions and, in `Tracking`, the sequence state and the counters. `append_data`,
--     `compact_buffer`, `parse_messages`, `parse_one`, `validate_checksum`, `check_sequence` and
--     `reset` have the names of the methods. A call of a callback is an `Event` of the result.
--     Parser/Messages has what happens to one message, from its bytes on.
--     Parser/Stream is the specification: what a stream of bytes means, without a buffer.
--   include/cache.h, src/common/cache.cpp: Cache for calls that run alone, Cache/Seqlock for one entry
--     whose writer and reader interleave access by access, Cache/Ranking for `get_top_symbols`.
--   include/latency_tracker.h, src/common/latency_tracker.cpp: Latency for calls that run alone,
--     Latency/Race for calls of `record` that run at once.
--   include/memory_pool.h, src/common/memory_pool.cpp: Pool. Pointers are addresses
--     of 64 bits. Pool/Steps has the calls of its users one after another, the blocks that they hold
--     and what they write into these; Pool/Users what holds then.
--   include/client_manager.h, src/server/client_manager.cpp: Clients. The map is a list of entries;
--     Clients/Entries has what happens to one entry, Clients/Calls the calls and their answers,
--     Clients/Registry the map without its order as a quotient, Clients/Descriptors the descriptors, of
--     which `closed` records the calls of `close`.
--   include/socket.h, src/client/socket.cpp: Socket. The answers of the calls of `do_connect`, one
--     after another, are a `Dial`. `destroy` is the destructor, here, in Feed/Handler, in Clients and in
--     Exchange/Simulator.
--   include/feed_handler.h, src/client/feed_handler.cpp: Feed, which puts the socket, the parser, the
--     cache and the statistics together: `process_data`, and `handle_trade` and `handle_quote` for
--     `on_trade` and `on_quote`. Feed/Handler is the handler around it: `start`, the main loop `run`
--     (`check_input`, `handle_lost`, `handle_wait` and `show_stats` are its parts) and `stop`.
--     Feed/View says what a client knows once it has received messages, without a parser or a cache.
--   include/visualizer.h, src/client/visualizer.cpp: Visualizer for the state, the terminal and the
--     keyboard, Visualizer/Format for the number formats, Visualizer/Render for the text that `render`
--     writes. A text is the list of its code points.
--   include/tick_generator.h, src/server/tick_generator.cpp: Generator/Process for the random
--     numbers and the price of a symbol, Generator for the rest.
--   include/exchange_simulator.h, src/server/exchange_simulator.cpp: Exchange for the requests of the
--     clients, Exchange/Ticks for the ticks and the heartbeats, Exchange/Simulator for the main loop,
--     whose rounds are `run_round`; they drive Generator and Clients.
--   src/server/main.cpp, src/client/main.cpp: Programs/Options for the options, Programs for the
--     objects that are made of them, and what `main` ends with; `server_main` and `client_main` put
--     the whole together.
--   System has the whole way, from the calls of the generator to the cache of the client that reads
--     what it wrote. Base holds what the files share, Examples the theorems at concrete inputs.
--
-- Numbers and bounds. A word of w bits is a natural number with its wrap-around written out. A
-- `double` is its 64-bit pattern; its arithmetic is the parameter `Arithmetic`, of which nothing is
-- assumed. What the kernel answers to `recv`, `send`, `ioctl`, `epoll_wait` and the calls that make a
-- connection, the readings of the clock, and what other threads decide, are arguments. The loop of
-- `parse_messages` runs on fuel, one round more than there are unread bytes, which is enough as every
-- round that goes on consumes one byte at least; the loop of `process_data` has its own bound of 1000
-- rounds. A write past the end of the parser's buffer is `none`. The loop that waits for a positive
-- random number looks at `rounds` draws and is `none` when they are used up; `IsReliable` says that
-- there are enough. What a distribution makes of each draw is given by its number (`Machine`). The main
-- loops run over a list of rounds, each of which says what the kernel, the clock, the keyboard and a
-- call of `stop` from outside do in it.
--
-- Concurrency. The sequence lock is modelled as a step relation in which the writer and a reader take
-- turns at each access, in the order of the program, as the fences demand. `allocate` of the pool can
-- be taken apart into its load and its exchange. `record` of the latency tracker is cut into its
-- accesses, which any number of calls make in the order of a schedule, weak exchanges that fail for no
-- reason included. The other operations are modelled as run by one thread.
--
-- Not modelled: `getopt_long` and `atoi`, whose results are arguments, and the signal handlers, which
-- call `stop`; socket options, the variant for kqueue, the texts of `last_error_`, log texts and the
-- statistics that src/server/main.cpp prints at its end with `format_duration`, what is written to the
-- dump file, and the callback on a client's disconnection.
pub mod Base
pub mod Protocol
pub mod Parser
pub mod Cache
pub mod Latency
pub mod Pool
pub mod Clients
pub mod Socket
pub mod Visualizer
pub mod Feed
pub mod Generator
pub mod Exchange
pub mod System
pub mod Programs
pub mod Examples
