-- ===== src/Examples/Stream.antt =====
-- The parser and the feed handler on a message, on noise, and on the first bytes of a message.
use qode.Base.{
  ℕ, ◌+◌, ◌*◌, ◌<◌, ◌≡◌, ◌≢◌, ◌↔◌, refl, inl, true, List, [], ◌∷◌, ◌++◌, some, none, length,
  replicate, length-replicate, length-append, ltb, arith,
}
use qode.Protocol.{
  MessageHeader, from_message_type, TradePayload, trade_message, calculate_checksum, read_header,
  to_message_type, get_message_size,
}
use qode.Protocol.Bytes.{from_le}
use qode.Protocol.Checksum.{calculate_checksum-set}
use qode.Parser.{
  Parser, Tracking, new_parser, fresh, unread, append_data, parse_messages, Run, next_frame,
  handle_frame, count_malformed, on_trade, need_more, max_buffer_size, initial_buffer_size,
}
use qode.Parser.Buffer.{IsWindow}
use qode.Parser.Growth.{Appended}
use qode.Parser.Append.{append_data-Appended, append_data-eq-none_iff}
use qode.Parser.Stream.{Decodes, stop, step, frame_of, Decodes-append}
use qode.Parser.Loop.{IsRun, parse_messages-IsRun}
use qode.Parser.RoundTrip.{
  Message, trade_of, encode_all, IsFeed, IsAfter, Decodes-encode_all, length-trade_message,
}
use qode.Cache.{new_cache}
use qode.Latency.{reset_tracker}
use qode.Socket.{received}
use qode.Feed.{World, Feed, all_callbacks, process_data, max_iterations}
use qode.Feed.Fresh.{new_parser-IsReady, new_parser-IsWindow, new_parser-HasCapacity}
use qode.Feed.Chunk.{IsReady}
use qode.Feed.Process.{process_data-Processed}
use qode.Feed.Rounds.{Processed}
use qode.Feed.Answers.{Fits}
use qode.Examples.{whole_arithmetic}

abbrev header : MessageHeader
header = record { message_type = 1; sequence_number = 7; timestamp_ns = 1000; symbol_id = 3 }

abbrev payload : TradePayload
payload = record { price = 100; quantity = 5 }

abbrev pub trades : List Message
trades = trade_of header payload ∷ []

pub trades-IsFeed : IsFeed 7 trades
trades-IsFeed = (
  (
    (
      record {
        type_fits = omega arith;
        sequence_fits = omega arith;
        timestamp_fits = omega arith;
        symbol_fits = omega arith;
      },
      unfold from_message_type in refl,
    ),
    record { price_fits = omega arith; quantity_fits = omega arith },
  ),
  refl,
  tt,
)

abbrev pub partial : List ℕ
partial = 1 ∷ 0 ∷ []

pub partial-need_more : frame_of partial ≡ need_more
unfolding next_frame
partial-need_more = refl

nothing-need_more : frame_of [] ≡ need_more
unfolding next_frame
nothing-need_more = refl

abbrev pub parser0 : Parser
parser0 = new_parser all_callbacks

abbrev pub feed0 : Feed
feed0 = record {
  socket = record {
    has_fd = true;
    has_events = true;
    connected = true;
    reconnect_count = 0;
    current_backoff_ms = 100;
    bytes_received = 0;
    recv_calls = 0;
  };
  parser = parser0;
  market = record { cache = new_cache 500; latency_tracker = reset_tracker; readings = 0 };
  messages_received = 0;
  bytes_received = 0;
}

abbrev pub message_bytes : List ℕ
message_bytes = encode_all trades ++ partial

abbrev pub world : World
world = record {
  arithmetic = whole_arithmetic;
  clock = λ i. 2000 + i;
  answers = λ i. received message_bytes;
  running = λ i. ltb i 2;
  in_time = λ i. true;
}

pub length-message_bytes : length message_bytes ≡ 34
length-message_bytes = omega (
  arith,
  length-append (trade_message header payload ++ []) partial,
  length-append (trade_message header payload) [],
  length-trade_message header payload,
)

small_lt : (n : ℕ) → n ≡ initial_buffer_size → n < max_buffer_size
small_lt n e = omega arith

pub parser0-fresh : parser0.tracking ≡ fresh all_callbacks
unfolding new_parser
parser0-fresh = refl

pub feed0-IsReady : IsReady feed0
feed0-IsReady = new_parser-IsReady all_callbacks feed0 refl (omega arith) (omega arith)

pub world-Fits : Fits world
unfolding Fits
world-Fits = λ i. omega (arith, length-message_bytes)

process_data-Processed_example : Processed world max_iterations 0 feed0 (process_data world feed0)
process_data-Processed_example = process_data-Processed world feed0 world-Fits feed0-IsReady

Decodes-encode_all_example :
    (t' : Tracking) × Decodes t' partial
      (fresh all_callbacks)
      (encode_all trades ++ partial)
      (length trades)
      (on_trade header payload ∷ [])
    × IsAfter (length trades) (fresh all_callbacks) t'
unfolding fresh
Decodes-encode_all_example =
    Decodes-encode_all trades 7 (fresh all_callbacks) partial partial-need_more trades-IsFeed
      (inl refl) (record { trade_set = refl; quote_set = refl; heartbeat_set = refl }) (omega arith)

-- Bytes that are no message.
abbrev noise : ℕ → List ℕ
noise n = replicate n 9

abbrev noisy : Parser
noisy = record { buffer = noise 20; read_pos = 2; write_pos = 20; tracking = fresh all_callbacks }

noisy-IsWindow : IsWindow noisy
noisy-IsWindow = record { ordered = omega arith; within = omega arith }

parse_messages-IsRun_example : (run : Run) × (parse_messages noisy ≡ some run) × IsRun noisy 0 run
parse_messages-IsRun_example = parse_messages-IsRun noisy noisy-IsWindow

append_data-Appended_example : Appended parser0 (noise 20) (append_data parser0 (noise 20))
append_data-Appended_example =
    append_data-Appended parser0 (noise 20) (new_parser-IsWindow all_callbacks)
      (new_parser-HasCapacity all_callbacks)

parser0_small : length parser0.buffer < max_buffer_size
unfolding new_parser
parser0_small = small_lt _ (length-replicate initial_buffer_size (let z : ℕ = 0 in z))

append_data-eq-none_iff_example :
    (append_data parser0 (noise 20) ≡ none)
    ↔ (2 * length parser0.buffer < length (unread parser0) + length (noise 20))
append_data-eq-none_iff_example =
    append_data-eq-none_iff parser0 (noise 20) (new_parser-IsWindow all_callbacks)
      (new_parser-HasCapacity all_callbacks) parser0_small

-- Sixteen such bytes are one malformed frame, which costs one byte.
noise-Decodes : (t : Tracking) → Decodes (count_malformed t) (noise 15) t (noise 16) 0 []
unfolding next_frame handle_frame read_header from_le to_message_type get_message_size
noise-Decodes t = step refl (stop refl refl refl refl refl) refl refl

Decodes-append_example :
    let t = fresh all_callbacks in
    Decodes (count_malformed (count_malformed t)) (noise 15) t (noise 16 ++ noise 1) 0 []
Decodes-append_example =
    Decodes-append (noise 1) (noise-Decodes (fresh all_callbacks))
      (noise-Decodes (count_malformed (fresh all_callbacks)))

calculate_checksum-set_example :
    calculate_checksum (1 ∷ 9 ∷ 3 ∷ 4 ∷ 5 ∷ []) ≢ calculate_checksum (1 ∷ 2 ∷ 3 ∷ 4 ∷ 5 ∷ [])
calculate_checksum-set_example =
    calculate_checksum-set (1 ∷ 2 ∷ 3 ∷ 4 ∷ 5 ∷ []) 1 9 (omega arith) (λ e. omega arith)
