-- ===== src/Examples/System.antt =====
-- Two ticks and a heartbeat on their way from the generator to a new client.
use qode.Base.{
  ℕ, zero, suc, ◌+◌, ◌<◌, ◌≤◌, ◌≡◌, refl, inl, true, List, [], ◌++◌, some, length, append-nil,
  arith, ap, ◌∙◌, ◌^◌,
}
use qode.Parser.{fresh, initial_buffer_size}
use qode.Parser.RoundTrip.{Message, encode_all, IsFeed, length-encode_all, AllSet, Expects}
use qode.Cache.Updates.{new_cache-IsQuiet}
use qode.Cache.{new_cache}
use qode.Generator.{TickGenerator}
use qode.Generator.Delivery.{write_all, write_all-IsFeed}
use qode.Socket.{received, would_block}
use qode.Feed.{World, all_callbacks, Feed, process_data}
use qode.Feed.Fresh.{new_parser-unread}
use qode.Feed.Rounds.{goes}
use qode.Feed.Answers.{Fits, bytes_of}
use qode.Feed.Drained.{IsBurst, IsInformed, process_data-IsInformed}
use qode.Examples.{whole_arithmetic}
use qode.Examples.Stream.{
  feed0, feed0-IsReady, parser0-fresh, trades, partial, trades-IsFeed, partial-need_more,
  message_bytes, length-message_bytes,
}
use qode.Examples.Exchange.{
  machine, machine-IsReliable, machine-HasDoubles, machine-HasSymbols, generator, outputs,
}
use qode.System.{write_all-IsInformed}

sent :
    (ms : List Message) × (g' : TickGenerator) × (write_all machine outputs generator
      ≡ some (encode_all ms, g'))
    × IsFeed 1 ms
    × (length ms ≡ 3)
sent =
    write_all-IsFeed machine machine-IsReliable machine-HasDoubles machine-HasSymbols outputs
      generator (omega arith) (omega arith)

-- Bytes that come in one piece.
abbrev one_piece : List ℕ → World
one_piece bytes = record {
  arithmetic = whole_arithmetic;
  clock = λ i. 2000 + i;
  answers = λ i. elim i [ zero ↦ received bytes | suc k ↦ would_block ];
  running = λ i. true;
  in_time = λ i. true;
}

one_piece-IsBurst :
    (bytes : List ℕ) → 0 < length bytes → length bytes ≤ 1000 → IsBurst (one_piece bytes) feed0 1
one_piece-IsBurst bytes some_bytes few = record {
  fits = unfold Fits in short;
  few = omega arith;
  runs = λ i. goes_on i;
  opened = refl;
  filled = some_first;
  ended = refl;
}
  where
    short : (i : ℕ) → length (bytes_of ((one_piece bytes).answers i)) ≤ initial_buffer_size
    short zero = omega (arith, few)
    short (suc i) = omega arith

    goes_on : (i : ℕ) → goes (one_piece bytes) i ≡ true
    goes_on i = ground arith

    some_first : (i : ℕ) → i < 1 → 0 < length (bytes_of ((one_piece bytes).answers i))
    some_first zero h = some_bytes
    some_first (suc i) h = absurd (omega arith)

all_set : AllSet feed0.parser.tracking.callbacks
all_set =
    rw parser0-fresh
      (unfold fresh in record { trade_set = refl; quote_set = refl; heartbeat_set = refl })

few_parsed : feed0.parser.tracking.messages_parsed < 2 ^ 64
few_parsed = rw parser0-fresh (unfold fresh in omega arith)

from_start : (s : ℕ) → Expects feed0.parser.tracking s
from_start s = rw parser0-fresh (unfold fresh in inl refl)

few_symbols : 3 < feed0.market.cache.num_symbols
unfolding new_cache
few_symbols = omega arith

process_data-IsInformed_example :
    (next : Feed) × (process_data (one_piece message_bytes) feed0 ≡ some next)
    × IsInformed (one_piece message_bytes) trades partial feed0 next 3
process_data-IsInformed_example =
    process_data-IsInformed (one_piece message_bytes) feed0 1 trades 7 partial 3
      (one_piece-IsBurst message_bytes (omega (arith, length-message_bytes))
        (omega (arith, length-message_bytes)))
      feed0-IsReady (new_cache-IsQuiet 500) few_symbols
      (ap (λ bs. bs ++ (message_bytes ++ [])) (new_parser-unread all_callbacks)
        ∙ append-nil message_bytes)
      partial-need_more trades-IsFeed (from_start 7) all_set few_parsed

abbrev sent_bytes : List ℕ
sent_bytes = encode_all sent.0

sent_bytes_bounds : (0 < length sent_bytes) × (length sent_bytes ≤ 1000)
sent_bytes_bounds = omega (arith, length-encode_all sent.0, sent.4)

write_all-IsInformed_example :
    (ms : List Message) × (next : Feed) × (encode_all ms ≡ sent_bytes)
    × (length ms ≡ 3)
    × (process_data (one_piece sent_bytes) feed0 ≡ some next)
    × IsInformed (one_piece sent_bytes) ms [] feed0 next 3
write_all-IsInformed_example =
    write_all-IsInformed machine outputs generator sent.1 sent_bytes (one_piece sent_bytes) feed0 1
      3 machine-IsReliable machine-HasDoubles machine-HasSymbols (omega arith) (omega arith) sent.2
      (append-nil sent_bytes) (one_piece-IsBurst sent_bytes sent_bytes_bounds.0 sent_bytes_bounds.1)
      feed0-IsReady (new_parser-unread all_callbacks) (new_cache-IsQuiet 500) few_symbols
      (from_start 1) all_set few_parsed
