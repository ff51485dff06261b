-- ===== src/System.antt =====
-- The whole way: src/server/tick_generator.cpp writes, the network cuts and joins, and
-- src/client/feed_handler.cpp shows.
use qode.Base.{
  ℕ, ◌+◌, ◌≤◌, ◌<◌, ◌^◌, ◌≡◌, sym, ap, ◌∙◌, some, List, [], ◌++◌, length, u32, append-nil,
}
use mathlib.Core.Option.{some-injective}
use qode.Parser.{unread}
use qode.Parser.RoundTrip.{Message, encode_all, Expects, AllSet}
use qode.Cache.Updates.{IsQuiet}
use qode.Generator.{Machine, TickGenerator}
use qode.Generator.Price.{IsReliable}
use qode.Generator.Ticks.{HasDoubles, HasSymbols}
use qode.Generator.Delivery.{Output, write_all, write_all-IsFeed, nothing-need_more}
use qode.Feed.{World, Feed, process_data}
use qode.Feed.Chunk.{IsReady}
use qode.Feed.Answers.{joined}
use qode.Feed.Drained.{IsBurst, IsInformed, process_data-IsInformed}

-- The exchange, with a random source that draws a positive number in one of the next rounds and
-- symbols up to the largest asked for, with quotients that are 64-bit patterns, and from 1 to 65536
-- symbols, writes any sequence of ticks and heartbeats; the network brings all the bytes, cut in
-- any way, in fewer than 1000 answers none of them longer than the buffer, to a handler that runs
-- on an open connection, has the time, has nothing unread and is new or expects the exchange's next
-- number, with its callbacks set, and whose cache no update is going on in. Then one call of
-- `process_data` handles as many messages as there were outputs, in order and with no error, leaves
-- nothing unread, and the snapshot of a symbol of the cache is the old one with each trade and each
-- quote on that symbol in it, in their order, and nothing else.
pub write_all-IsInformed :
    (m : Machine) (outputs : List Output) (g g' : TickGenerator) (bytes : List ℕ) (w : World)
    (feed : Feed) (n j : ℕ)
    → IsReliable m
    → HasDoubles m
    → HasSymbols m
    → 0 < g.num_symbols
    → g.num_symbols ≤ 2 ^ 16
    → write_all m outputs g ≡ some (bytes, g')
    → joined w.answers 0 n ≡ bytes
    → IsBurst w feed n
    → IsReady feed
    → unread feed.parser ≡ []
    → IsQuiet feed.market.cache
    → j < feed.market.cache.num_symbols
    → Expects feed.parser.tracking (u32 (g.sequence + 1))
    → AllSet feed.parser.tracking.callbacks
    → feed.parser.tracking.messages_parsed < 2 ^ 64
    → (ms : List Message) × (next : Feed) × (encode_all ms ≡ bytes)
      × (length ms ≡ length outputs)
      × (process_data w feed ≡ some next)
      × IsInformed w ms [] feed next j
write_all-IsInformed m outputs g g' bytes w feed n j rel double syms pos few written brought burst
      ready empty quiet inside expects set small =
    let (ms, g1, e, numbered, counted) = write_all-IsFeed m rel double syms outputs g pos few in
    let same : encode_all ms ≡ bytes = ap (λ r. r.0) (some-injective _ _ (sym e ∙ written)) in
    let stream : unread feed.parser ++ joined w.answers 0 n ≡ encode_all ms ++ [] =
      ap (λ bs. bs ++ joined w.answers 0 n) empty
      ∙ brought
      ∙ sym same
      ∙ sym (append-nil (encode_all ms)) in
    let (next, done, informed) =
      process_data-IsInformed w feed n ms (u32 (g.sequence + 1)) [] j burst ready quiet inside
        stream nothing-need_more numbered expects set small in
    (ms, next, same, counted, done, informed)
