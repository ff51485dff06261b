-- ===== src/Feed/Delivery.antt =====
-- From the exchange's messages to the client's market data.
use qode.Base.{ℕ, ◌^◌, ◌≤◌, ◌<◌, ◌≡◌, sym, ap, ◌∙◌, subst, some, List, ◌++◌, map, add64, length}
use qode.Parser.{unread, initial_buffer_size, need_more}
use qode.Parser.Stream.{Decodes, Decodes-determined, frame_of}
use qode.Parser.RoundTrip.{
  Message, encode_all, event_of, IsFeed, Expects, AllSet, IsAfter, Decodes-encode_all,
}
use qode.Feed.{World, Feed, handle_events, process_chunk}
use qode.Feed.Chunk.{IsReady, IsFed, process_chunk-IsFed}

-- What a feed does with a run of messages.
pub record IsDelivered (w : World) (ms : List Message) (rest : List ℕ) (feed next : Feed)
    : Type 0 where
  pub handled : next.market ≡ handle_events w (map event_of ms) feed.market
  pub left : unread next.parser ≡ rest
  pub messages : next.messages_received ≡ add64 feed.messages_received (length ms)
  pub clean : IsAfter (length ms) feed.parser.tracking next.parser.tracking

module _ (w : World) (feed : Feed) (bytes : List ℕ) (ms : List Message) (s : ℕ) (rest : List ℕ)
    (stream : unread feed.parser ++ bytes ≡ encode_all ms ++ rest) (end : frame_of rest ≡ need_more)
    (numbered : IsFeed s ms) (expects : Expects feed.parser.tracking s)
    (callbacks : AllSet feed.parser.tracking.callbacks)
    (counted : feed.parser.tracking.messages_parsed < 2 ^ 64) where
  pub IsFed-IsDelivered : (next : Feed) → IsFed w feed bytes next → IsDelivered w ms rest feed next
  IsFed-IsDelivered next a =
      let t = feed.parser.tracking in
      let (t', d, after) = Decodes-encode_all ms s t rest end numbered expects callbacks counted in
      let d' =
        subst (λ bs. Decodes next.parser.tracking (unread next.parser) t bs a.count a.events) stream
          a.decoded in
      let (same_count, same_events, same_tracking, same_rest) = Decodes-determined d' d in
      record {
        handled = a.handled ∙ ap (λ es. handle_events w es feed.market) same_events;
        left = same_rest;
        messages = a.messages ∙ ap (add64 feed.messages_received) same_count;
        clean = subst (IsAfter (length ms) t) (sym same_tracking) after;
      }

  -- A chunk of at most 4 MB which completes messages of the exchange, their fields fitting their
  -- widths and numbered as the parser expects, with its callbacks set: the messages are handled in
  -- their order, each once, and counted, with no gap, no checksum error and nothing malformed, and
  -- the bytes of an incomplete one stay unread.
  process_chunk-IsDelivered :
      IsReady feed
      → length bytes ≤ initial_buffer_size
      → (next : Feed) × (process_chunk w bytes feed ≡ some next) × IsDelivered w ms rest feed next
  process_chunk-IsDelivered v h =
      let (next, e, ready, fed, kept) = process_chunk-IsFed w bytes feed v h in
      (next, e, IsFed-IsDelivered next fed)
