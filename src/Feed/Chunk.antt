-- ===== src/Feed/Chunk.antt =====
-- One chunk of bytes: it is never refused and never runs past the parser's buffer, and the messages
-- that it completes reach the cache and the statistics.
use qode.Base.{ℕ, ◌^◌, ◌≤◌, ◌<◌, ◌≡◌, refl, subst, Option, some, List, ◌++◌, add64, length, arith}
use qode.Parser.{Parser, Event, Tracking, unread, append_data, Run, initial_buffer_size, need_more}
use qode.Parser.Buffer.{IsWindow}
use qode.Parser.Append.{append_data-Appended}
use qode.Parser.Growth.{HasCapacity, IsTaken, Appended, taken, refused, overrun}
use qode.Parser.Stream.{Decodes, stop, step, frame_of}
use qode.Parser.Loop.{parse_messages-IsRun}
use qode.Parser.Frames.{need_more-lt}
use qode.Feed.{World, Feed, handle_events, process_chunk, after_append, after_parse}

-- Between two rounds: the parser's positions are in order, its buffer has one of its sizes, and the
-- unread bytes hold no complete frame; the counters are words of 64 bits.
pub record IsReady (feed : Feed) : Type 0 where
  pub window : IsWindow feed.parser
  pub capacity : HasCapacity feed.parser
  pub no_frame : frame_of (unread feed.parser) ≡ need_more
  pub messages_fit : feed.messages_received < 2 ^ 64
  pub bytes_fit : feed.bytes_received < 2 ^ 64

few_left : (feed : Feed) → IsReady feed → length (unread feed.parser) < 44
few_left feed v = need_more-lt (length (unread feed.parser)) (unread feed.parser) v.no_frame

-- From `feed` the bytes `bytes` led to `next`: the messages in them, behind what was unread, were
-- decoded, handled and counted, and what is left is unread.
pub record IsFed (w : World) (feed : Feed) (bytes : List ℕ) (next : Feed) : Type 0 where
  pub count : ℕ
  pub events : List Event
  pub decoded :
      Decodes next.parser.tracking
        (unread next.parser)
        feed.parser.tracking
        (unread feed.parser ++ bytes)
        count
        events
  pub handled : next.market ≡ handle_events w events feed.market
  pub messages : next.messages_received ≡ add64 feed.messages_received count
  pub received : next.bytes_received ≡ add64 feed.bytes_received (length bytes)

-- What is left when a stream is decoded holds no complete frame.
Decodes-left :
    {t' : Tracking} {rest : List ℕ} {t : Tracking} {bs : List ℕ} {c : ℕ} {es : List Event}
    → Decodes t' rest t bs c es
    → frame_of rest ≡ need_more
Decodes-left (stop h e k l m) = subst (λ xs. frame_of xs ≡ need_more) k h
Decodes-left (step go d l m) = Decodes-left d

-- The feed once the parser has run on the bytes that it has taken.
abbrev fed : World → ℕ → Run → Feed → Feed
fed w n run feed = record feed {
  parser = run.parser;
  market = handle_events w run.events feed.market;
  bytes_received = add64 feed.bytes_received n;
  messages_received = add64 feed.messages_received run.count;
}

abbrev Done : World → List ℕ → Feed → Option Feed → Type 0
Done w bytes feed r =
    (next : Feed) × (r ≡ some next)
    × IsReady next
    × IsFed w feed bytes next
    × (next.socket ≡ feed.socket)

taken-Done :
    (w : World) (bytes : List ℕ) (feed : Feed) (q : Parser)
    → IsTaken feed.parser bytes q
    → HasCapacity q
    → Done w bytes feed (after_append w (length bytes) (some (length bytes, q)) feed)
unfolding after_append after_parse
taken-Done w bytes feed q t c =
    let (run, e, i) = parse_messages-IsRun q t.window in
    (
      fed w (length bytes) run feed,
      rw e refl,
      record {
        window = i.window;
        capacity = rw i.same_buffer c;
        no_frame = Decodes-left i.decoded;
        messages_fit = omega arith;
        bytes_fit = omega arith;
      },
      record {
        count = i.parsed;
        events = run.events;
        decoded = rw (← t.received, ← t.same_tracking) i.decoded;
        handled = refl;
        messages = omega (arith, i.counted);
        received = refl;
      },
      refl,
    )

-- A chunk of at most 4 MB is taken whole and parsed: what is unread and the chunk are decoded, the
-- messages are handled in their order and counted, and the handler is ready for the next chunk.
pub process_chunk-IsFed :
    (w : World) (bytes : List ℕ) (feed : Feed)
    → IsReady feed
    → length bytes ≤ initial_buffer_size
    → Done w bytes feed (process_chunk w bytes feed)
unfolding process_chunk
process_chunk-IsFed w bytes feed v h =
    go (append_data-Appended feed.parser bytes v.window v.capacity)
  where
    go :
        Appended feed.parser bytes (append_data feed.parser bytes)
        → Done w bytes feed (after_append w (length bytes) (append_data feed.parser bytes) feed)
    go (refused q f win u same d full l) = absurd (omega (arith, few_left feed v, h, l))
    go (overrun f small l) = absurd (omega (arith, few_left feed v, h, l, v.capacity))
    go (taken q f t c) = rw f (taken-Done w bytes feed q t c)
