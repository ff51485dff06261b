-- ===== src/Parser/RoundTrip.antt =====
-- A stream of messages, as the exchange writes it, comes out of the parser as it went in.
use qode.Base.{
  ℕ, ◌+◌, ◌*◌, ◌^◌, ◌≤◌, ◌<◌, ◌≡◌, refl, sym, ap, ◌∙◌, ◌⊎◌, inr, true, List, [], ◌∷◌, ◌++◌, length,
  map, drop, length-append, append_assoc, drop-length, arith, u32, add64, suc,
}
use qode.Protocol.{
  trade, quote, heartbeat, MessageHeader, TradePayload, QuotePayload, get_message_size,
  trade_message, quote_message, heartbeat_message, header_bytes, trade_bytes, quote_bytes,
}
use qode.Protocol.Layout.{
  IsTrade, IsQuote, length-header_bytes, length-trade_bytes, length-quote_bytes,
}
use qode.Parser.{
  Event, on_trade, on_quote, on_heartbeat, Callbacks, Tracking, Frame, message, need_more,
  handle_frame, success, stops, Parsed,
}
use qode.Parser.Encoded.{
  IsOf, frame_of-trade_message, frame_of-quote_message, frame_of-heartbeat_message, length-seal,
  read_trade-trade_message, read_quote-quote_message,
}
use qode.Parser.Stream.{Decodes, stop, step_at, frame_of}

pub data Message : Type 0 where
  trade_of : MessageHeader → TradePayload → Message
  quote_of : MessageHeader → QuotePayload → Message
  heartbeat_of : MessageHeader → Message

abbrev pub header_of : Message → MessageHeader
header_of (trade_of h p) = h
header_of (quote_of h p) = h
header_of (heartbeat_of h) = h

abbrev pub encode : Message → List ℕ
encode (trade_of h p) = trade_message h p
encode (quote_of h p) = quote_message h p
encode (heartbeat_of h) = heartbeat_message h

abbrev pub event_of : Message → Event
event_of (trade_of h p) = on_trade h p
event_of (quote_of h p) = on_quote h p
event_of (heartbeat_of h) = on_heartbeat h

-- The fields fit their widths and the type is the message's own.
abbrev pub IsMessage : Message → Type 0
IsMessage (trade_of h p) = IsOf trade h × IsTrade p
IsMessage (quote_of h p) = IsOf quote h × IsQuote p
IsMessage (heartbeat_of h) = IsOf heartbeat h

abbrev pub encode_all : List Message → List ℕ
encode_all [] = []
encode_all (m ∷ ms) = encode m ++ encode_all ms

-- Messages that fit, numbered from `s` on, modulo 2 ^ 32.
abbrev pub IsFeed : ℕ → List Message → Type 0
IsFeed s [] = Unit {0}
IsFeed s (m ∷ ms) = IsMessage m × ((header_of m).sequence_number ≡ s) × IsFeed (u32 (s + 1)) ms

-- The parser expects the number `s`, or any at all.
abbrev pub Expects : Tracking → ℕ → Type 0
Expects t s = (t.first_message ≡ true) ⊎ (t.expected_sequence ≡ s)

pub record AllSet (c : Callbacks) : Type 0 where
  pub trade_set : c.trade_cb ≡ true
  pub quote_set : c.quote_cb ≡ true
  pub heartbeat_set : c.heartbeat_cb ≡ true

frame_in : Message → Frame
frame_in (trade_of h p) = message h trade (trade_message h p)
frame_in (quote_of h p) = message h quote (quote_message h p)
frame_in (heartbeat_of h) = message h heartbeat (heartbeat_message h)

frame_of-encode :
    (m : Message) (rest : List ℕ) → IsMessage m → frame_of (encode m ++ rest) ≡ frame_in m
unfolding frame_in
frame_of-encode (trade_of h p) rest v = frame_of-trade_message h p rest v.0
frame_of-encode (quote_of h p) rest v = frame_of-quote_message h p rest v.0
frame_of-encode (heartbeat_of h) rest v = frame_of-heartbeat_message h rest v

-- What one message in order does.
record IsDelivered (m : Message) (t : Tracking) (r : Parsed) : Type 0 where
  pub in_order : r.result ≡ success
  pub called : r.events ≡ event_of m ∷ []
  pub consumed_all : r.consumed ≡ length (encode m)
  pub expects_next : r.tracking.expected_sequence ≡ u32 ((header_of m).sequence_number + 1)
  pub same_gaps : r.tracking.sequence_gaps ≡ t.sequence_gaps
  pub counted : r.tracking.messages_parsed ≡ add64 t.messages_parsed 1
  pub same_callbacks : r.tracking.callbacks ≡ t.callbacks
  pub same_errors : r.tracking.checksum_errors ≡ t.checksum_errors
  pub same_malformed : r.tracking.malformed_messages ≡ t.malformed_messages

pub length-trade_message : (h : MessageHeader) (p : TradePayload) → length (trade_message h p) ≡ 32
unfolding trade_message
length-trade_message h p = omega (
  arith,
  length-seal (header_bytes h ++ trade_bytes p),
  length-append (header_bytes h) (trade_bytes p),
  length-header_bytes h,
  length-trade_bytes p,
)

length-quote_message : (h : MessageHeader) (p : QuotePayload) → length (quote_message h p) ≡ 44
unfolding quote_message
length-quote_message h p = omega (
  arith,
  length-seal (header_bytes h ++ quote_bytes p),
  length-append (header_bytes h) (quote_bytes p),
  length-header_bytes h,
  length-quote_bytes p,
)

pub length-heartbeat_message : (h : MessageHeader) → length (heartbeat_message h) ≡ 20
unfolding heartbeat_message
length-heartbeat_message h = omega (arith, length-seal (header_bytes h), length-header_bytes h)

length-encode : (m : Message) → (20 ≤ length (encode m)) × (length (encode m) ≤ 44)
length-encode (trade_of h p) = omega (arith, length-trade_message h p)
length-encode (quote_of h p) = omega (arith, length-quote_message h p)
length-encode (heartbeat_of h) = omega (arith, length-heartbeat_message h)

-- A message takes from 20 to 44 bytes.
pub length-encode_all :
    (ms : List Message)
    → (20 * length ms ≤ length (encode_all ms)) × (length (encode_all ms) ≤ 44 * length ms)
length-encode_all [] = omega arith
length-encode_all (m ∷ ms) =
    omega (arith, length-append (encode m) (encode_all ms), length-encode m, length-encode_all ms)

frame_in-IsDelivered :
    (m : Message) (t : Tracking)
    → IsMessage m
    → Expects t (header_of m).sequence_number
    → AllSet t.callbacks
    → IsDelivered m t (handle_frame (frame_in m) t)
unfolding handle_frame frame_in get_message_size
frame_in-IsDelivered (trade_of h p) t v e c =
    rw (read_trade-trade_message h p v.1) (ground (arith, length-trade_message h p))
frame_in-IsDelivered (quote_of h p) t v e c =
    rw (read_quote-quote_message h p v.1) (ground (arith, length-quote_message h p))
frame_in-IsDelivered (heartbeat_of h) t v e c = ground (arith, length-heartbeat_message h)

-- Where the parser stands after a stream.
pub record IsAfter (n : ℕ) (t t' : Tracking) : Type 0 where
  pub all_counted : t'.messages_parsed ≡ add64 t.messages_parsed n
  pub no_gap : t'.sequence_gaps ≡ t.sequence_gaps
  pub no_error : t'.checksum_errors ≡ t.checksum_errors
  pub none_malformed : t'.malformed_messages ≡ t.malformed_messages

-- Messages whose fields fit their widths, numbered one after another from the number that the
-- parser expects, with the callbacks set, come out one by one and in order, with no gap, no
-- checksum error and nothing malformed; what stands behind them, a message still incomplete or
-- nothing, is left.
pub Decodes-encode_all :
    (ms : List Message) (s : ℕ) (t : Tracking) (rest : List ℕ)
    → frame_of rest ≡ need_more
    → IsFeed s ms
    → Expects t s
    → AllSet t.callbacks
    → t.messages_parsed < 2 ^ 64
    → (t' : Tracking) × Decodes t' rest t (encode_all ms ++ rest) (length ms) (map event_of ms)
      × IsAfter (length ms) t t'
Decodes-encode_all [] s t rest end v e c k = (
  t,
  stop end refl refl refl refl,
  record { all_counted = omega arith; no_gap = refl; no_error = refl; none_malformed = refl },
)
Decodes-encode_all (m ∷ ms) s t rest end v e c k =
    let f = frame_in m in
    let r = handle_frame f t in
    let d = frame_in-IsDelivered m t v.0 (rw v.1 e) c in
    let behind : drop r.consumed (encode m ++ (encode_all ms ++ rest)) ≡ encode_all ms ++ rest =
      drop-length r.consumed (encode m) (encode_all ms ++ rest) (sym d.consumed_all) in
    let (t', ds, a) =
      Decodes-encode_all ms (u32 (s + 1)) r.tracking rest end v.2
        (inr (d.expects_next ∙ ap (λ n. u32 (n + 1)) v.1)) (rw d.same_callbacks c)
        (omega (arith, d.counted)) in
    let whole : Decodes t' rest t (encode m ++ (encode_all ms ++ rest)) (suc (length ms))
        (event_of m ∷ map event_of ms) =
      step_at {count = length ms} {events = map event_of ms} f
        (frame_of-encode m (encode_all ms ++ rest) v.0) (ap stops d.in_order) (rw behind ds)
        (rw d.in_order (omega arith)) (rw d.called) in
    (
      t',
      rw (append_assoc (encode m) (encode_all ms) rest) whole,
      record {
        all_counted = omega (arith, a.all_counted, d.counted);
        no_gap = a.no_gap ∙ d.same_gaps;
        no_error = a.no_error ∙ d.same_errors;
        none_malformed = a.none_malformed ∙ d.same_malformed;
      },
    )
