-- ===== src/Protocol/Layout.antt =====
-- The packed structs of include/protocol.h in memory: sizes, and reading back what was written.
use qode.Base.{ℕ, ◌^◌, ◌≤◌, ◌<◌, ◌≡◌, refl, List, ◌++◌, length, slice-take, take, arith}
use qode.Protocol.{
  MessageHeader, TradePayload, QuotePayload, header_bytes, trade_bytes, quote_bytes, read_header,
  read_trade, read_quote,
}
use qode.Protocol.Bytes.{to_le, from_le-to_le, IsBytes-append, IsBytes, to_le-IsBytes}

-- The values that fit the fields' widths.
pub record IsHeader (h : MessageHeader) : Type 0 where
  pub type_fits : h.message_type < 2 ^ 16
  pub sequence_fits : h.sequence_number < 2 ^ 32
  pub timestamp_fits : h.timestamp_ns < 2 ^ 64
  pub symbol_fits : h.symbol_id < 2 ^ 16

pub record IsTrade (p : TradePayload) : Type 0 where
  pub price_fits : p.price < 2 ^ 64
  pub quantity_fits : p.quantity < 2 ^ 32

pub record IsQuote (p : QuotePayload) : Type 0 where
  pub bid_fits : p.bid_price < 2 ^ 64
  pub bid_quantity_fits : p.bid_quantity < 2 ^ 32
  pub ask_fits : p.ask_price < 2 ^ 64
  pub ask_quantity_fits : p.ask_quantity < 2 ^ 32

pub length-header_bytes : (h : MessageHeader) → length (header_bytes h) ≡ 16
unfolding header_bytes to_le
length-header_bytes h = refl

pub length-trade_bytes : (p : TradePayload) → length (trade_bytes p) ≡ 12
unfolding trade_bytes to_le
length-trade_bytes p = refl

pub length-quote_bytes : (p : QuotePayload) → length (quote_bytes p) ≡ 24
unfolding quote_bytes to_le
length-quote_bytes p = refl

-- Fields behind one another are read back from their offsets.
pub read_header-header_bytes :
    (h : MessageHeader) (rest : List ℕ) → IsHeader h → read_header (header_bytes h ++ rest) ≡ h
unfolding read_header header_bytes to_le
read_header-header_bytes h rest v = λ i. record {
  message_type = from_le-to_le 2 h.message_type v.type_fits i;
  sequence_number = from_le-to_le 4 h.sequence_number v.sequence_fits i;
  timestamp_ns = from_le-to_le 8 h.timestamp_ns v.timestamp_fits i;
  symbol_id = from_le-to_le 2 h.symbol_id v.symbol_fits i;
}

pub read_trade-trade_bytes :
    (p : TradePayload) (rest : List ℕ) → IsTrade p → read_trade (trade_bytes p ++ rest) ≡ p
unfolding read_trade trade_bytes to_le
read_trade-trade_bytes p rest v = λ i. record {
  price = from_le-to_le 8 p.price v.price_fits i;
  quantity = from_le-to_le 4 p.quantity v.quantity_fits i;
}

pub read_quote-quote_bytes :
    (p : QuotePayload) (rest : List ℕ) → IsQuote p → read_quote (quote_bytes p ++ rest) ≡ p
unfolding read_quote quote_bytes to_le
read_quote-quote_bytes p rest v = λ i. record {
  bid_price = from_le-to_le 8 p.bid_price v.bid_fits i;
  bid_quantity = from_le-to_le 4 p.bid_quantity v.bid_quantity_fits i;
  ask_price = from_le-to_le 8 p.ask_price v.ask_fits i;
  ask_quantity = from_le-to_le 4 p.ask_quantity v.ask_quantity_fits i;
}

-- A header is read from the first sixteen bytes alone.
pub read_header-take : (n : ℕ) (bs : List ℕ) → 16 ≤ n → read_header (take n bs) ≡ read_header bs
unfolding read_header
read_header-take n bs h =
    rw
      (
        slice-take 0 2 n bs (omega arith),
        slice-take 2 4 n bs (omega arith),
        slice-take 6 8 n bs (omega arith),
        slice-take 14 2 n bs (omega arith),
      )
      refl

pub header_bytes-IsBytes : (h : MessageHeader) → IsBytes (header_bytes h)
unfolding header_bytes
header_bytes-IsBytes h =
    IsBytes-append (to_le 2 h.message_type) _ (to_le-IsBytes 2 h.message_type) (
      IsBytes-append (to_le 4 h.sequence_number) _ (to_le-IsBytes 4 h.sequence_number) (
        IsBytes-append (to_le 8 h.timestamp_ns) _ (to_le-IsBytes 8 h.timestamp_ns)
          (to_le-IsBytes 2 h.symbol_id)))

pub trade_bytes-IsBytes : (p : TradePayload) → IsBytes (trade_bytes p)
unfolding trade_bytes
trade_bytes-IsBytes p =
    IsBytes-append (to_le 8 p.price) _ (to_le-IsBytes 8 p.price) (to_le-IsBytes 4 p.quantity)

pub quote_bytes-IsBytes : (p : QuotePayload) → IsBytes (quote_bytes p)
unfolding quote_bytes
quote_bytes-IsBytes p = IsBytes-append (to_le 8 p.bid_price) _ (to_le-IsBytes 8 p.bid_price) (
    IsBytes-append (to_le 4 p.bid_quantity) _ (to_le-IsBytes 4 p.bid_quantity) (
      IsBytes-append (to_le 8 p.ask_price) _ (to_le-IsBytes 8 p.ask_price)
        (to_le-IsBytes 4 p.ask_quantity)))
