-- ===== src/Protocol.antt =====
-- include/protocol.h: message types and sizes, the packed structs, the XOR checksum.
-- The structs are packed and copied by `memcpy`; the byte order is that of a little-endian host.
pub mod Bytes
pub mod Xor
pub mod Checksum
pub mod Layout
pub mod Names
use qode.Base.{
  ℕ, ◌+◌, ◌-◌, ◌*◌, ◌%◌, ◌^◌, List, [], ◌∷◌, ◌++◌, ltb, ◌==◌, if◌then◌else◌, bit_xor, zero, suc,
  take, slice,
}
use Bytes.{to_le, from_le}

-- `enum class MessageType : uint16_t`; a value that no enumerator names is kept as it is.
pub data MessageType : Type 0 where
  trade quote heartbeat : MessageType
  unnamed : ℕ → MessageType

-- `static_cast<MessageType>(header->message_type)`.
unfoldable pub to_message_type : ℕ → MessageType
to_message_type n =
    if n == 1 then trade else if n == 2 then quote else if n == 3 then heartbeat else unnamed n

-- `static_cast<uint16_t>(MessageType::…)`.
unfoldable pub from_message_type : MessageType → ℕ
from_message_type trade = 1
from_message_type quote = 2
from_message_type heartbeat = 3
from_message_type (unnamed n) = n

abbrev pub header_size : ℕ
header_size = 16

abbrev pub trade_payload_size : ℕ
trade_payload_size = 12

abbrev pub quote_payload_size : ℕ
quote_payload_size = 24

abbrev pub checksum_size : ℕ
checksum_size = 4

abbrev pub trade_msg_size : ℕ
trade_msg_size = header_size + trade_payload_size + checksum_size

abbrev pub quote_msg_size : ℕ
quote_msg_size = header_size + quote_payload_size + checksum_size

abbrev pub heartbeat_msg_size : ℕ
heartbeat_msg_size = header_size + checksum_size

abbrev pub max_symbols : ℕ
max_symbols = 500

abbrev pub subscribe_cmd : ℕ
subscribe_cmd = 0xff

unfoldable pub get_message_size : MessageType → ℕ
get_message_size trade = trade_msg_size
get_message_size quote = quote_msg_size
get_message_size heartbeat = heartbeat_msg_size
get_message_size (unnamed n) = 0

pub record MessageHeader : Type 0 where
  pub message_type : ℕ
  pub sequence_number : ℕ
  pub timestamp_ns : ℕ
  pub symbol_id : ℕ

-- A `double` is its 64-bit pattern.
pub record TradePayload : Type 0 where
  pub price : ℕ
  pub quantity : ℕ

pub record QuotePayload : Type 0 where
  pub bid_price : ℕ
  pub bid_quantity : ℕ
  pub ask_price : ℕ
  pub ask_quantity : ℕ

-- The memory of the packed structs.
unfoldable pub header_bytes : MessageHeader → List ℕ
header_bytes h =
    to_le 2 h.message_type
    ++ (to_le 4 h.sequence_number ++ (to_le 8 h.timestamp_ns ++ to_le 2 h.symbol_id))

unfoldable pub trade_bytes : TradePayload → List ℕ
trade_bytes p = to_le 8 p.price ++ to_le 4 p.quantity

unfoldable pub quote_bytes : QuotePayload → List ℕ
quote_bytes p =
    to_le 8 p.bid_price
    ++ (to_le 4 p.bid_quantity ++ (to_le 8 p.ask_price ++ to_le 4 p.ask_quantity))

-- `reinterpret_cast` of memory that starts with such a struct.
unfoldable pub read_header : List ℕ → MessageHeader
read_header bs = record {
  message_type = from_le (slice 0 2 bs);
  sequence_number = from_le (slice 2 4 bs);
  timestamp_ns = from_le (slice 6 8 bs);
  symbol_id = from_le (slice 14 2 bs);
}

unfoldable pub read_trade : List ℕ → TradePayload
read_trade bs = record { price = from_le (slice 0 8 bs); quantity = from_le (slice 8 4 bs) }

unfoldable pub read_quote : List ℕ → QuotePayload
read_quote bs = record {
  bid_price = from_le (slice 0 8 bs);
  bid_quantity = from_le (slice 8 4 bs);
  ask_price = from_le (slice 12 8 bs);
  ask_quantity = from_le (slice 20 4 bs);
}

-- `for (; i < len; i++) checksum ^= uint32_t(bytes[i]) << ((i % 4) * 8)`.
checksum_tail : ℕ → ℕ → List ℕ → ℕ
checksum_tail checksum i [] = checksum
checksum_tail checksum i (b ∷ bs) =
    checksum_tail (bit_xor checksum (b * 2 ^ (i % 4 * 8))) (i + 1) bs

-- `for (; i + 4 <= len; i += 4)`, four bytes at a time, then the rest.
checksum_words : ℕ → ℕ → List ℕ → ℕ
unfolding checksum_tail
checksum_words checksum i (a ∷ b ∷ c ∷ d ∷ bs) =
    checksum_words (bit_xor checksum (from_le (a ∷ b ∷ c ∷ d ∷ []))) (i + 4) bs
checksum_words checksum i bs = checksum_tail checksum i bs

-- `data` has `len` bytes.
unfoldable pub calculate_checksum : List ℕ → ℕ
unfolding checksum_words
calculate_checksum bytes = checksum_words 0 0 bytes

-- A message is its header and payload with their checksum behind them.
unfoldable pub seal : List ℕ → List ℕ
seal body = body ++ to_le 4 (calculate_checksum body)

unfoldable pub trade_message : MessageHeader → TradePayload → List ℕ
trade_message h p = seal (header_bytes h ++ trade_bytes p)

unfoldable pub quote_message : MessageHeader → QuotePayload → List ℕ
quote_message h p = seal (header_bytes h ++ quote_bytes p)

unfoldable pub heartbeat_message : MessageHeader → List ℕ
heartbeat_message h = seal (header_bytes h)
