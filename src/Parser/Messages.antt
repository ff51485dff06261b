-- ===== src/Parser/Messages.antt =====
-- src/client/parser.cpp: one message, from its bytes to the callbacks and the counters.
use qode.Base.{
  ℕ, ◌+◌, ◌-◌, Bool, true, false, List, [], ◌∷◌, ◌++◌, take, drop, slice, ltb, ◌==◌, if◌then◌else◌,
  u32, add64,
}
use qode.Protocol.{
  MessageType, trade, quote, heartbeat, unnamed, to_message_type, header_size, checksum_size,
  quote_msg_size, get_message_size, MessageHeader, TradePayload, QuotePayload, read_header,
  read_trade, read_quote, calculate_checksum,
}
use qode.Protocol.Bytes.{from_le}

pub data ParseResult : Type 0 where
  success need_more_data invalid_message checksum_error sequence_gap : ParseResult

pub data Event : Type 0 where
  on_trade : MessageHeader → TradePayload → Event
  on_quote : MessageHeader → QuotePayload → Event
  on_heartbeat : MessageHeader → Event
  on_gap : ℕ → ℕ → Event

-- Which of the four `std::function` members are set.
pub record Callbacks : Type 0 where
  pub trade_cb : Bool
  pub quote_cb : Bool
  pub heartbeat_cb : Bool
  pub gap_cb : Bool

-- The members other than the buffer and its positions.
pub record Tracking : Type 0 where
  pub expected_sequence : ℕ
  pub first_message : Bool
  pub callbacks : Callbacks
  pub messages_parsed : ℕ
  pub trades_parsed : ℕ
  pub quotes_parsed : ℕ
  pub checksum_errors : ℕ
  pub sequence_gaps : ℕ
  pub malformed_messages : ℕ

-- The statistics and the sequence state of a parser that has read nothing.
unfoldable pub fresh : Callbacks → Tracking
fresh cbs = record {
  expected_sequence = 0;
  first_message = true;
  callbacks = cbs;
  messages_parsed = 0;
  trades_parsed = 0;
  quotes_parsed = 0;
  checksum_errors = 0;
  sequence_gaps = 0;
  malformed_messages = 0;
}

unfoldable pub count_malformed : Tracking → Tracking
count_malformed t = record t { malformed_messages = add64 t.malformed_messages 1 }

unfoldable pub count_checksum_error : Tracking → Tracking
count_checksum_error t = record t { checksum_errors = add64 t.checksum_errors 1 }

unfoldable pub validate_checksum : List ℕ → ℕ → Bool
validate_checksum bytes msg_len =
    if ltb msg_len checksum_size
    then false
    else let data_len = msg_len - checksum_size in
      calculate_checksum (take data_len bytes) == from_le (slice data_len 4 bytes)

-- What the guards of `parse_one` find at the read position.
pub data Frame : Type 0 where
  need_more malformed bad_checksum : Frame
  message : MessageHeader → MessageType → List ℕ → Frame

-- The guards of `parse_one`, in their order; `msg_start` is the buffer from the read position on.
unfoldable pub next_frame : ℕ → List ℕ → Frame
next_frame available msg_start =
    if ltb available header_size
    then need_more
    else let header = read_header msg_start in
      let type = to_message_type header.message_type in
      let msg_size = get_message_size type in
      if msg_size == 0
      then malformed
      else if ltb available msg_size
      then need_more
      else if ltb quote_msg_size msg_size
      then malformed
      else if validate_checksum msg_start msg_size
      then message header type (take msg_size msg_start)
      else bad_checksum

-- The result is `true` if there is no gap.
unfoldable pub check_sequence : Tracking → ℕ → Bool × List Event × Tracking
check_sequence t received_seq =
    let next = u32 (received_seq + 1) in
    if t.first_message
    then (true, [], record t { first_message = false; expected_sequence = next })
    else if received_seq == t.expected_sequence
    then (true, [], record t { expected_sequence = next })
    else (
      false,
      if t.callbacks.gap_cb then on_gap t.expected_sequence received_seq ∷ [] else [],
      record t { expected_sequence = next; sequence_gaps = add64 t.sequence_gaps 1 },
    )

-- The `switch` of `parse_one`.
unfoldable pub dispatch : MessageType → MessageHeader → List ℕ → Tracking → List Event × Tracking
dispatch trade header bytes t = (
  if t.callbacks.trade_cb then on_trade header (read_trade (drop header_size bytes)) ∷ [] else [],
  record t { trades_parsed = add64 t.trades_parsed 1 },
)
dispatch quote header bytes t = (
  if t.callbacks.quote_cb then on_quote header (read_quote (drop header_size bytes)) ∷ [] else [],
  record t { quotes_parsed = add64 t.quotes_parsed 1 },
)
dispatch heartbeat header bytes t =
    (if t.callbacks.heartbeat_cb then on_heartbeat header ∷ [] else [], t)
dispatch (unnamed n) header bytes t = ([], t)

pub record Parsed : Type 0 where
  pub result : ParseResult
  pub events : List Event
  pub tracking : Tracking
  pub consumed : ℕ

-- What `parse_one` does with a frame: its result, its callbacks, the counters, and how far the
-- read position moves.
unfoldable pub handle_frame : Frame → Tracking → Parsed
unfolding check_sequence dispatch count_malformed count_checksum_error
handle_frame need_more t = record {
  result = need_more_data;
  events = [];
  tracking = t;
  consumed = 0;
}
handle_frame malformed t = record {
  result = invalid_message;
  events = [];
  tracking = count_malformed t;
  consumed = 1;
}
handle_frame bad_checksum t = record {
  result = checksum_error;
  events = [];
  tracking = count_checksum_error t;
  consumed = 1;
}
handle_frame (message header type bytes) t =
    let (in_order, gaps, t') = check_sequence t header.sequence_number in
    let (calls, t'') = dispatch type header bytes t' in
    record {
      result = if in_order then success else sequence_gap;
      events = gaps ++ calls;
      tracking = record t'' { messages_parsed = add64 t''.messages_parsed 1 };
      consumed = get_message_size type;
    }
