-- ===== src/Parser.antt =====
-- include/parser.h and src/client/parser.cpp: the receive buffer and the message parser.
-- A callback invocation is an `Event` of the result; the callbacks themselves are the client's.
pub mod Messages
pub mod Buffer
pub mod Growth
pub mod Append
pub mod Frames
pub mod Encoded
pub mod RoundTrip
pub mod Stream
pub mod Loop
use qode.Base.{
  ℕ, zero, suc, ◌+◌, ◌-◌, ◌*◌, Bool, true, false, List, [], ◌∷◌, ◌++◌, Option, none, some, length,
  take, drop, slice, replicate, ltb, leb, ◌==◌, if◌then◌else◌, u32, add64, min,
}
use qode.Protocol.{
  MessageType, trade, quote, heartbeat, unnamed, to_message_type, header_size, checksum_size,
  quote_msg_size, get_message_size, MessageHeader, TradePayload, QuotePayload, read_header,
  read_trade, read_quote, calculate_checksum,
}
use qode.Protocol.Bytes.{from_le}
pub use qode.Parser.Messages.{
  ParseResult, success, need_more_data, invalid_message, checksum_error, sequence_gap, Event,
  on_trade, on_quote, on_heartbeat, on_gap, Callbacks, Tracking, Frame, need_more, malformed,
  bad_checksum, message, Parsed,
}
unfoldable pub use qode.Parser.Messages.{
  fresh, count_malformed, count_checksum_error, validate_checksum, next_frame, check_sequence,
  dispatch, handle_frame,
}

pub record Parser : Type 0 where
  pub buffer : List ℕ
  pub read_pos : ℕ
  pub write_pos : ℕ
  pub tracking : Tracking

abbrev pub max_buffer_size : ℕ
max_buffer_size = 16 * 1024 * 1024

abbrev pub initial_buffer_size : ℕ
initial_buffer_size = 4 * 1024 * 1024

-- The constructor; the vector is filled with zeros.
unfoldable pub new_parser : Callbacks → Parser
unfolding fresh
new_parser cbs = record {
  buffer = replicate initial_buffer_size 0;
  read_pos = 0;
  write_pos = 0;
  tracking = fresh cbs;
}

unfoldable pub reset : Parser → Parser
unfolding fresh
reset p = record p { read_pos = 0; write_pos = 0; tracking = fresh p.tracking.callbacks }

unfoldable pub buffer_used : Parser → ℕ
buffer_used p = p.write_pos - p.read_pos

-- `memcpy` and `memmove` of `bytes` to the offset `pos` of the buffer.
unfoldable pub overwrite : ℕ → List ℕ → List ℕ → List ℕ
overwrite pos bytes buf = take pos buf ++ (bytes ++ drop (pos + length bytes) buf)

-- The bytes received and not yet parsed.
unfoldable pub unread : Parser → List ℕ
unread p = slice p.read_pos (p.write_pos - p.read_pos) p.buffer

unfoldable pub compact_buffer : Parser → Parser
unfolding overwrite unread
compact_buffer p =
    if p.read_pos == 0
    then p
    else let used = p.write_pos - p.read_pos in
      record p {
        buffer = if ltb 0 used then overwrite 0 (unread p) p.buffer else p.buffer;
        read_pos = 0;
        write_pos = used;
      }

-- `buffer_.resize(new_size)`, at a size that is not smaller.
unfoldable pub resize : ℕ → Parser → Parser
resize new_size p = record p { buffer = p.buffer ++ replicate (new_size - length p.buffer) 0 }

-- The final `memcpy` of `append_data`; `none` is a write past the end of the buffer.
unfoldable pub copy_in : Parser → List ℕ → Option (ℕ × Parser)
unfolding overwrite
copy_in p bytes =
    if leb (p.write_pos + length bytes) (length p.buffer)
    then some (
      length bytes,
      record p {
        buffer = overwrite p.write_pos bytes p.buffer;
        write_pos = p.write_pos + length bytes;
      },
    )
    else none

-- The part of `append_data` after compaction: there is room, or the buffer grows, or it is full.
unfoldable pub grow_and_copy : Parser → List ℕ → Option (ℕ × Parser)
unfolding copy_in resize count_malformed
grow_and_copy p bytes =
    let size = length p.buffer in
    let new_size = min (size * 2) max_buffer_size in
    if ltb (size - p.write_pos) (length bytes)
    then if leb new_size size
      then some (0, record p { tracking = count_malformed p.tracking })
      else copy_in (resize new_size p) bytes
    else copy_in p bytes

unfoldable pub append_data : Parser → List ℕ → Option (ℕ × Parser)
unfolding grow_and_copy compact_buffer
append_data p bytes =
    if length bytes == 0
    then some (0, p)
    else if ltb (length p.buffer - p.write_pos) (length bytes)
    then grow_and_copy (compact_buffer p) bytes
    else copy_in p bytes

unfoldable pub parse_one : Parser → ParseResult × List Event × Parser
unfolding handle_frame next_frame
parse_one p =
    let r =
      handle_frame (next_frame (p.write_pos - p.read_pos) (drop p.read_pos p.buffer)) p.tracking in
    (r.result, r.events, record p { read_pos = p.read_pos + r.consumed; tracking = r.tracking })

abbrev pub counts : ParseResult → ℕ
counts success = 1
counts sequence_gap = 1
counts need_more_data = 0
counts invalid_message = 0
counts checksum_error = 0

abbrev pub stops : ParseResult → Bool
stops need_more_data = true
stops success = false
stops sequence_gap = false
stops invalid_message = false
stops checksum_error = false

pub record Run : Type 0 where
  pub count : ℕ
  pub events : List Event
  pub parser : Parser

-- The callbacks of one round come before those of the rounds after it.
abbrev pub before : List Event → Option Run → Option Run
before events none = none
before events (some r) = some (record r { events = events ++ r.events })

-- The loop of `parse_messages` with the count so far; `none` is a loop that has not ended when
-- the fuel is used up.
unfoldable pub parse_loop : ℕ → ℕ → Parser → Option Run
parse_loop zero count p = none
parse_loop (suc fuel) count p =
    let (result, events, q) = parse_one p in
    let more = before events (parse_loop fuel (count + counts result) q) in
    if stops result then some (record { count = count; events = events; parser = q }) else more

-- One round more than there are unread bytes.
unfoldable pub parse_messages : Parser → Option Run
unfolding parse_loop
parse_messages p = parse_loop (suc (p.write_pos - p.read_pos)) 0 p
