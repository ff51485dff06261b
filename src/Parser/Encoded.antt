-- ===== src/Parser/Encoded.antt =====
-- The parser finds the messages that the exchange writes.
use qode.Base.{
  ℕ, ◌+◌, ◌-◌, ◌≤◌, ◌<◌, ◌≡◌, refl, sym, ap, ◌∙◌, true, List, [], ◌++◌, length, take, drop,
  length-append, take-length, drop-length, append_assoc, append-nil, arith, eq→==, le→ltb,
}
use qode.Protocol.{
  MessageType, trade, quote, heartbeat, to_message_type, from_message_type, get_message_size,
  MessageHeader, TradePayload, QuotePayload, header_bytes, trade_bytes, quote_bytes, read_header,
  read_trade, read_quote, seal, calculate_checksum, trade_message, quote_message, heartbeat_message,
}
use qode.Protocol.Bytes.{to_le, from_le, length-to_le, from_le-to_le, IsBytes, IsBytes-append}
use qode.Protocol.Checksum.{calculate_checksum-lt}
use qode.Protocol.Layout.{
  IsHeader, IsTrade, IsQuote, length-header_bytes, length-trade_bytes, length-quote_bytes,
  read_header-header_bytes, read_trade-trade_bytes, read_quote-quote_bytes, header_bytes-IsBytes,
  trade_bytes-IsBytes, quote_bytes-IsBytes,
}
use qode.Parser.{message, next_frame, validate_checksum}
use qode.Parser.Stream.{frame_of}
use qode.Parser.Frames.{get_message_size-le}

pub length-seal : (body : List ℕ) → length (seal body) ≡ length body + 4
unfolding seal
length-seal body =
    length-append body _ ∙ ap (λ n. length body + n) (length-to_le 4 (calculate_checksum body))

-- The checksum that was written is the one that is computed again.
validate_checksum-seal :
    (body rest : List ℕ)
    → IsBytes body
    → validate_checksum (seal body ++ rest) (length body + 4) ≡ true
unfolding validate_checksum seal
validate_checksum-seal body rest v =
    let ck : ℕ = calculate_checksum body in
    let n : length body + 4 - 4 ≡ length body = omega arith in
    let same : from_le (to_le 4 ck) ≡ ck = from_le-to_le 4 ck (calculate_checksum-lt body v) in
    rw
      (
        le→ltb (length body + 4) 4 (omega arith),
        append_assoc body (to_le 4 ck) rest,
        n,
        take-length (length body) body (to_le 4 ck ++ rest) refl,
        drop-length (length body) body (to_le 4 ck ++ rest) refl,
        take-length 4 (to_le 4 ck) rest (length-to_le 4 ck),
        same,
      )
      (eq→== ck ck refl)

-- The guards, where they all pass.
next_frame_found :
    (n : ℕ) (bs : List ℕ) (h : MessageHeader) (t : MessageType)
    → 16 ≤ n
    → read_header bs ≡ h
    → to_message_type h.message_type ≡ t
    → 0 < get_message_size t
    → get_message_size t ≤ n
    → validate_checksum bs (get_message_size t) ≡ true
    → next_frame n bs ≡ message h t (take (get_message_size t) bs)
unfolding next_frame
next_frame_found n bs h t long head type pos room valid =
    rw (head, type, valid) (ground (arith, get_message_size-le t))

module _ (h : MessageHeader) (t : MessageType) (payload rest : List ℕ) (v : IsHeader h)
    (type : to_message_type h.message_type ≡ t) (bytes : IsBytes payload)
    (size : get_message_size t ≡ length payload + 20) where
  abbrev body : List ℕ
  body = header_bytes h ++ payload

  length-body : length body ≡ length payload + 16
  length-body = omega (arith, length-append (header_bytes h) payload, length-header_bytes h)

  -- A sealed header and payload in front of any bytes is found as the message that it is.
  frame_of_sealed : frame_of (seal body ++ rest) ≡ message h t (seal body)
  frame_of_sealed =
      let ck = to_le 4 (calculate_checksum body) in
      let n : get_message_size t ≡ length body + 4 = omega (arith, length-body) in
      let total = length-append (seal body) rest in
      let head : read_header (seal body ++ rest) ≡ h =
        unfold seal in
        ap read_header
          (append_assoc body ck rest ∙ append_assoc (header_bytes h) payload (ck ++ rest))
        ∙ read_header-header_bytes h (payload ++ (ck ++ rest)) v in
      let valid : validate_checksum (seal body ++ rest) (get_message_size t) ≡ true =
        ap (validate_checksum (seal body ++ rest)) n
        ∙ validate_checksum-seal body rest
            (IsBytes-append (header_bytes h) payload (header_bytes-IsBytes h) bytes) in
      next_frame_found (length (seal body ++ rest)) (seal body ++ rest) h t
        (omega (arith, total, length-seal body)) head type (omega arith)
        (omega (arith, total, length-seal body)) valid
      ∙ ap (message h t)
          (take-length (get_message_size t) (seal body) rest (length-seal body ∙ sym n))

abbrev pub IsOf : MessageType → MessageHeader → Type 0
IsOf t h = IsHeader h × (h.message_type ≡ from_message_type t)

pub frame_of-trade_message :
    (h : MessageHeader) (p : TradePayload) (rest : List ℕ)
    → IsOf trade h
    → frame_of (trade_message h p ++ rest) ≡ message h trade (trade_message h p)
unfolding trade_message
frame_of-trade_message h p rest v =
    frame_of_sealed h trade (trade_bytes p) rest v.0
      (unfold to_message_type from_message_type in ground arith) (trade_bytes-IsBytes p)
      (unfold get_message_size in omega (arith, length-trade_bytes p))

pub frame_of-quote_message :
    (h : MessageHeader) (p : QuotePayload) (rest : List ℕ)
    → IsOf quote h
    → frame_of (quote_message h p ++ rest) ≡ message h quote (quote_message h p)
unfolding quote_message
frame_of-quote_message h p rest v =
    frame_of_sealed h quote (quote_bytes p) rest v.0
      (unfold to_message_type from_message_type in ground arith) (quote_bytes-IsBytes p)
      (unfold get_message_size in omega (arith, length-quote_bytes p))

pub frame_of-heartbeat_message :
    (h : MessageHeader) (rest : List ℕ)
    → IsOf heartbeat h
    → frame_of (heartbeat_message h ++ rest) ≡ message h heartbeat (heartbeat_message h)
unfolding heartbeat_message
frame_of-heartbeat_message h rest v = rw (← append-nil (header_bytes h)) (
    frame_of_sealed h heartbeat [] rest v.0
      (unfold to_message_type from_message_type in ground arith) tt
      (unfold get_message_size in refl))

-- The payloads are read back from behind the header.
pub read_trade-trade_message :
    (h : MessageHeader) (p : TradePayload)
    → IsTrade p
    → read_trade (drop 16 (trade_message h p)) ≡ p
unfolding trade_message seal
read_trade-trade_message h p v =
    let ck = to_le 4 (calculate_checksum (header_bytes h ++ trade_bytes p)) in
    ap (λ bs. read_trade (drop 16 bs)) (append_assoc (header_bytes h) (trade_bytes p) ck)
    ∙ ap read_trade (drop-length 16 (header_bytes h) (trade_bytes p ++ ck) (length-header_bytes h))
    ∙ read_trade-trade_bytes p ck v

pub read_quote-quote_message :
    (h : MessageHeader) (p : QuotePayload)
    → IsQuote p
    → read_quote (drop 16 (quote_message h p)) ≡ p
unfolding quote_message seal
read_quote-quote_message h p v =
    let ck = to_le 4 (calculate_checksum (header_bytes h ++ quote_bytes p)) in
    ap (λ bs. read_quote (drop 16 bs)) (append_assoc (header_bytes h) (quote_bytes p) ck)
    ∙ ap read_quote (drop-length 16 (header_bytes h) (quote_bytes p ++ ck) (length-header_bytes h))
    ∙ read_quote-quote_bytes p ck v
