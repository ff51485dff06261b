-- ===== src/Feed/Process.antt =====
-- `process_data`: all rounds together are one decoding of all the bytes that arrived.
use qode.Base.{
  ℕ, zero, suc, ◌+◌, ◌≤◌, ◌<◌, ◌≡◌, refl, sym, ap, ◌∙◌, subst, Bool, true, false, some, ◌⊎◌, List,
  [], ◌∷◌, ◌++◌, add64, add64_assoc, length, arith, length-append, append-nil, append_assoc,
  if-elim, inl, inr,
}
use qode.Parser.{Event, unread, initial_buffer_size}
use qode.Parser.Stream.{Decodes, stop, Decodes-append, frame_of}
use qode.Socket.{
  Socket, RecvResult, received, closed, would_block, failed, Received, error, nothing, bytes_in,
  receive, after_recv,
}
use qode.Feed.{
  World, Feed, Market, handle_events, handle_event, process_loop, process_round, process_data,
  max_iterations,
}
use qode.Feed.Chunk.{IsReady, IsFed, process_chunk-IsFed}
use qode.Feed.Answers.{bytes_of, joined, Fits}
use qode.Feed.Rounds.{goes, is_received, Brings, is_open, Idle, Processed, processed}

handle_events-append :
    (w : World) (es es' : List Event) (m : Market)
    → handle_events w (es ++ es') m ≡ handle_events w es' (handle_events w es m)
unfolding handle_events
handle_events-append w [] es' m = refl
handle_events-append w (e ∷ es) es' m = handle_events-append w es es' (handle_event w e m)

IsFed-append :
    (w : World) (feed next last : Feed) (xs ys : List ℕ)
    → IsFed w feed xs next
    → IsFed w next ys last
    → IsFed w feed (xs ++ ys) last
IsFed-append w feed next last xs ys a b = record {
  count = a.count + b.count;
  events = a.events ++ b.events;
  decoded =
      subst
        (λ bs.
          Decodes last.parser.tracking (unread last.parser) feed.parser.tracking bs
            (a.count + b.count) (a.events ++ b.events))
        (append_assoc (unread feed.parser) xs ys) (Decodes-append ys a.decoded b.decoded);
  handled =
      b.handled
      ∙ ap (handle_events w b.events) a.handled
      ∙ sym (handle_events-append w a.events b.events feed.market);
  messages =
      b.messages
      ∙ ap (λ n. add64 n b.count) a.messages
      ∙ add64_assoc feed.messages_received a.count b.count;
  received =
      b.received
      ∙ ap (λ n. add64 n (length ys)) a.received
      ∙ add64_assoc feed.bytes_received (length xs) (length ys)
      ∙ ap (add64 feed.bytes_received) (sym (length-append xs ys));
}

-- The socket does not matter to the parser.
abbrev at_socket : Socket → Feed → Feed
at_socket s feed = record feed { socket = s }

at_socket-IsReady : (s : Socket) (feed : Feed) → IsReady feed → IsReady (at_socket s feed)
at_socket-IsReady s feed v = record {
  window = v.window;
  capacity = v.capacity;
  no_frame = v.no_frame;
  messages_fit = v.messages_fit;
  bytes_fit = v.bytes_fit;
}

-- With no bytes nothing happens.
at_socket-IsFed :
    (w : World) (s : Socket) (feed : Feed) → IsReady feed → IsFed w feed [] (at_socket s feed)
at_socket-IsFed w s feed v = record {
  count = 0;
  events = [];
  decoded =
      stop (ap frame_of (append-nil (unread feed.parser)) ∙ v.no_frame) refl
        (append-nil (unread feed.parser)) refl refl;
  handled = unfold handle_events in refl;
  messages = omega (arith, v.messages_fit);
  received = omega (arith, v.bytes_fit);
}

from_socket :
    (w : World) (s : Socket) (feed next : Feed) (bs : List ℕ)
    → IsFed w (at_socket s feed) bs next
    → IsFed w feed bs next
from_socket w s feed next bs a = record {
  count = a.count;
  events = a.events;
  decoded = a.decoded;
  handled = a.handled;
  messages = a.messages;
  received = a.received;
}

-- What an answer of `receive` tells of the socket and of `recv`.
receive-bytes :
    (a : RecvResult) (s : Socket) (bytes : List ℕ)
    → (receive a s).0 ≡ bytes_in bytes
    → (bytes ≡ bytes_of a) × (is_open (receive a s).1 ≡ is_open s) × (is_received a ≡ true)
unfolding receive after_recv
receive-bytes (received bs) s bytes e = (ground arith, ground arith, refl)
receive-bytes closed s bytes e = (ground arith, ground arith, ground arith)
receive-bytes would_block s bytes e = (ground arith, ground arith, ground arith)
receive-bytes failed s bytes e = (ground arith, ground arith, ground arith)

-- Without bytes there were none, or the connection was closed before.
has_bytes : Received → Bool
has_bytes error = false
has_bytes nothing = false
has_bytes (bytes_in bs) = true

receive-idle :
    (a : RecvResult) (s : Socket)
    → has_bytes (receive a s).0 ≡ false
    → (bytes_of a ≡ []) ⊎ (is_open s ≡ false)
unfolding receive after_recv has_bytes
receive-idle (received bs) s h = inr (ground arith)
receive-idle closed s h = inl refl
receive-idle would_block s h = inl refl
receive-idle failed s h = inl refl

module _ (w : World) (fits : Fits w) (left i : ℕ) (feed : Feed) (v : IsReady feed)
    (later : (next : Feed)
      → IsReady next
      → Processed w left (i + 1) next (process_loop w left (i + 1) next)) where
  Idle-Processed :
      (s : Socket) → Idle w i feed → Processed w (suc left) i feed (some (at_socket s feed))
  Idle-Processed s why =
      processed 0 (at_socket s feed) refl (λ j k. absurd (omega arith))
        (inr (omega arith, subst (λ j. Idle w j feed) (let e : i ≡ i + 0 = omega arith in e) why))
        (at_socket-IsReady s feed v) (at_socket-IsFed w s feed v)

  next-Processed :
      (next : Feed)
      → Brings w i
      → Processed w left (i + 1) next (process_loop w left (i + 1) next)
      → is_open next.socket ≡ is_open feed.socket
      → IsFed w feed (bytes_of (w.answers i)) next
      → Processed w (suc left) i feed (process_loop w left (i + 1) next)
  next-Processed next begun (processed n last e went why ready b) same a =
      processed (suc n) last e all_went (reason why) ready
        (IsFed-append w feed next last (bytes_of (w.answers i)) (joined w.answers (i + 1) n) a b)
    where
      all_went : (j : ℕ) → j < suc n → Brings w (i + j)
      all_went zero k = subst (Brings w) (let e : i ≡ i + 0 = omega arith in e) begun
      all_went (suc j) k =
          subst (Brings w) (let e : i + 1 + j ≡ i + suc j = omega arith in e) (went j (omega arith))

      reason :
          (n ≡ left) ⊎ ((n < left) × Idle w (i + 1 + n) next)
          → (suc n ≡ suc left) ⊎ ((suc n < suc left) × Idle w (i + suc n) feed)
      reason (inl e) = inl (ap suc e)
      reason (inr (k, why)) = inr (
        omega arith,
        subst (λ j. Idle w j feed) (let e : i + 1 + n ≡ i + suc n = omega arith in e) (moved why),
      )
        where
          moved : Idle w (i + 1 + n) next → Idle w (i + 1 + n) feed
          moved (inl h) = inl h
          moved (inr (inl h)) = inr (inl h)
          moved (inr (inr h)) = inr (inr (sym same ∙ h))

  round-Processed :
      (answer : Received) (s : Socket)
      → goes w i ≡ true
      → ((bytes : List ℕ)
          → answer ≡ bytes_in bytes
          → (bytes ≡ bytes_of (w.answers i))
            × (is_open s ≡ is_open feed.socket)
            × (is_received (w.answers i) ≡ true))
      → (has_bytes answer ≡ false → (bytes_of (w.answers i) ≡ []) ⊎ (is_open feed.socket ≡ false))
      → Processed w
          (suc left)
          i
          feed
          (process_round w (process_loop w left (i + 1)) answer (at_socket s feed))
  unfolding process_round Fits has_bytes
  round-Processed error s begun from idle = Idle-Processed s (inr (idle refl))
  round-Processed nothing s begun from idle = Idle-Processed s (inr (idle refl))
  round-Processed (bytes_in bytes) s begun from idle =
      let (same, kept_open, brought) = from bytes refl in
      let (next, e, ready, fed, kept) =
        process_chunk-IsFed w bytes (at_socket s feed) (at_socket-IsReady s feed v)
          (subst (λ bs. length bs ≤ initial_buffer_size) (sym same) (fits i)) in
      rw e (
        next-Processed next (begun, brought) (later next ready) (ap is_open kept ∙ kept_open)
          (subst (λ bs. IsFed w feed bs next) same (from_socket w s feed next bytes fed)))

process_loop-Processed :
    (w : World)
    → Fits w
    → (left i : ℕ) (feed : Feed) → IsReady feed
    → Processed w left i feed (process_loop w left i feed)
unfolding process_loop
process_loop-Processed w fits zero i feed v =
    processed 0 feed refl (λ j k. absurd (omega arith)) (inl refl) v
      (at_socket-IsFed w feed.socket feed v)
process_loop-Processed w fits (suc left) i feed v =
    let r = receive (w.answers i) feed.socket in
    if-elim (Processed w (suc left) i feed) (goes w i)
      (λ begun.
        round-Processed w fits left i feed v (process_loop-Processed w fits left (i + 1)) r.0 r.1
          begun (receive-bytes (w.answers i) feed.socket) (receive-idle (w.answers i) feed.socket))
      (λ h.
        Idle-Processed w fits left i feed v (process_loop-Processed w fits left (i + 1)) feed.socket
          (inl h))

-- `process_data` returns, without a write past the parser's buffer, where `recv` writes no more
-- than its buffer holds. It has then taken the bytes of the first `n` answers, each of which
-- brought some and none of them after the handler was stopped or found out of time, and all of them
-- together with what was unread were decoded as one stream, handled in that order and counted. It
-- ended since `n` is 1000, the handler was stopped or out of time, no bytes came or the connection
-- was closed.
pub process_data-Processed :
    (w : World) (feed : Feed)
    → Fits w
    → IsReady feed
    → Processed w max_iterations 0 feed (process_data w feed)
unfolding process_data
process_data-Processed w feed fits v = process_loop-Processed w fits max_iterations 0 feed v
