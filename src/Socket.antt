-- ===== src/Socket.antt =====
-- include/socket.h and src/client/socket.cpp: the client's connection. What the kernel answers to
-- the calls on a socket is a parameter; the texts of `last_error_` are left out.
pub mod Backoff
use qode.Base.{
  ℕ, zero, suc, ◌+◌, ◌-◌, ◌*◌, ◌/◌, ◌%◌, ◌^◌, Bool, true, false, not, ◌&&◌, ◌||◌, Option, none,
  some, List, [], ◌∷◌, ◌++◌, map, ltb, leb, ◌==◌, if◌then◌else◌, add64, u64, u32, u16, length, min,
}
use qode.Protocol.{subscribe_cmd}
use qode.Protocol.Bytes.{to_le}

abbrev pub max_retry_count : ℕ
max_retry_count = 5

-- `has_fd` is `fd_ >= 0`.
pub record Socket : Type 0 where
  pub has_fd : Bool
  -- Whether there is an `epoll` descriptor.
  pub has_events : Bool
  pub connected : Bool
  pub reconnect_count : ℕ
  pub current_backoff_ms : ℕ
  pub bytes_received : ℕ
  pub recv_calls : ℕ

-- What `recv` answers: bytes, the end of the stream, no data yet, or an error.
pub data RecvResult : Type 0 where
  received : List ℕ → RecvResult
  closed would_block failed : RecvResult

-- What `receive` returns: a negative number, zero, or how many bytes are in the buffer.
pub data Received : Type 0 where
  error nothing : Received
  bytes_in : List ℕ → Received

-- `receive` once `recv` has answered.
unfoldable pub after_recv : RecvResult → Socket → Received × Socket
after_recv (received bytes) s =
    (bytes_in bytes, record s { bytes_received = add64 s.bytes_received (length bytes) })
after_recv closed s = (error, record s { connected = false })
after_recv would_block s = (nothing, s)
after_recv failed s = (error, record s { connected = false })

unfoldable pub receive : RecvResult → Socket → Received × Socket
unfolding after_recv
receive answer s =
    if not s.connected || not s.has_fd
    then (error, s)
    else after_recv answer (record s { recv_calls = add64 s.recv_calls 1 })

-- What `epoll_wait` answers.
pub data WaitResult : Type 0 where
  wait_failed timeout readable hung_up : WaitResult

-- The result of `wait_for_data`: -1, 0 or 1.
pub data Waited : Type 0 where
  lost idle ready : Waited

unfoldable pub after_wait : WaitResult → Socket → Waited × Socket
after_wait wait_failed s = (lost, s)
after_wait timeout s = (idle, s)
after_wait readable s = (ready, s)
after_wait hung_up s = (lost, record s { connected = false })

unfoldable pub wait_for_data : WaitResult → Socket → Waited × Socket
unfolding after_wait
wait_for_data answer s = if not s.connected || not s.has_fd then (lost, s) else after_wait answer s

-- `symbol_ids` in memory.
unfoldable pub symbol_bytes : List ℕ → List ℕ
symbol_bytes [] = []
symbol_bytes (id ∷ ids) = to_le 2 id ++ symbol_bytes ids

-- The buffer that `send_subscription` fills.
unfoldable pub subscription_bytes : List ℕ → List ℕ
unfolding symbol_bytes
subscription_bytes symbol_ids =
    subscribe_cmd ∷ (to_le 2 (u16 (length symbol_ids)) ++ symbol_bytes symbol_ids)

-- Whether the subscription went out whole; `sent` is how many bytes `send` took, if it did not
-- fail.
unfoldable pub send_subscription : Option ℕ → List ℕ → Socket → Bool
unfolding subscription_bytes
send_subscription sent symbol_ids s = if not s.connected || not s.has_fd then false else took sent
  where
    took : Option ℕ → Bool
    took none = false
    took (some n) = n == length (subscription_bytes symbol_ids)

unfoldable pub disconnect : Socket → Socket
disconnect s = record s { connected = false; has_fd = false }

-- The destructor.
unfoldable pub destroy : Socket → Socket
unfolding disconnect
destroy s = record (disconnect s) { has_events = false }

-- Once an event system is there it is kept; `ok` is whether the kernel makes one.
unfoldable pub init_event_system : Bool → Socket → Bool × Socket
init_event_system ok s = if s.has_events then (true, s) else (ok, record s { has_events = ok })

pub data ConnectResult : Type 0 where
  established in_progress refused : ConnectResult

pub data PollResult : Type 0 where
  writable no_answer poll_failed : PollResult

-- What the system calls of `do_connect` answer: the host is resolved, there is a socket, what
-- `connect` and `poll` return, the error that the socket holds then, and whether it is registered.
pub record Dial : Type 0 where
  pub resolved : Bool
  pub opened : Bool
  pub connect_result : ConnectResult
  pub poll_result : PollResult
  pub socket_error : ℕ
  pub registered : Bool

abbrev pub is_refused : ConnectResult → Bool
is_refused established = false
is_refused in_progress = false
is_refused refused = true

abbrev pub is_writable : PollResult → Bool
is_writable writable = true
is_writable no_answer = false
is_writable poll_failed = false

-- `::close(fd_); fd_ = -1;`.
abbrev pub close_fd : Socket → Socket
close_fd s = record s { has_fd = false }

-- The old descriptor is closed first; where a call fails, the new one is closed too.
unfoldable pub do_connect : Dial → Socket → Bool × Socket
do_connect d s =
    let s0 : Socket = record (close_fd s) { connected = false } in
    let s1 : Socket = record s0 { has_fd = true } in
    if not d.resolved
    then (false, s0)
    else if not d.opened
    then (false, s0)
    else if is_refused d.connect_result
    then (false, close_fd s1)
    else if not (is_writable d.poll_result)
    then (false, close_fd s1)
    else if not (d.socket_error == 0)
    then (false, close_fd s1)
    else if not d.registered
    then (false, close_fd s1)
    else (true, record s1 { connected = true })

unfoldable pub connect : Bool → Dial → Socket → Bool × Socket
unfolding init_event_system do_connect
connect events_ok d s =
    let fresh : Socket = record s { reconnect_count = 0; current_backoff_ms = 100 } in
    let (ok, s') = init_event_system events_ok fresh in if ok then do_connect d s' else (false, s')

-- The result, how long the call slept, and the socket after it.
unfoldable pub reconnect : Dial → Socket → Bool × ℕ × Socket
unfolding do_connect
reconnect d s =
    if leb max_retry_count s.reconnect_count
    then (false, 0, s)
    else let (done, s') = do_connect d (record s {
      current_backoff_ms = min (u32 (s.current_backoff_ms * 2)) 30000;
      reconnect_count = s.reconnect_count + 1;
    }) in
      (done, s.current_backoff_ms, if done then record s' { current_backoff_ms = 100 } else s')
