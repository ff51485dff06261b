-- ===== src/Exchange.antt =====
-- include/exchange_simulator.h and src/server/exchange_simulator.cpp: the requests of the clients.
-- The event system, the log and the callback on a disconnection are left out.
pub mod Subscription
pub mod Simulator
pub mod Ticks
pub mod Faults
pub mod Gaps
pub mod Interval
pub mod Steps
pub mod Rounds
pub mod Loop
pub mod Heartbeat
use qode.Base.{
  ℕ, zero, suc, ◌+◌, ◌*◌, ◌≤◌, Bool, true, false, ◌&&◌, Option, none, some, List, [], ◌∷◌, leb,
  ◌==◌, if◌then◌else◌, length, take, drop, slice, get_or, min, max,
}
use qode.Protocol.{subscribe_cmd}
use qode.Protocol.Bytes.{from_le}
use qode.Socket.{RecvResult, received, closed, would_block, failed}
use qode.Clients.{ClientManager, handle_subscription, remove_client}

-- `uint8_t buffer[1024]`.
abbrev pub request_buffer_size : ℕ
request_buffer_size = 1024

-- The loop that copies the symbols out of the request.
unfoldable pub read_symbols : ℕ → List ℕ → List ℕ
unfolding from_le
read_symbols zero bytes = []
read_symbols (suc n) bytes = from_le (take 2 bytes) ∷ read_symbols n (drop 2 bytes)

-- The checks of a request of which `bytes` were received, and the symbols in it.
unfoldable pub parse_subscription : List ℕ → Option (List ℕ)
unfolding read_symbols
parse_subscription bytes =
    let count = from_le (slice 1 2 bytes) in
    if get_or bytes 0 0 == subscribe_cmd && leb 3 (length bytes)
    then if leb (3 + count * 2) (length bytes)
      then some (read_symbols count (drop 3 bytes))
      else none
    else none

unfoldable pub handle_client_disconnect : ℕ → ClientManager → ClientManager
unfolding remove_client
handle_client_disconnect client_fd m = remove_client client_fd m

unfoldable pub handle_request : ℕ → Option (List ℕ) → ClientManager → Bool × ClientManager
unfolding handle_subscription
handle_request client_fd none m = (false, m)
handle_request client_fd (some symbols) m = (true, (handle_subscription client_fd symbols m).1)

unfoldable pub process_subscription : ℕ → RecvResult → ClientManager → Bool × ClientManager
unfolding handle_request parse_subscription handle_client_disconnect
process_subscription client_fd (received bytes) m =
    handle_request client_fd (parse_subscription bytes) m
process_subscription client_fd closed m = (false, handle_client_disconnect client_fd m)
process_subscription client_fd would_block m = (false, m)
process_subscription client_fd failed m = (false, handle_client_disconnect client_fd m)

unfoldable pub handle_client_event : ℕ → Bool → Bool → RecvResult → ClientManager → ClientManager
unfolding process_subscription handle_client_disconnect
handle_client_event client_fd is_read is_error answer m =
    if is_error
    then handle_client_disconnect client_fd m
    else if is_read
    then (process_subscription client_fd answer m).1
    else m

-- `set_tick_rate`.
unfoldable pub clamp_tick_rate : ℕ → ℕ
clamp_tick_rate ticks_per_second = max 1 (min ticks_per_second 500000)
