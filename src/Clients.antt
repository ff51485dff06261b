-- ===== src/Clients.antt =====
-- include/client_manager.h and src/server/client_manager.cpp: the exchange's clients, their
-- subscriptions and the sends to them. Clients/Entries has what happens to one entry.
pub mod Entries
pub mod Store
pub mod Steps
pub mod Lookup
pub mod Send
pub mod Broadcast
pub mod Reordered
pub mod Unordered
pub mod Calls
pub mod Registry
pub mod Descriptors
use qode.Base.{
  ℕ, zero, suc, ◌+◌, ◌-◌, ◌*◌, ◌/◌, ◌^◌, Bool, true, false, not, ◌&&◌, ◌||◌, Option, none, some,
  List, [], ◌∷◌, ◌++◌, map, ltb, leb, ◌==◌, if◌then◌else◌, add64, u64, length,
}
use qode.Clients.Entries.{
  ClientConnection, Reply, find, update, erase, new_connection, subscribe, mark_slow, clear_slow,
  send_entry, broadcast_loop, slow_fds, close_all,
}

abbrev pub slow_consumer_threshold : ℕ
slow_consumer_threshold = 1024 * 1024

-- `clients_` is a map; its entries stand in the order in which a loop visits them.
pub record ClientManager : Type 0 where
  pub clients : List ClientConnection
  pub slow_threshold : ℕ
  pub total_messages_sent : ℕ
  pub total_bytes_sent : ℕ
  -- The arguments of the calls of `close`, the latest first.
  pub closed : List ℕ

abbrev pub new_manager : ClientManager
new_manager = record {
  clients = [];
  slow_threshold = slow_consumer_threshold;
  total_messages_sent = 0;
  total_bytes_sent = 0;
  closed = [];
}

unfoldable pub get_client : ℕ → ClientManager → Option ClientConnection
unfolding find
get_client fd m = find fd m.clients

abbrev pub is_some : Option ClientConnection → Bool
is_some none = false
is_some (some c) = true

unfoldable pub has_client : ℕ → ClientManager → Bool
unfolding get_client
has_client fd m = is_some (get_client fd m)

-- At the time `now`; where a new entry goes in the order is the map's affair.
unfoldable pub add_client : ℕ → List ℕ → ℕ → ℕ → ClientManager → Bool × ClientManager
unfolding has_client
add_client fd address port now m =
    if has_client fd m
    then (false, m)
    else (true, record m { clients = new_connection fd address port now ∷ m.clients })

unfoldable pub remove_client : ℕ → ClientManager → ClientManager
unfolding erase has_client
remove_client fd m =
    if has_client fd m then record m { clients = erase fd m.clients; closed = fd ∷ m.closed } else m

unfoldable pub handle_subscription : ℕ → List ℕ → ClientManager → Bool × ClientManager
unfolding has_client update
handle_subscription fd symbol_ids m =
    if has_client fd m
    then (true, record m { clients = update fd (subscribe symbol_ids) m.clients })
    else (false, m)

unfoldable pub mark_slow_consumer : ℕ → ClientManager → ClientManager
unfolding update mark_slow
mark_slow_consumer fd m = record m { clients = update fd mark_slow m.clients }

unfoldable pub clear_slow_status : ℕ → ClientManager → ClientManager
unfolding update clear_slow
clear_slow_status fd m = record m { clients = update fd clear_slow m.clients }

unfoldable pub send_to_client : ℕ → ℕ → Reply → ClientManager → Bool × ClientManager
unfolding get_client update send_entry
send_to_client fd len reply m = go (get_client fd m)
  where
    go : Option ClientConnection → Bool × ClientManager
    go none = (false, m)
    go (some c) = (
      (send_entry m.slow_threshold len reply c).0,
      record m { clients = update fd (λ d. (send_entry m.slow_threshold len reply d).1) m.clients },
    )

unfoldable pub broadcast : ℕ → ℕ → ℕ → (ℕ → Reply) → ClientManager → ℕ × ClientManager
unfolding broadcast_loop
broadcast len symbol_id now net m =
    let (count, cs) = broadcast_loop m.slow_threshold len symbol_id now net m.clients in
    (
      count,
      record m {
        clients = cs;
        total_messages_sent = add64 m.total_messages_sent count;
        total_bytes_sent = add64 m.total_bytes_sent (u64 (count * len));
      },
    )

unfoldable pub get_all_client_fds : ClientManager → List ℕ
get_all_client_fds m = map (λ c. c.fd) m.clients

unfoldable pub get_slow_clients : ClientManager → List ℕ
unfolding slow_fds
get_slow_clients m = slow_fds m.clients

unfoldable pub client_count : ClientManager → ℕ
client_count m = length m.clients

abbrev pub set_slow_threshold : ℕ → ClientManager → ClientManager
set_slow_threshold bytes m = record m { slow_threshold = bytes }

-- The destructor.
unfoldable pub destroy : ClientManager → ClientManager
unfolding close_all
destroy m = record m { clients = []; closed = close_all m.clients m.closed }
