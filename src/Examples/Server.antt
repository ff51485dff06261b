-- ===== src/Examples/Server.antt =====
-- The exchange's clients, the pool and the reconnections.
use qode.Base.{
  ℕ, ◌+◌, ◌⊎◌, inl, inr, ne→==, ◌*◌, ◌≤◌, ◌≡◌, ◌≢◌, refl, true, false, not, ◌&&◌, ◌||◌, ◌==◌,
  if◌then◌else◌, List, [], ◌∷◌, some, length, take, arith, add64,
}
use mathlib.Core.List.{Perm}
use qode.Clients.Descriptors.{after_calls, taken, destroy-closed}
use qode.Clients.{
  destroy, send_to_client, ClientManager, new_manager, add_client, remove_client, has_client,
  get_client, broadcast,
}
use qode.Clients.Entries.{
  erase, ClientConnection, new_connection, Reply, sent, find, is_receiver, member,
}
use qode.Clients.Broadcast.{takes_all, IsBroadcast, broadcast-IsBroadcast}
use qode.Clients.Steps.{Reachable, start, next, add}
use qode.Clients.Reordered.{Reordered, swapped}
use qode.Clients.Unordered.{AllSame, ask-Reordered}
use qode.Clients.Calls.{
  Call, subscribing, broadcasting, marking, sending, finding, listing, adding, removing, call, ask,
}
use qode.Clients.Send.{IsSent, send_to_client_lem}
use qode.Socket.{
  Dial, in_progress, writable, no_answer, Socket, subscription_bytes, received, connect, reconnect,
}
use qode.Socket.Backoff.{reconnect_all, reconnect_exhausted, reconnect_sleep}
use qode.Exchange.{process_subscription, request_buffer_size}
use qode.Exchange.Subscription.{AreSymbols, process_subscription-is_receiver}
use qode.Pool.{MemoryPool, new_pool, reset, link_blocks, allocate, exchange, deallocate}
use qode.Pool.Users.{Reachable-IsShared}
use qode.Pool.Shares.{IsShared}
use qode.Pool.Steps.{
  Returns, here, there, with_block, took, wrote, returned, start as no_call, next as next_call,
}
use qode.Pool.FreeList.{IsStorage, IsPool, Chain, Each, AllDistinct as DistinctBlocks, IsBlock}
use qode.Pool.Sharing.{after_others, exchange_shares}

abbrev client : ClientConnection
client = new_connection 4 [] 5000 1

abbrev one_client : ClientManager
one_client = record new_manager { clients = client ∷ [] }

abbrev net : ℕ → Reply
net fd = record { queued = some 100; send_result = sent 32 }

broadcast-IsBroadcast_example :
    let r = broadcast 32 3 9 net one_client in
    IsBroadcast one_client.slow_threshold 32 3 net one_client.clients (r.0, r.1.clients)
    × (r.1.total_messages_sent ≡ add64 0 r.0)
    × (r.1.total_bytes_sent ≡ add64 0 (r.0 * 32))
    × (r.1.slow_threshold ≡ one_client.slow_threshold)
broadcast-IsBroadcast_example = broadcast-IsBroadcast 32 3 9 net one_client

abbrev ids : List ℕ
ids = 3 ∷ 7 ∷ []

client-found : get_client 4 one_client ≡ some client
unfolding get_client find
client-found = refl

ids-AreSymbols : AreSymbols ids
unfolding AreSymbols
ids-AreSymbols = (omega arith, (omega arith, tt))

-- Two clients in either order, and calls that reach one, both and none.
abbrev two_clients : ClientManager
two_clients = (add_client 5 [] 6000 2 (add_client 4 [] 5000 1 new_manager).1).1

two_clients-Reachable : Reachable two_clients
two_clients-Reachable = next (next start (add 4 [] 5000 1)) (add 5 [] 6000 2)

two_clients-Reordered :
    Reordered two_clients.clients (new_connection 4 [] 5000 1 ∷ new_connection 5 [] 6000 2 ∷ [])
unfolding add_client has_client get_client find
two_clients-Reordered = swapped

abbrev some_calls : List Call
some_calls =
    subscribing 4 ids
    ∷ broadcasting 32 3 9 net
    ∷ marking 5
    ∷ sending 9 32 (net 9)
    ∷ finding 5
    ∷ listing
    ∷ []

ask-Reordered_example : AllSame (ask some_calls two_clients) (
    ask some_calls (record two_clients {
      clients = new_connection 4 [] 5000 1 ∷ new_connection 5 [] 6000 2 ∷ [];
    }))
ask-Reordered_example =
    ask-Reordered some_calls two_clients
      (new_connection 4 [] 5000 1 ∷ new_connection 5 [] 6000 2 ∷ []) two_clients-Reachable
      two_clients-Reordered

process_subscription-is_receiver_example :
    let r =
      process_subscription 4
        (received (take request_buffer_size (subscription_bytes ids)))
        one_client in
    (r.0 ≡ true)
    × ((c' : ClientConnection) × (get_client 4 r.1 ≡ some c')
        × ((id : ℕ) → is_receiver id c' ≡ (not false && (length ids == 0 || member id ids))))
process_subscription-is_receiver_example =
    process_subscription-is_receiver 4 ids one_client client ids-AreSymbols (omega arith)
      client-found

abbrev socket : Socket
socket = record {
  has_fd = false;
  has_events = false;
  connected = false;
  reconnect_count = 0;
  current_backoff_ms = 100;
  bytes_received = 0;
  recv_calls = 0;
}

send_to_client_lem_example :
    let r = send_to_client 4 32 (net 4) one_client in
    (r.0 ≡ takes_all one_client.slow_threshold 32 (net 4))
    × ((c' : ClientConnection) × (get_client 4 r.1 ≡ some c')
        × IsSent one_client.slow_threshold 32 (net 4) client c')
    × ((fd' : ℕ) → 4 ≢ fd' → get_client fd' r.1 ≡ get_client fd' one_client)
send_to_client_lem_example = send_to_client_lem 4 32 (net 4) one_client client client-found

abbrev good_dial : Dial
good_dial = record {
  resolved = true;
  opened = true;
  connect_result = in_progress;
  poll_result = writable;
  socket_error = 0;
  registered = true;
}

abbrev late_dial : Dial
late_dial = record good_dial { poll_result = no_answer }

abbrev dials : List Dial
dials = good_dial ∷ late_dial ∷ good_dial ∷ good_dial ∷ good_dial ∷ []

reconnect_exhausted_example :
    let s' = reconnect_all dials (connect true good_dial socket).1 in
    reconnect good_dial s' ≡ (false, 0, s')
reconnect_exhausted_example =
    reconnect_exhausted true good_dial good_dial socket dials (omega arith)

reconnect_sleep_example :
    (reconnect good_dial (reconnect_all dials (connect true good_dial socket).1)).1 ≤ 1600
reconnect_sleep_example = reconnect_sleep true good_dial good_dial socket dials

-- Two blocks of 64 bytes.
abbrev both_free : MemoryPool
both_free = record {
  block_size = 64;
  num_blocks = 2;
  aligned_base = 64;
  next = λ a. if a == 128 then 64 else 0;
  free_list = 128;
  allocated_count = 0;
}

both_free-IsStorage : IsStorage both_free
both_free-IsStorage = record {
  placed = omega arith;
  sized = omega arith;
  fits = omega arith;
  ends = omega arith;
}

both_free-IsPool : IsPool both_free (128 ∷ 64 ∷ [])
unfolding Chain Each DistinctBlocks IsBlock
both_free-IsPool = record {
  chained = (refl, omega arith, (refl, omega arith, refl));
  distinct = ((λ e. omega arith, tt), (tt, tt));
  blocks = ((1, omega arith, refl), ((0, omega arith, refl), tt));
  counted = refl;
}

abbrev new_two : MemoryPool
new_two = new_pool 64 2 64 (λ a. 0)

abbrev after_one : MemoryPool
after_one = (allocate new_two).1

abbrev both_held : List ℕ
both_held = with_block (allocate after_one).0 (with_block (allocate new_two).0 [])

first-Returns : Returns 128 both_held (64 ∷ [])
unfolding new_pool reset link_blocks allocate exchange
first-Returns = there here

-- The user writes 7 where the link of its first block was.
abbrev scribbled : ℕ → ℕ
scribbled a = if a == 128 then 7 else (allocate after_one).1.next a

after_size : (allocate after_one).1.block_size ≡ 64
unfolding new_pool reset link_blocks allocate exchange
after_size = refl

scribbled-outside :
    (b : ℕ)
    → (b + 8 ≤ 128) ⊎ (128 + (allocate after_one).1.block_size ≤ b)
    → scribbled b ≡ (allocate after_one).1.next b
scribbled-outside b (inl h) = rw (ne→== b 128 (λ e. omega arith)) refl
scribbled-outside b (inr h) = rw (ne→== b 128 (λ e. omega (arith, h, after_size))) refl

Reachable-IsShared_example :
    IsShared (deallocate 128 (record (allocate after_one).1 { next = scribbled })) (64 ∷ [])
Reachable-IsShared_example =
    Reachable-IsShared 64 2 64 (λ a. 0) (omega arith) (omega arith, omega arith)
      (next_call
        (next_call (next_call (next_call no_call took) took)
          (wrote 128 scribbled first-Returns scribbled-outside))
        (returned 128 first-Returns))

exchange_shares_example :
    ((allocate (allocate both_free).1).0 ≡ some 64)
    × ((exchange 128 64 (after_others 128 both_free)).0 ≡ some 128)
    × ((allocate (exchange 128 64 (after_others 128 both_free)).1).0 ≡ some 64)
exchange_shares_example = exchange_shares both_free 128 64 [] both_free-IsStorage both_free-IsPool

-- Two descriptors are taken over, one of them twice, and one call is refused.
abbrev connections : List Call
connections =
    adding 4 [] 5000 1
    ∷ adding 5 [] 6000 2
    ∷ adding 4 [] 7000 3
    ∷ removing 4
    ∷ adding 4 [] 8000 4
    ∷ removing 9
    ∷ []

destroy-closed_example :
    Perm
      (destroy (after_calls connections new_manager)).closed
      (taken connections (ask connections new_manager))
destroy-closed_example = destroy-closed connections

connections-taken : taken connections (ask connections new_manager) ≡ 4 ∷ 5 ∷ 4 ∷ []
unfolding ask call add_client remove_client has_client get_client find erase
connections-taken = refl
