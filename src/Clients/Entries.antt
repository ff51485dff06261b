-- ===== src/Clients/Entries.antt =====
-- The entries of the clients' map of src/server/client_manager.cpp: what an operation makes of one,
-- and of all of them. What the kernel answers on a socket is a parameter.
use qode.Base.{
  ℕ, ◌+◌, ◌/◌, Bool, true, false, not, ◌&&◌, ◌||◌, Option, none, some, List, [], ◌∷◌, ltb, ◌==◌,
  if◌then◌else◌, add64, length,
}

pub record ClientConnection : Type 0 where
  pub fd : ℕ
  pub address : List ℕ
  pub port : ℕ
  -- A set: no symbol is in it twice.
  pub subscribed_symbols : List ℕ
  pub subscribe_all : Bool
  pub pending_bytes : ℕ
  pub slow_consumer_count : ℕ
  pub is_slow : Bool
  pub messages_sent : ℕ
  pub bytes_sent : ℕ
  pub connect_time : ℕ
  pub last_activity : ℕ

-- What `send` answers.
pub data SendResult : Type 0 where
  sent : ℕ → SendResult
  would_block failed : SendResult

-- What the kernel answers for a socket: the bytes in its send buffer, `none` if `ioctl` fails, and
-- the result of a `send`.
pub record Reply : Type 0 where
  pub queued : Option ℕ
  pub send_result : SendResult

unfoldable pub member : ℕ → List ℕ → Bool
member x [] = false
member x (y ∷ ys) = x == y || member x ys

-- `unordered_set::insert`.
unfoldable pub insert : ℕ → List ℕ → List ℕ
unfolding member
insert x ys = if member x ys then ys else x ∷ ys

-- `clients_.find(fd)`.
unfoldable pub find : ℕ → List ClientConnection → Option ClientConnection
find fd [] = none
find fd (c ∷ cs) = if c.fd == fd then some c else find fd cs

-- A change through the reference that `find` returns.
unfoldable pub update :
    ℕ → (ClientConnection → ClientConnection) → List ClientConnection → List ClientConnection
update fd f [] = []
update fd f (c ∷ cs) = if c.fd == fd then f c ∷ cs else c ∷ update fd f cs

unfoldable pub erase : ℕ → List ClientConnection → List ClientConnection
erase fd [] = []
erase fd (c ∷ cs) = if c.fd == fd then cs else c ∷ erase fd cs

abbrev pub new_connection : ℕ → List ℕ → ℕ → ℕ → ClientConnection
new_connection fd address port now = record {
  fd = fd;
  address = address;
  port = port;
  subscribed_symbols = [];
  subscribe_all = true;
  pending_bytes = 0;
  slow_consumer_count = 0;
  is_slow = false;
  messages_sent = 0;
  bytes_sent = 0;
  connect_time = now;
  last_activity = now;
}

-- The loop of `handle_subscription`.
unfoldable pub insert_all : List ℕ → List ℕ → List ℕ
unfolding insert
insert_all [] set = set
insert_all (x ∷ xs) set = insert_all xs (insert x set)

abbrev pub subscribe : List ℕ → ClientConnection → ClientConnection
subscribe symbol_ids c = record c {
  subscribed_symbols = insert_all symbol_ids [];
  subscribe_all = length symbol_ids == 0;
}

unfoldable pub mark_slow : ClientConnection → ClientConnection
mark_slow c = record c { is_slow = true; slow_consumer_count = add64 c.slow_consumer_count 1 }

unfoldable pub clear_slow : ClientConnection → ClientConnection
clear_slow c = record c { is_slow = false }

unfoldable pub get_pending_bytes : Option ℕ → ℕ
get_pending_bytes none = 0
get_pending_bytes (some pending) = pending

-- `send_to_client` from the `send` on, for the entry `c`.
unfoldable pub after_send : ℕ → ℕ → ℕ → SendResult → ClientConnection → Bool × ClientConnection
unfolding mark_slow clear_slow
after_send threshold pending len failed c = (false, c)
after_send threshold pending len would_block c = (false, mark_slow c)
after_send threshold pending len (sent n) c =
    if ltb n len
    then (false, mark_slow c)
    else (true, if c.is_slow && ltb pending (threshold / 2) then clear_slow c else c)

-- `send_to_client` for the entry `c` of the client.
unfoldable pub send_entry : ℕ → ℕ → Reply → ClientConnection → Bool × ClientConnection
unfolding after_send get_pending_bytes mark_slow
send_entry threshold len reply c =
    let pending = get_pending_bytes reply.queued in
    let c' = record c { pending_bytes = pending } in
    if ltb threshold pending
    then (false, mark_slow c')
    else after_send threshold pending len reply.send_result c'

-- `broadcast` skips the slow clients and those that did not subscribe to the symbol.
unfoldable pub is_receiver : ℕ → ClientConnection → Bool
unfolding member
is_receiver symbol_id c =
    not c.is_slow && (c.subscribe_all || member symbol_id c.subscribed_symbols)

abbrev pub count_sent : ℕ → ℕ → ClientConnection → ClientConnection
count_sent len now c = record c {
  messages_sent = add64 c.messages_sent 1;
  bytes_sent = add64 c.bytes_sent len;
  last_activity = now;
}

-- A round of the loop of `broadcast`: whether the client got the message, and its entry.
unfoldable pub broadcast_entry : ℕ → ℕ → ℕ → ℕ → Reply → ClientConnection → Bool × ClientConnection
unfolding is_receiver send_entry
broadcast_entry threshold len symbol_id now reply c =
    let (ok, c') = send_entry threshold len reply c in
    if is_receiver symbol_id c
    then if ok then (true, count_sent len now c') else (false, c')
    else (false, c)

-- The loop of `broadcast`: how many clients got the message, and the entries.
unfoldable pub broadcast_loop :
    ℕ → ℕ → ℕ → ℕ → (ℕ → Reply) → List ClientConnection → ℕ × List ClientConnection
unfolding broadcast_entry
broadcast_loop threshold len symbol_id now net [] = (0, [])
broadcast_loop threshold len symbol_id now net (c ∷ cs) =
    let (count, cs') = broadcast_loop threshold len symbol_id now net cs in
    let (ok, c') = broadcast_entry threshold len symbol_id now (net c.fd) c in
    ((if ok then 1 else 0) + count, c' ∷ cs')

-- The loop of `get_slow_clients`.
unfoldable pub slow_fds : List ClientConnection → List ℕ
slow_fds [] = []
slow_fds (c ∷ cs) = if c.is_slow then c.fd ∷ slow_fds cs else slow_fds cs

-- The loop of the destructor.
unfoldable pub close_all : List ClientConnection → List ℕ → List ℕ
close_all [] closed = closed
close_all (c ∷ cs) closed = close_all cs (c.fd ∷ closed)
