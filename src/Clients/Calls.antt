-- ===== src/Clients/Calls.antt =====
-- The calls on the client manager of src/server/client_manager.cpp, and what they return.
use qode.Base.{ℕ, List, [], ◌∷◌, Bool, Option}
use qode.Clients.{
  ClientManager, get_client, add_client, remove_client, handle_subscription, mark_slow_consumer,
  clear_slow_status, send_to_client, broadcast, client_count, set_slow_threshold,
  get_all_client_fds, get_slow_clients,
}
use qode.Clients.Entries.{ClientConnection, Reply}

-- A call on the manager, and what it returns.
pub data Call : Type 0 where
  adding : (fd : ℕ) (address : List ℕ) (port now : ℕ) → Call
  removing marking clearing finding : (fd : ℕ) → Call
  subscribing : (fd : ℕ) (symbol_ids : List ℕ) → Call
  sending : (fd len : ℕ) (reply : Reply) → Call
  broadcasting : (len symbol_id now : ℕ) (net : ℕ → Reply) → Call
  limiting : (bytes : ℕ) → Call
  counting listing listing_slow : Call

pub data Answer : Type 0 where
  nothing : Answer
  told : Bool → Answer
  number : ℕ → Answer
  found : Option ClientConnection → Answer
  listed : List ℕ → Answer

unfoldable pub call : Call → ClientManager → Answer × ClientManager
call (adding fd address port now) m = let r = add_client fd address port now m in (told r.0, r.1)
call (removing fd) m = (nothing, remove_client fd m)
call (marking fd) m = (nothing, mark_slow_consumer fd m)
call (clearing fd) m = (nothing, clear_slow_status fd m)
call (finding fd) m = (found (get_client fd m), m)
call (subscribing fd ids) m = let r = handle_subscription fd ids m in (told r.0, r.1)
call (sending fd len reply) m = let r = send_to_client fd len reply m in (told r.0, r.1)
call (broadcasting len symbol_id now net) m =
    let r = broadcast len symbol_id now net m in (number r.0, r.1)
call (limiting bytes) m = (nothing, set_slow_threshold bytes m)
call counting m = (number (client_count m), m)
call listing m = (listed (get_all_client_fds m), m)
call listing_slow m = (listed (get_slow_clients m), m)

-- What the calls return, one after another.
unfoldable pub ask : List Call → ClientManager → List Answer
unfolding call
ask [] m = []
ask (k ∷ ks) m = let (a, m') = call k m in a ∷ ask ks m'
