-- ===== src/Clients/Steps.antt =====
-- The operations of the client manager, one after another.
use qode.Base.{
  ℕ, ◌≡◌, refl, sym, ap, ◌∙◌, subst, List, Bool, true, false, Option, none, some, arith, if-elim,
  inl, inr, Option-cases,
}
use qode.Clients.{
  ClientManager, has_client, is_some, get_client, add_client, remove_client, handle_subscription,
  mark_slow_consumer, clear_slow_status, send_to_client, broadcast, get_all_client_fds,
  set_slow_threshold, new_manager,
}
use qode.Clients.Entries.{
  ClientConnection, find, update, subscribe, mark_slow, clear_slow, Reply, send_entry, after_send,
  SendResult, sent, would_block, failed,
}
use qode.Clients.Broadcast.{broadcast-IsBroadcast, IsBroadcast}
use qode.Clients.Store.{fds, AllDistinct, fds-update, fds-Pairs, erase-AllDistinct, find-none}

-- A call on the manager.
pub data Step : ClientManager → ClientManager → Type 0 where
  add :
      (fd : ℕ) (address : List ℕ) (port now : ℕ) {m : ClientManager}
      → Step m (add_client fd address port now m).1
  remove : (fd : ℕ) {m : ClientManager} → Step m (remove_client fd m)
  subscribed : (fd : ℕ) (ids : List ℕ) {m : ClientManager} → Step m (handle_subscription fd ids m).1
  marked : (fd : ℕ) {m : ClientManager} → Step m (mark_slow_consumer fd m)
  cleared : (fd : ℕ) {m : ClientManager} → Step m (clear_slow_status fd m)
  sent_to :
      (fd len : ℕ) (reply : Reply) {m : ClientManager} → Step m (send_to_client fd len reply m).1
  broadcasted :
      (len symbol_id now : ℕ) (net : ℕ → Reply) {m : ClientManager}
      → Step m (broadcast len symbol_id now net m).1
  threshold_set : (bytes : ℕ) {m : ClientManager} → Step m (set_slow_threshold bytes m)

pub data Reachable : ClientManager → Type 0 where
  start : Reachable new_manager
  next : {m m' : ClientManager} → Reachable m → Step m m' → Reachable m'

pub send_entry-fd :
    (threshold len : ℕ) (q : Option ℕ) (a : SendResult) (c : ClientConnection)
    → (send_entry threshold len (record { queued = q; send_result = a }) c).1.fd ≡ c.fd
unfolding send_entry after_send mark_slow clear_slow
send_entry-fd threshold len q (sent n) c = ground arith
send_entry-fd threshold len q would_block c = ground arith
send_entry-fd threshold len q failed c = ground arith

is_some-none : (o : Option ClientConnection) → is_some o ≡ false → o ≡ none
is_some-none none h = refl
is_some-none (some c) h = cc

has_client-none : (fd : ℕ) (m : ClientManager) → has_client fd m ≡ false → find fd m.clients ≡ none
unfolding has_client get_client
has_client-none fd m h = is_some-none (find fd m.clients) h

pub has_client-some :
    (fd : ℕ) (m : ClientManager) (c : ClientConnection)
    → find fd m.clients ≡ some c
    → has_client fd m ≡ true
unfolding has_client get_client
has_client-some fd m c h = ap is_some h

pub send_to_client-found :
    (fd len : ℕ) (reply : Reply) (m : ClientManager) (c : ClientConnection)
    → find fd m.clients ≡ some c
    → let g : ClientConnection → Bool × ClientConnection = send_entry m.slow_threshold len reply in
      send_to_client fd len reply m
      ≡ ((g c).0, record m { clients = update fd (λ d. (g d).1) m.clients })
unfolding send_to_client get_client
send_to_client-found fd len reply m c e = rw e refl

pub send_to_client_missing :
    (fd len : ℕ) (reply : Reply) (m : ClientManager)
    → find fd m.clients ≡ none
    → send_to_client fd len reply m ≡ (false, m)
unfolding send_to_client get_client
send_to_client_missing fd len reply m e = rw e refl

pub send_to_client-fds :
    (fd len : ℕ) (reply : Reply) (m : ClientManager)
    → fds (send_to_client fd len reply m).1.clients ≡ fds m.clients
send_to_client-fds fd len reply m = elim (Option-cases (find fd m.clients)) [
  | inl e ↦ ap (λ r. fds r.1.clients) (send_to_client_missing fd len reply m e)
  | inr (c, e) ↦
      ap (λ r. fds r.1.clients) (send_to_client-found fd len reply m c e)
      ∙ fds-update (λ d. (send_entry m.slow_threshold len reply d).1)
          (send_entry-fd m.slow_threshold len reply.queued reply.send_result) fd m.clients
]

add_client-AllDistinct :
    (fd : ℕ) (address : List ℕ) (port now : ℕ) (m : ClientManager)
    → AllDistinct (fds m.clients)
    → AllDistinct (fds (add_client fd address port now m).1.clients)
unfolding add_client AllDistinct
add_client-AllDistinct fd address port now m h =
    if-elim {A = Bool × ClientManager} (λ r. AllDistinct (fds r.1.clients)) (has_client fd m)
      (λ _. h) (λ e. (find-none fd m.clients (has_client-none fd m e), h))

pub handle_subscription-fds :
    (fd : ℕ) (ids : List ℕ) (m : ClientManager)
    → fds (handle_subscription fd ids m).1.clients ≡ fds m.clients
unfolding handle_subscription
handle_subscription-fds fd ids m =
    if-elim {A = Bool × ClientManager} (λ r. fds r.1.clients ≡ fds m.clients) (has_client fd m)
      (λ _. fds-update (subscribe ids) (λ c. refl) fd m.clients) (λ _. refl)

pub Step-AllDistinct :
    {m m' : ClientManager} → Step m m' → AllDistinct (fds m.clients) → AllDistinct (fds m'.clients)
unfolding mark_slow_consumer clear_slow_status remove_client IsBroadcast
Step-AllDistinct (add fd address port now {m}) h = add_client-AllDistinct fd address port now m h
Step-AllDistinct (remove fd {m}) h =
    if-elim {A = ClientManager} (λ n. AllDistinct (fds n.clients)) (has_client fd m)
      (λ _. erase-AllDistinct fd m.clients h) (λ _. h)
Step-AllDistinct (subscribed fd ids {m}) h =
    subst AllDistinct (sym (handle_subscription-fds fd ids m)) h
Step-AllDistinct (marked fd {m}) h =
    subst AllDistinct (sym (fds-update mark_slow (unfold mark_slow in λ c. refl) fd m.clients)) h
Step-AllDistinct (cleared fd {m}) h =
    subst AllDistinct (sym (fds-update clear_slow (unfold clear_slow in λ c. refl) fd m.clients)) h
Step-AllDistinct (sent_to fd len reply {m}) h =
    subst AllDistinct (sym (send_to_client-fds fd len reply m)) h
Step-AllDistinct (broadcasted len symbol_id now net {m}) h =
    subst AllDistinct
      (sym (fds-Pairs (λ c c' r. r.same_fd) (broadcast-IsBroadcast len symbol_id now net m).0.1)) h
Step-AllDistinct (threshold_set bytes {m}) h = h

-- Whatever calls were made, no descriptor has two entries.
pub Reachable-AllDistinct : {m : ClientManager} → Reachable m → AllDistinct (get_all_client_fds m)
unfolding get_all_client_fds AllDistinct
Reachable-AllDistinct start = tt
Reachable-AllDistinct (next r s) = Step-AllDistinct s (Reachable-AllDistinct r)
