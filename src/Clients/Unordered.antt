-- ===== src/Clients/Unordered.antt =====
-- The order of the clients' map of src/server/client_manager.cpp, which only the calls that list
-- descriptors show.
use qode.Base.{
  ℕ, ◌≡◌, sym, ap, ◌∙◌, List, [], ◌∷◌, inl, inr, Bool-cases, Option-cases, subst, add64, u64, ◌*◌,
}
use mathlib.Core.List.{Perm}
use qode.Clients.{
  ClientManager, get_client, has_client, is_some, add_client, remove_client, handle_subscription,
  mark_slow_consumer, clear_slow_status, broadcast, client_count, get_all_client_fds,
  get_slow_clients,
}
use qode.Clients.Entries.{
  ClientConnection, Reply, find, erase, subscribe, mark_slow, clear_slow, broadcast_loop,
}
use qode.Clients.Store.{fds, AllDistinct}
use qode.Clients.Reordered.{
  fds-Reordered, slow_fds-Reordered, Reordered, behind, find-Reordered, length-Reordered,
  update-Reordered, erase-Reordered, broadcast_loop-Reordered,
}
use qode.Clients.Steps.{
  Reachable, Reachable-AllDistinct, Step-AllDistinct, add, remove, subscribed, marked, cleared,
  sent_to, broadcasted, send_to_client-found, send_to_client_missing,
}
use qode.Clients.Calls.{
  Call, adding, subscribing, sending, broadcasting, limiting, counting, listing, listing_slow,
  listed, Answer, number, found, call, ask, removing, marking, clearing, finding,
}

-- The same but for the order of the entries.
pub data Agrees (m : ClientManager) : ClientManager → Type 0 where
  agrees :
      {cs : List ClientConnection} → Reordered m.clients cs → Agrees m (record m { clients = cs })

removed :
    (m : ClientManager) (cs : List ClientConnection) (fd : ℕ)
    → Reordered (erase fd m.clients) (erase fd cs)
    → Agrees
        (record m { clients = erase fd m.clients; closed = fd ∷ m.closed })
        (record m { clients = erase fd cs; closed = fd ∷ m.closed })
removed m cs fd r = agrees r

-- The same answer, but for the order of a list of descriptors.
pub data Same : Answer → Answer → Type 0 where
  same_answer : {a : Answer} → Same a a
  same_members : {xs ys : List ℕ} → Perm xs ys → Same (listed xs) (listed ys)

pub data AllSame : List Answer → List Answer → Type 0 where
  none_left : AllSame [] []
  one_more :
      {a b : Answer} {as' bs : List Answer} → Same a b → AllSame as' bs → AllSame (a ∷ as') (b ∷ bs)

number-Same : {m n : ℕ} → m ≡ n → Same (number m) (number n)
number-Same {m} e = subst (λ k. Same (number m) (number k)) e same_answer

abbrev Alike : Answer × ClientManager → Answer × ClientManager → Type 0
Alike x y = Same x.0 y.0 × Agrees x.1 y.1

abbrev with_clients : List ClientConnection → ClientManager → ClientManager
with_clients cs m = record m { clients = cs }

module _ (m : ClientManager) (cs : List ClientConnection) (r : Reordered m.clients cs)
    (d : AllDistinct (fds m.clients)) where
  same_client : (fd : ℕ) → find fd m.clients ≡ find fd cs
  same_client fd = find-Reordered fd r d

  adding-Alike :
      (fd : ℕ) (address : List ℕ) (port now : ℕ)
      → Alike
          (call (adding fd address port now) m)
          (call (adding fd address port now) (with_clients cs m))
  unfolding call add_client has_client get_client
  adding-Alike fd address port now =
      let e : has_client fd m ≡ has_client fd (with_clients cs m) = ap is_some (same_client fd) in
      elim (Bool-cases (has_client fd m)) [
        | inl h ↦ rw (h, sym e ∙ h) (same_answer, agrees r)
        | inr h ↦ rw (h, sym e ∙ h) (same_answer, agrees (behind r))
      ]

  subscribing-Alike :
      (fd : ℕ) (ids : List ℕ)
      → Alike (call (subscribing fd ids) m) (call (subscribing fd ids) (with_clients cs m))
  unfolding call handle_subscription has_client get_client
  subscribing-Alike fd ids =
      let e : has_client fd m ≡ has_client fd (with_clients cs m) = ap is_some (same_client fd) in
      elim (Bool-cases (has_client fd m)) [
        | inl h ↦ rw (h, sym e ∙ h) (same_answer, agrees (update-Reordered fd (subscribe ids) r d))
        | inr h ↦ rw (h, sym e ∙ h) (same_answer, agrees r)
      ]

  removing-Alike : (fd : ℕ) → Alike (call (removing fd) m) (call (removing fd) (with_clients cs m))
  unfolding call remove_client has_client get_client
  removing-Alike fd =
      let e : has_client fd m ≡ has_client fd (with_clients cs m) = ap is_some (same_client fd) in
      elim (Bool-cases (has_client fd m)) [
        | inl h ↦ rw (h, sym e ∙ h) (same_answer, removed m cs fd (erase-Reordered fd r d))
        | inr h ↦ rw (h, sym e ∙ h) (same_answer, agrees r)
      ]

  sending-Alike :
      (fd len : ℕ) (reply : Reply)
      → Alike (call (sending fd len reply) m) (call (sending fd len reply) (with_clients cs m))
  unfolding call
  sending-Alike fd len reply = elim (Option-cases (find fd m.clients)) [
    | inl e ↦
        rw
          (
            send_to_client_missing fd len reply m e,
            send_to_client_missing fd len reply (with_clients cs m) (sym (same_client fd) ∙ e),
          )
          (same_answer, agrees r)
    | inr (c, e) ↦
        rw
          (
            send_to_client-found fd len reply m c e,
            send_to_client-found fd len reply (with_clients cs m) c (sym (same_client fd) ∙ e),
          )
          (same_answer, agrees (update-Reordered fd _ r d))
  ]

  call-Alike : (k : Call) → Alike (call k m) (call k (with_clients cs m))
  unfolding call remove_client mark_slow_consumer clear_slow_status get_client broadcast
      client_count get_all_client_fds get_slow_clients
  call-Alike (adding fd address port now) = adding-Alike fd address port now
  call-Alike (removing fd) = removing-Alike fd
  call-Alike (marking fd) = (same_answer, agrees (update-Reordered fd mark_slow r d))
  call-Alike (clearing fd) = (same_answer, agrees (update-Reordered fd clear_slow r d))
  call-Alike (finding fd) = (
    subst (λ o. Same (found (find fd m.clients)) (found o)) (same_client fd) same_answer,
    agrees r,
  )
  call-Alike (subscribing fd ids) = subscribing-Alike fd ids
  call-Alike (sending fd len reply) = sending-Alike fd len reply
  call-Alike (broadcasting len symbol_id now net) =
      let (e, q) = broadcast_loop-Reordered m.slow_threshold len symbol_id now net r in
      let after : ℕ → ClientManager = λ n. record m {
        clients = (broadcast_loop m.slow_threshold len symbol_id now net cs).1;
        total_messages_sent = add64 m.total_messages_sent n;
        total_bytes_sent = add64 m.total_bytes_sent (u64 (n * len));
      } in
      (
        number-Same e,
        subst (λ n. Agrees (broadcast len symbol_id now net m).1 (after n)) e (agrees q),
      )
  call-Alike (limiting bytes) = (same_answer, agrees r)
  call-Alike counting = (number-Same (length-Reordered r), agrees r)
  call-Alike listing = (same_members (fds-Reordered r), agrees r)
  call-Alike listing_slow = (same_members (slow_fds-Reordered r), agrees r)

pub call-AllDistinct :
    (k : Call) (m : ClientManager)
    → AllDistinct (fds m.clients)
    → AllDistinct (fds (call k m).1.clients)
unfolding call
call-AllDistinct (adding fd address port now) m d = Step-AllDistinct (add fd address port now) d
call-AllDistinct (removing fd) m d = Step-AllDistinct (remove fd) d
call-AllDistinct (marking fd) m d = Step-AllDistinct (marked fd) d
call-AllDistinct (clearing fd) m d = Step-AllDistinct (cleared fd) d
call-AllDistinct (finding fd) m d = d
call-AllDistinct (subscribing fd ids) m d = Step-AllDistinct (subscribed fd ids) d
call-AllDistinct (sending fd len reply) m d = Step-AllDistinct (sent_to fd len reply) d
call-AllDistinct (broadcasting len symbol_id now net) m d =
    Step-AllDistinct (broadcasted len symbol_id now net) d
call-AllDistinct (limiting bytes) m d = d
call-AllDistinct counting m d = d
call-AllDistinct listing m d = d
call-AllDistinct listing_slow m d = d

pub call-Agrees :
    (k : Call) {m m' : ClientManager}
    → AllDistinct (fds m.clients)
    → Agrees m m'
    → Alike (call k m) (call k m')
call-Agrees k {m} d (agrees {cs} r) = call-Alike m cs r d k

pub ask-Agrees :
    (ks : List Call) {m m' : ClientManager}
    → AllDistinct (fds m.clients)
    → Agrees m m'
    → AllSame (ask ks m) (ask ks m')
unfolding ask
ask-Agrees [] d a = none_left
ask-Agrees (k ∷ ks) {m} d a0 =
    let (e, a) = call-Agrees k d a0 in one_more e (ask-Agrees ks (call-AllDistinct k m d) a)

-- Whatever calls led to the manager and whatever calls follow, with any answers of the kernel: the
-- order in which the map holds its clients makes no difference to what the calls return, one after
-- another, but that `get_all_client_fds` and `get_slow_clients` list the same descriptors in
-- another order.
pub ask-Reordered :
    (ks : List Call) (m : ClientManager) (cs : List ClientConnection)
    → Reachable m
    → Reordered m.clients cs
    → AllSame (ask ks m) (ask ks (record m { clients = cs }))
ask-Reordered ks m cs reached r =
    ask-Agrees ks (unfold get_all_client_fds in Reachable-AllDistinct reached) (agrees r)
