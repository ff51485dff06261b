-- ===== src/Exchange/Heartbeat.antt =====
-- src/server/exchange_simulator.cpp: a heartbeat goes to every client.
use qode.Base.{
  ℕ, ◌+◌, ◌≡◌, ◌≢◌, refl, sym, ap, ◌∙◌, subst, true, false, none, some, List, [], ◌∷◌, length,
  arith, u32, inl, inr, Option-cases, ℕ_discrete, Bool-cases,
}
use qode.Protocol.{heartbeat_msg_size}
use qode.Parser.RoundTrip.{length-heartbeat_message}
use qode.Clients.{ClientManager, send_to_client, get_client, get_all_client_fds}
use qode.Clients.Entries.{ClientConnection, Reply, find, member}
use qode.Clients.Store.{AllDistinct, fds, none-find}
use qode.Clients.Send.{IsSent, send_to_client_lem}
use qode.Clients.Steps.{send_to_client-found, send_to_client_missing}
use qode.Generator.{generate_heartbeat}
use qode.Exchange.Ticks.{ExchangeSimulator, send_to_all, send_heartbeat}

module _ (len : ℕ) where
  send_other :
      (fd fd' : ℕ) (reply : Reply) (m : ClientManager)
      → fd ≢ fd'
      → get_client fd' (send_to_client fd len reply m).1 ≡ get_client fd' m
  send_other fd fd' reply m h = elim (Option-cases (find fd m.clients)) [
    | inl e ↦ ap (λ r. get_client fd' r.1) (send_to_client_missing fd len reply m e)
    | inr (c, e) ↦ (send_to_client_lem fd len reply m c (unfold get_client in e)).2 fd' h
  ]

  same_threshold :
      (fd : ℕ) (reply : Reply) (m : ClientManager)
      → (send_to_client fd len reply m).1.slow_threshold ≡ m.slow_threshold
  same_threshold fd reply m = elim (Option-cases (find fd m.clients)) [
    | inl e ↦ ap (λ r. r.1.slow_threshold) (send_to_client_missing fd len reply m e)
    | inr (c, e) ↦ ap (λ r. r.1.slow_threshold) (send_to_client-found fd len reply m c e)
  ]

  send_to_all_other :
      (fds' : List ℕ) (fd : ℕ) (replies : ℕ → Reply) (m : ClientManager)
      → member fd fds' ≡ false
      → get_client fd (send_to_all fds' len replies m) ≡ get_client fd m
  unfolding send_to_all member
  send_to_all_other [] fd replies m h = refl
  send_to_all_other (f ∷ fds') fd replies m h = elim (ℕ_discrete f fd) [
    | yes e ↦ absurd (ground (arith, h, e))
    | no other ↦
        send_to_all_other fds' fd replies (send_to_client f len (replies f) m).1
          (ground (arith, h, other))
        ∙ send_other f fd (replies f) m other
  ]

  -- Every descriptor of the list gets the message, once.
  send_to_all-IsSent :
      (fds' : List ℕ) (fd : ℕ) (replies : ℕ → Reply) (m : ClientManager) (c : ClientConnection)
      → AllDistinct fds'
      → member fd fds' ≡ true
      → get_client fd m ≡ some c
      → (c' : ClientConnection) × (get_client fd (send_to_all fds' len replies m) ≡ some c')
        × IsSent m.slow_threshold len (replies fd) c c'
  unfolding send_to_all member AllDistinct
  send_to_all-IsSent [] fd replies m c d h found = absurd cc
  send_to_all-IsSent (f ∷ fds') fd replies m c d h found = elim (ℕ_discrete f fd) [
    | yes e ↦
        let m1 : ClientManager = (send_to_client f len (replies f) m).1 in
        let found' : get_client f m ≡ some c = subst (λ n. get_client n m ≡ some c) (sym e) found in
        let (c', there, s) = (send_to_client_lem f len (replies f) m c found').1 in
        (
          c',
          send_to_all_other fds' fd replies m1 (subst (λ n. member n fds' ≡ false) e d.0)
              ∙ subst (λ n. get_client n m1 ≡ some c') e there,
          subst (λ n. IsSent m.slow_threshold len (replies n) c c') e s,
        )
    | no other ↦
        let m1 : ClientManager = (send_to_client f len (replies f) m).1 in
        let (c', there, s) =
          send_to_all-IsSent fds' fd replies m1 c d.1 (ground (arith, h, other))
            (send_other f fd (replies f) m other ∙ found) in
        (c', there, subst (λ n. IsSent n len (replies fd) c c') (same_threshold f (replies f) m) s)
  ]

found-member :
    (fd : ℕ) (m : ClientManager) (c : ClientConnection)
    → get_client fd m ≡ some c
    → member fd (get_all_client_fds m) ≡ true
unfolding get_all_client_fds get_client
found-member fd m c found = elim (Bool-cases (member fd (fds m.clients))) [
  | inl there ↦ there
  | inr not_there ↦
      absurd (let e : none ≡ some c = sym (none-find fd m.clients not_there) ∙ found in cc)
]

-- Where no two clients have one descriptor, a heartbeat is sent to each client once, subscribed or
-- not and slow or not, as `send_to_client` sends a message of the heartbeat's size, and it takes
-- the next sequence number.
pub send_heartbeat_lem :
    (now : ℕ) (replies : ℕ → Reply) (x : ExchangeSimulator) (fd : ℕ) (c : ClientConnection)
    → AllDistinct (get_all_client_fds x.client_mgr)
    → get_client fd x.client_mgr ≡ some c
    → let x' = send_heartbeat now replies x in
      ((c' : ClientConnection) × (get_client fd x'.client_mgr ≡ some c')
        × IsSent x.client_mgr.slow_threshold heartbeat_msg_size (replies fd) c c')
      × (x'.tick_gen.sequence ≡ u32 (x.tick_gen.sequence + 1))
unfolding send_heartbeat generate_heartbeat
send_heartbeat_lem now replies x fd c d found =
    let m = x.client_mgr in
    let bytes = (generate_heartbeat now x.tick_gen).0 in
    let size : length bytes ≡ heartbeat_msg_size = length-heartbeat_message _ in
    (
      subst
          (λ n.
            (c' : ClientConnection) × (get_client fd
                (send_to_all (get_all_client_fds m) n replies m)
              ≡ some c')
            × IsSent m.slow_threshold heartbeat_msg_size (replies fd) c c')
          (sym size)
          (send_to_all-IsSent heartbeat_msg_size (get_all_client_fds m) fd replies m c d
            (found-member fd m c found) found),
      refl,
    )
