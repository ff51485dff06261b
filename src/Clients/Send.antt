-- ===== src/Clients/Send.antt =====
-- `send_to_client` on every branch, for the client itself and for the others.
use qode.Base.{
  ℕ, ◌/◌, ◌≡◌, ◌≢◌, Bool, not, ◌&&◌, ◌||◌, Option, some, ltb, arith, add64, if◌then◌else◌,
}
use qode.Clients.{ClientManager, send_to_client, get_client}
use qode.Clients.Entries.{
  ClientConnection, SendResult, sent, would_block, failed, Reply, get_pending_bytes, send_entry,
  after_send, mark_slow, clear_slow,
}
use qode.Clients.Broadcast.{takes_all, is_congested}
use qode.Clients.Store.{find-update_self, find-update_other}
use qode.Clients.Steps.{send_entry-fd, send_to_client-found}

-- The client before and after a send to it.
pub record IsSent (threshold len : ℕ) (reply : Reply) (c c' : ClientConnection) : Type 0 where
  pub pending : c'.pending_bytes ≡ get_pending_bytes reply.queued
  pub slow : c'.is_slow ≡ (
      is_congested threshold len reply
      || (c.is_slow
          && not (
              takes_all threshold len reply
              && ltb (get_pending_bytes reply.queued) (threshold / 2))))
  pub slow_count : c'.slow_consumer_count ≡ (
      if is_congested threshold len reply
      then add64 c.slow_consumer_count 1
      else c.slow_consumer_count)
  pub same_symbols : c'.subscribed_symbols ≡ c.subscribed_symbols
  pub same_all : c'.subscribe_all ≡ c.subscribe_all
  pub same_messages : c'.messages_sent ≡ c.messages_sent

module _ (threshold len : ℕ) (c : ClientConnection) where
  send_entry-IsSent :
      (q : Option ℕ) (a : SendResult)
      → let reply : Reply = record { queued = q; send_result = a } in
        let r = send_entry threshold len reply c in
        (r.0 ≡ takes_all threshold len reply) × IsSent threshold len reply c r.1
  unfolding send_entry after_send takes_all is_congested mark_slow clear_slow
  send_entry-IsSent q (sent n) = ground arith
  send_entry-IsSent q would_block = ground arith
  send_entry-IsSent q failed = ground arith

-- `send_to_client` to a known client returns whether the socket takes the whole message. The client
-- becomes slow, counted once more, where its socket has more queued than the threshold, would block
-- or takes a part only, and it is cleared where the whole message is taken and less than half the
-- threshold was queued; no other lookup changes.
pub send_to_client_lem :
    (fd len : ℕ) (reply : Reply) (m : ClientManager) (c : ClientConnection)
    → get_client fd m ≡ some c
    → let r = send_to_client fd len reply m in
      (r.0 ≡ takes_all m.slow_threshold len reply)
      × ((c' : ClientConnection) × (get_client fd r.1 ≡ some c')
          × IsSent m.slow_threshold len reply c c')
      × ((fd' : ℕ) → fd ≢ fd' → get_client fd' r.1 ≡ get_client fd' m)
unfolding get_client
send_to_client_lem fd len reply m c found =
    let g : ClientConnection → Bool × ClientConnection = send_entry m.slow_threshold len reply in
    let (ok, is_sent) = send_entry-IsSent m.slow_threshold len c reply.queued reply.send_result in
    let keeps : (d : ClientConnection) → (g d).1.fd ≡ d.fd =
      send_entry-fd m.slow_threshold len reply.queued reply.send_result in
    rw (send_to_client-found fd len reply m c found) (
      ok,
      ((g c).1, find-update_self (λ d. (g d).1) keeps fd m.clients c found, is_sent),
      λ fd' h. find-update_other (λ d. (g d).1) keeps fd fd' m.clients h,
    )
