-- ===== src/Clients/Broadcast.antt =====
-- What a broadcast does to every client, and how many it reaches.
use qode.Base.{
  ℕ, ◌+◌, ◌*◌, ◌≡◌, refl, sym, subst, List, [], ◌∷◌, Bool, true, false, not, ◌&&◌, ◌||◌, Option,
  ltb, leb, if◌then◌else◌, add64, arith, Bool-cases, inl, inr,
}
use qode.Clients.{ClientManager, broadcast}
use qode.Clients.Entries.{
  ClientConnection, SendResult, sent, would_block, failed, Reply, get_pending_bytes, send_entry,
  after_send, mark_slow, clear_slow, is_receiver, broadcast_entry, broadcast_loop,
}

-- The socket takes the whole message, not more than `threshold` bytes being queued.
unfoldable pub takes_all : ℕ → ℕ → Reply → Bool
takes_all threshold len reply =
    not (ltb threshold (get_pending_bytes reply.queued)) && all reply.send_result
  where
    all : SendResult → Bool
    all (sent n) = leb len n
    all would_block = false
    all failed = false

-- The socket is too full: before the call, or for the whole message.
unfoldable pub is_congested : ℕ → ℕ → Reply → Bool
is_congested threshold len reply =
    ltb threshold (get_pending_bytes reply.queued) || part reply.send_result
  where
    part : SendResult → Bool
    part (sent n) = ltb n len
    part would_block = true
    part failed = false

-- An entry before and after a broadcast.
pub record AfterBroadcast (threshold len symbol_id : ℕ) (reply : Reply) (c c' : ClientConnection)
    : Type 0 where
  pub same_fd : c'.fd ≡ c.fd
  pub same_symbols : c'.subscribed_symbols ≡ c.subscribed_symbols
  pub same_all : c'.subscribe_all ≡ c.subscribe_all
  pub skipped : is_receiver symbol_id c ≡ false → c' ≡ c
  pub slow :
      c'.is_slow ≡ (c.is_slow || (is_receiver symbol_id c && is_congested threshold len reply))
  pub messages : c'.messages_sent ≡ (
      if is_receiver symbol_id c && takes_all threshold len reply
      then add64 c.messages_sent 1
      else c.messages_sent)
  pub bytes : c'.bytes_sent ≡ (
      if is_receiver symbol_id c && takes_all threshold len reply
      then add64 c.bytes_sent len
      else c.bytes_sent)

pub data Pairs (R : ClientConnection → ClientConnection → Type 0)
    : List ClientConnection → List ClientConnection → Type 0 where
  end : Pairs R [] []
  pair :
      {x y : ClientConnection} {xs ys : List ClientConnection}
      → R x y
      → Pairs R xs ys
      → Pairs R (x ∷ xs) (y ∷ ys)

-- How many of the clients want the message and take all of it.
pub count_takers : ℕ → ℕ → ℕ → (ℕ → Reply) → List ClientConnection → ℕ
count_takers threshold len symbol_id net [] = 0
count_takers threshold len symbol_id net (c ∷ cs) =
    (if is_receiver symbol_id c && takes_all threshold len (net c.fd) then 1 else 0)
    + count_takers threshold len symbol_id net cs

receiver-not_slow :
    (symbol_id : ℕ) (c : ClientConnection) → is_receiver symbol_id c ≡ true → c.is_slow ≡ false
unfolding is_receiver
receiver-not_slow symbol_id c h = ground arith

-- An entry that is not slow before and after a send to it.
record AfterSend (threshold len : ℕ) (reply : Reply) (c : ClientConnection)
    (r : Bool × ClientConnection) : Type 0 where
  ok : r.0 ≡ takes_all threshold len reply
  same_fd : r.1.fd ≡ c.fd
  same_symbols : r.1.subscribed_symbols ≡ c.subscribed_symbols
  same_all : r.1.subscribe_all ≡ c.subscribe_all
  slow : r.1.is_slow ≡ is_congested threshold len reply
  messages : r.1.messages_sent ≡ c.messages_sent
  bytes : r.1.bytes_sent ≡ c.bytes_sent

module _ (threshold len : ℕ) (c : ClientConnection) (quick : c.is_slow ≡ false) where
  after_send_lem :
      (q : Option ℕ) (a : SendResult)
      → let reply : Reply = record { queued = q; send_result = a } in
        AfterSend threshold len reply c (send_entry threshold len reply c)
  unfolding send_entry after_send takes_all is_congested mark_slow clear_slow
  after_send_lem q (sent n) = record {
    ok = ground arith;
    same_fd = ground arith;
    same_symbols = ground arith;
    same_all = ground arith;
    slow = ground (arith, quick);
    messages = ground arith;
    bytes = ground arith;
  }
  after_send_lem q would_block = record {
    ok = ground arith;
    same_fd = ground arith;
    same_symbols = ground arith;
    same_all = ground arith;
    slow = ground arith;
    messages = ground arith;
    bytes = ground arith;
  }
  after_send_lem q failed = record {
    ok = ground arith;
    same_fd = ground arith;
    same_symbols = ground arith;
    same_all = ground arith;
    slow = ground arith;
    messages = ground arith;
    bytes = ground arith;
  }

module _ (threshold len symbol_id now : ℕ) (c : ClientConnection) where
  -- A round, for an entry that the broadcast skips and for one that it sends to.
  broadcast_entry_skip :
      (reply : Reply)
      → is_receiver symbol_id c ≡ false
      → broadcast_entry threshold len symbol_id now reply c ≡ (false, c)
  unfolding broadcast_entry
  broadcast_entry_skip reply skip = rw skip refl

  abbrev Entered : Reply → Bool × ClientConnection → Type 0
  Entered reply r =
      (r.0 ≡ (is_receiver symbol_id c && takes_all threshold len reply))
      × AfterBroadcast threshold len symbol_id reply c r.1

  skip_lem : (reply : Reply) → is_receiver symbol_id c ≡ false → Entered reply (false, c)
  skip_lem reply skip = (
    ground (arith, skip),
    record {
      same_fd = refl;
      same_symbols = refl;
      same_all = refl;
      skipped = λ _. refl;
      slow = ground (arith, skip);
      messages = ground (arith, skip);
      bytes = ground (arith, skip);
    },
  )

  want_lem :
      (reply : Reply)
      → is_receiver symbol_id c ≡ true
      → Entered reply (broadcast_entry threshold len symbol_id now reply c)
  unfolding broadcast_entry
  want_lem reply want =
      let quick : c.is_slow ≡ false = receiver-not_slow symbol_id c want in
      let a : AfterSend threshold len reply c (send_entry threshold len reply c) =
        after_send_lem threshold len c quick reply.queued reply.send_result in
      (
        ground (arith, want, a.ok),
        record {
          same_fd = ground (arith, want, a.same_fd);
          same_symbols = ground (arith, want, a.same_symbols);
          same_all = ground (arith, want, a.same_all);
          skipped = λ skip. ground (arith, want, skip);
          slow = ground (arith, want, quick, a.slow);
          messages = ground (arith, want, a.ok, a.messages);
          bytes = ground (arith, want, a.ok, a.bytes);
        },
      )

  entry_lem : (reply : Reply) → Entered reply (broadcast_entry threshold len symbol_id now reply c)
  entry_lem reply = elim (Bool-cases (is_receiver symbol_id c)) [
    | inl want ↦ want_lem reply want
    | inr skip ↦ subst (Entered reply) (sym (broadcast_entry_skip reply skip)) (skip_lem reply skip)
  ]

-- What a broadcast leaves of the entries, and the count that it returns.
unfoldable pub IsBroadcast :
    ℕ → ℕ → ℕ → (ℕ → Reply) → List ClientConnection → ℕ × List ClientConnection → Type 0
IsBroadcast threshold len symbol_id net cs r =
    (r.0 ≡ count_takers threshold len symbol_id net cs)
    × Pairs (λ c c'. AfterBroadcast threshold len symbol_id (net c.fd) c c') cs r.1

broadcast_loop-IsBroadcast :
    (threshold len symbol_id now : ℕ) (net : ℕ → Reply) (cs : List ClientConnection)
    → IsBroadcast threshold len symbol_id net cs (broadcast_loop threshold len symbol_id now net cs)
unfolding broadcast_loop IsBroadcast count_takers
broadcast_loop-IsBroadcast threshold len symbol_id now net [] = (refl, end)
broadcast_loop-IsBroadcast threshold len symbol_id now net (c ∷ cs) =
    let rest = broadcast_loop-IsBroadcast threshold len symbol_id now net cs in
    let one = entry_lem threshold len symbol_id now c (net c.fd) in
    (ground (arith, one.0, rest.0), pair one.1 rest.1)

-- A broadcast returns how many clients want the message and take all of it, adds that to the
-- totals, and changes the clients one by one. A client that is slow or has not subscribed is left
-- as it is. Another becomes slow exactly where its socket has more queued than the threshold, would
-- block or takes a part only, and its own counters rise exactly where it takes the whole message.
pub broadcast-IsBroadcast :
    (len symbol_id now : ℕ) (net : ℕ → Reply) (m : ClientManager)
    → let r = broadcast len symbol_id now net m in
      IsBroadcast m.slow_threshold len symbol_id net m.clients (r.0, r.1.clients)
      × (r.1.total_messages_sent ≡ add64 m.total_messages_sent r.0)
      × (r.1.total_bytes_sent ≡ add64 m.total_bytes_sent (r.0 * len))
      × (r.1.slow_threshold ≡ m.slow_threshold)
unfolding broadcast
broadcast-IsBroadcast len symbol_id now net m = (
  broadcast_loop-IsBroadcast m.slow_threshold len symbol_id now net m.clients,
  refl,
  omega arith,
  refl,
)
