-- ===== src/Exchange/Ticks.antt =====
-- include/exchange_simulator.h and src/server/exchange_simulator.cpp: the state of the exchange,
-- its ticks and its heartbeats. The clock and what the sockets answer are given tick by tick.
use qode.Base.{
  ℕ, zero, suc, ◌+◌, ◌*◌, ◌/◌, ◌%◌, ◌^◌, Bool, Option, some, List, [], ◌∷◌, ltb, ◌==◌,
  if◌then◌else◌, min, length, u32, u64, add64, ◌>>=◌,
}
use qode.Clients.{ClientManager, broadcast, send_to_client, get_all_client_fds, client_count}
use qode.Clients.Entries.{Reply}
use qode.Generator.{Machine, TickGenerator, generate_tick, generate_heartbeat}

pub record ExchangeSimulator : Type 0 where
  -- Whether `server_fd_` and `event_fd_` are open.
  pub has_server : Bool
  pub has_events : Bool
  pub running : Bool
  pub messages_sent : ℕ
  pub bytes_sent : ℕ
  pub tick_rate : ℕ
  pub fault_injection : Bool
  pub fault_skip_counter : ℕ
  pub tick_gen : TickGenerator
  pub client_mgr : ClientManager

-- The times at which a tick is skipped, generated and sent, and the sockets' answers.
pub record Turn : Type 0 where
  pub skip_time : ℕ
  pub tick_time : ℕ
  pub send_time : ℕ
  pub replies : ℕ → Reply

-- Fault injection: every hundredth tick is generated and dropped before the one that is sent.
unfoldable pub inject_fault : Machine → ℕ → ExchangeSimulator → Option ExchangeSimulator
unfolding generate_tick
inject_fault w now x =
    let counter = u32 (x.fault_skip_counter + 1) in
    if x.fault_injection
    then (if counter % 100 == 0
        then (generate_tick w now x.tick_gen >>= λ r.
            some (record x { fault_skip_counter = counter; tick_gen = r.2 }))
        else some (record x { fault_skip_counter = counter }))
    else some x

-- The bytes that are broadcast, and the state behind it.
unfoldable pub generate_and_broadcast_tick :
    Machine → Turn → ExchangeSimulator → Option (List ℕ × ExchangeSimulator)
unfolding inject_fault generate_tick broadcast
generate_and_broadcast_tick w t x = inject_fault w t.skip_time x >>= λ x1.
    generate_tick w t.tick_time x1.tick_gen >>= λ r.
    let size = length r.1 in
    let b = broadcast size r.0 t.send_time t.replies x1.client_mgr in
    some (
      r.1,
      record x1 {
        tick_gen = r.2;
        client_mgr = b.1;
        messages_sent = add64 x1.messages_sent b.0;
        bytes_sent = add64 x1.bytes_sent (u64 (b.0 * size));
      },
    )

-- The loop of `send_heartbeat`.
unfoldable pub send_to_all : List ℕ → ℕ → (ℕ → Reply) → ClientManager → ClientManager
unfolding send_to_client
send_to_all [] size replies m = m
send_to_all (fd ∷ fds) size replies m =
    send_to_all fds size replies (send_to_client fd size (replies fd) m).1

unfoldable pub send_heartbeat : ℕ → (ℕ → Reply) → ExchangeSimulator → ExchangeSimulator
unfolding generate_heartbeat send_to_all get_all_client_fds
send_heartbeat now replies x =
    let (bytes, g) = generate_heartbeat now x.tick_gen in
    let m = x.client_mgr in
    record x {
      tick_gen = g;
      client_mgr = send_to_all (get_all_client_fds m) (length bytes) replies m;
    }

-- `1000000000 / tick_rate_`.
abbrev pub tick_interval : ℕ → ℕ
tick_interval tick_rate = 1000000000 / tick_rate

-- `std::min(100, static_cast<int>(elapsed / interval))`: the cast keeps 32 bits, and a negative
-- number of ticks is none.
unfoldable pub ticks_to_generate : ℕ → ℕ → ℕ
ticks_to_generate elapsed interval =
    let ticks = u32 (elapsed / interval) in if ltb ticks (2 ^ 31) then min 100 ticks else 0

-- `for (i = 0; i < n && client_count() > 0; ++i)`, from `i` on with `n` to come.
unfoldable pub generate_ticks :
    Machine → (ℕ → Turn) → ℕ → ℕ → ExchangeSimulator → Option ExchangeSimulator
unfolding generate_and_broadcast_tick client_count
generate_ticks w turns zero i x = some x
generate_ticks w turns (suc n) i x =
    if ltb 0 (client_count x.client_mgr)
    then (generate_and_broadcast_tick w (turns i) x >>= λ r. generate_ticks w turns n (i + 1) r.1)
    else some x
