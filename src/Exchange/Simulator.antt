-- ===== src/Exchange/Simulator.antt =====
-- include/exchange_simulator.h and src/server/exchange_simulator.cpp: the start, the events, the
-- main loop and the settings. What the kernel reports, the clock and a call of `stop` from outside
-- are given round by round.
use qode.Base.{
  ℕ, ◌-◌, Bool, true, false, ◌&&◌, Option, some, List, [], ◌∷◌, leb, if◌then◌else◌, ◌>>=◌,
}
use qode.Socket.{RecvResult}
use qode.Clients
use qode.Clients.{
  ClientManager, new_manager, add_client, broadcast, send_to_client, get_all_client_fds,
  client_count,
}
use qode.Clients.Entries.{Reply}
use qode.Generator as TickGen
use qode.Generator.{
  Machine, TickGenerator, MarketCondition, new_generator, generate_tick, generate_heartbeat,
}
use qode.Exchange.{handle_client_event, clamp_tick_rate}
use qode.Exchange.Ticks.{
  ExchangeSimulator, Turn, send_heartbeat, tick_interval, ticks_to_generate, generate_ticks,
}

unfoldable pub new_simulator : Machine → ℕ → ExchangeSimulator
unfolding new_generator
new_simulator w num_symbols = record {
  has_server = false;
  has_events = false;
  running = false;
  messages_sent = 0;
  bytes_sent = 0;
  tick_rate = 100000;
  fault_injection = false;
  fault_skip_counter = 0;
  tick_gen = new_generator w num_symbols;
  client_mgr = new_manager;
}

-- Whether the system calls of `start` succeed.
pub record Startup : Type 0 where
  pub socket_ok : Bool
  pub bind_ok : Bool
  pub listen_ok : Bool
  pub create_ok : Bool
  pub add_ok : Bool

unfoldable pub init_server_socket : Startup → ExchangeSimulator → Bool × ExchangeSimulator
init_server_socket s x =
    (s.socket_ok && (s.bind_ok && s.listen_ok), record x { has_server = s.socket_ok })

unfoldable pub init_event_system : Startup → ExchangeSimulator → Bool × ExchangeSimulator
init_event_system s x = (s.create_ok && s.add_ok, record x { has_events = s.create_ok })

unfoldable pub start : Startup → ExchangeSimulator → ExchangeSimulator
unfolding init_server_socket init_event_system
start s x =
    let (server, x1) = init_server_socket s x in
    let (events, x2) = init_event_system s x1 in
    if server then (if events then record x2 { running = true } else x2) else x1

unfoldable pub stop : ExchangeSimulator → ExchangeSimulator
stop x = record x { running = false }

-- The destructor, and that of the client manager, which the simulator owns.
unfoldable pub destroy : ExchangeSimulator → ExchangeSimulator
unfolding stop Clients.destroy
destroy x = record (stop x) {
  has_server = false;
  has_events = false;
  client_mgr = Clients.destroy x.client_mgr;
}

-- A connection that `accept` returns.
pub record Arrival : Type 0 where
  pub fd : ℕ
  pub address : List ℕ
  pub port : ℕ
  pub time : ℕ

-- The loop of `handle_new_connection`, until `accept` returns no more.
unfoldable pub handle_new_connection : List Arrival → ClientManager → ClientManager
unfolding add_client
handle_new_connection [] m = m
handle_new_connection (a ∷ as') m =
    handle_new_connection as' (add_client a.fd a.address a.port a.time m).1

-- An event of the server's socket, with the connections that wait there, or of a client's.
pub data SocketEvent : Type 0 where
  connections : List Arrival → SocketEvent
  client_event : ℕ → Bool → Bool → RecvResult → SocketEvent

unfoldable pub handle_events : List SocketEvent → ClientManager → ClientManager
unfolding handle_new_connection handle_client_event
handle_events [] m = m
handle_events (connections arrivals ∷ es) m = handle_events es (handle_new_connection arrivals m)
handle_events (client_event fd is_read is_error answer ∷ es) m =
    handle_events es (handle_client_event fd is_read is_error answer m)

-- What a round of the main loop meets.
pub record Round : Type 0 where
  pub events : List SocketEvent
  pub now : ℕ
  pub turns : ℕ → Turn
  pub heartbeat_time : ℕ
  pub heartbeat_replies : ℕ → Reply
  -- `stop` is called before the round ends.
  pub stops : Bool

-- The local variables of `run`; the steady clock does not go back.
pub record Loop : Type 0 where
  pub simulator : ExchangeSimulator
  pub last_tick : ℕ
  pub last_heartbeat : ℕ

unfoldable pub run_ticks : Machine → ℕ → Round → Loop → Option Loop
unfolding generate_ticks ticks_to_generate
run_ticks w interval r l =
    let elapsed = r.now - l.last_tick in
    if leb interval elapsed
    then (generate_ticks w r.turns (ticks_to_generate elapsed interval) 0 l.simulator >>= λ x.
        some (record l { simulator = x; last_tick = r.now }))
    else some l

unfoldable pub run_heartbeat : Round → Loop → Loop
unfolding send_heartbeat
run_heartbeat r l =
    if leb 1000000000 (r.now - l.last_heartbeat)
    then record l {
      simulator = send_heartbeat r.heartbeat_time r.heartbeat_replies l.simulator;
      last_heartbeat = r.now;
    }
    else l

unfoldable pub run_events : Round → Loop → Loop
unfolding handle_events
run_events r l =
    let x = l.simulator in
    record l { simulator = record x { client_mgr = handle_events r.events x.client_mgr } }

unfoldable pub end_round : Round → Loop → Loop
unfolding stop
end_round r l = if r.stops then record l { simulator = stop l.simulator } else l

-- One round of the main loop.
unfoldable pub run_round : Machine → ℕ → Round → Loop → Option Loop
unfolding run_ticks run_heartbeat run_events end_round
run_round w interval r l =
    run_ticks w interval r (run_events r l) >>= λ l'. some (end_round r (run_heartbeat r l'))

unfoldable pub run_loop : Machine → ℕ → List Round → Loop → Option Loop
unfolding run_round
run_loop w interval [] l = some l
run_loop w interval (r ∷ rs) l =
    if l.simulator.running
    then (run_round w interval r l >>= λ l'. run_loop w interval rs l')
    else some l

-- `run`, from the time `now` on. The interval is the one of the rate at the start.
unfoldable pub run :
    Machine → Startup → ℕ → List Round → ExchangeSimulator → Option ExchangeSimulator
unfolding start run_loop
run w s now rounds x =
    let x' = if x.running then x else start s x in
    if x'.running
    then (run_loop w (tick_interval x'.tick_rate) rounds
          (record { simulator = x'; last_tick = now; last_heartbeat = now })
        >>= λ l. some l.simulator)
    else some x'

unfoldable pub set_tick_rate : ℕ → ExchangeSimulator → ExchangeSimulator
unfolding clamp_tick_rate
set_tick_rate ticks_per_second x = record x { tick_rate = clamp_tick_rate ticks_per_second }

unfoldable pub enable_fault_injection : Bool → ExchangeSimulator → ExchangeSimulator
enable_fault_injection enable x = record x { fault_injection = enable; fault_skip_counter = 0 }

unfoldable pub set_market_condition :
    Machine → MarketCondition → ExchangeSimulator → ExchangeSimulator
unfolding TickGen.set_market_condition
set_market_condition w condition x = record x {
  tick_gen = TickGen.set_market_condition w condition x.tick_gen;
}
