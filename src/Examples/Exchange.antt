-- ===== src/Examples/Exchange.antt =====
-- The tick generator and the exchange, with a random source that draws the same numbers.
use qode.Base.{
  ℕ, ◌+◌, ◌/◌, ◌%◌, ◌*◌, ◌-◌, min, ◌^◌, ◌≤◌, ◌<◌, ◌≡◌, refl, inl, inr, true, some, List, [], ◌∷◌,
  map, arith, u32, if◌then◌else◌,
}
use qode.Clients.{ClientManager, new_manager, client_count}
use qode.Clients.Entries.{ClientConnection, new_connection, Reply, sent}
use qode.Parser.{Tracking, fresh}
use qode.Feed.{all_callbacks}
use qode.Parser.Stream.{Decodes}
use qode.Parser.RoundTrip.{Message, encode_all, event_of, IsAfter}
use qode.Generator.{
  Machine, TickGenerator, bullish, new_generator, generate_tick, drift_of, set_market_condition,
  initial_members,
}
use qode.Generator.Price.{IsReliable}
use qode.Generator.Ticks.{HasDoubles, HasSymbols, IsTick, generate_tick-IsTick}
use qode.Generator.Market.{HasInitial, IsMarket}
use qode.Generator.Symbols.{created, conditioned, Reachable-IsMarket}
use qode.Generator.Delivery.{tick_at, heartbeat_at, Output, write_all, write_all-Decodes}
use qode.Exchange.Simulator.{enable_fault_injection, set_tick_rate}
use qode.Exchange.Ticks.{
  ExchangeSimulator, Turn, generate_and_broadcast_tick, generate_ticks, ticks_to_generate,
  tick_interval,
}
use qode.Exchange.Faults.{
  HasGenerator, IsBroadcastTick, generate_and_broadcast_tick-IsBroadcastTick,
}
use qode.Exchange.Gaps.{generate_ticks-sequence}
use qode.Exchange.Interval.{ticks_to_generate-bounds}
use qode.Examples.{whole_arithmetic}

abbrev pub machine : Machine
machine = record {
  arithmetic = record whole_arithmetic { div = λ x y. x / y % 2 ^ 64 };
  uniform = λ n. 1;
  initial_price = λ n. 500;
  initial_volatility = λ n. 2;
  initial_quantity = λ n. 200;
  quantity_change = λ n. 2 ^ 32 - 7;
  any_symbol = λ largest n. min largest n;
  rounds = 3;
}

pub machine-IsReliable : IsReliable machine
machine-IsReliable n = (0, omega arith, refl)

pub machine-HasDoubles : HasDoubles machine
machine-HasDoubles x y = omega arith

pub machine-HasSymbols : HasSymbols machine
machine-HasSymbols largest n = omega arith

pub machine-HasInitial : HasInitial machine
machine-HasInitial n = (inr (refl, inr refl), (omega arith, omega arith))

abbrev pub generator : TickGenerator
generator = initial_members machine 2

generate_tick-IsTick_example :
    (symbol_id : ℕ) × (bytes : List ℕ) × (g' : TickGenerator) × (generate_tick machine 77 generator
      ≡ some (symbol_id, bytes, g'))
    × (symbol_id < 2)
    × IsTick symbol_id bytes generator g'
generate_tick-IsTick_example =
    generate_tick-IsTick machine machine-HasDoubles 77 generator machine-IsReliable
      machine-HasSymbols (omega arith) (omega arith)

Reachable-IsMarket_example :
    IsMarket machine
      (drift_of machine bullish)
      (set_market_condition machine bullish (new_generator machine 2))
Reachable-IsMarket_example =
    Reachable-IsMarket machine machine-IsReliable machine-HasInitial
      (conditioned bullish (created 2))

abbrev pub outputs : List Output
outputs = tick_at 77 ∷ heartbeat_at 78 ∷ tick_at 79 ∷ []

abbrev tracking : Tracking
tracking = fresh all_callbacks

write_all-Decodes_example :
    (ms : List Message) × (g' : TickGenerator) × (t' : Tracking) × (write_all machine outputs
        generator
      ≡ some (encode_all ms, g'))
    × Decodes t' [] tracking (encode_all ms) 3 (map event_of ms)
    × IsAfter 3 tracking t'
unfolding fresh
write_all-Decodes_example =
    write_all-Decodes machine machine-IsReliable machine-HasDoubles machine-HasSymbols outputs
      generator tracking (omega arith) (omega arith) (inl refl)
      (record { trade_set = refl; quote_set = refl; heartbeat_set = refl }) (omega arith)

abbrev pub client : ClientConnection
client = new_connection 4 [] 5000 1

abbrev manager : ClientManager
manager = record new_manager { clients = client ∷ [] }

abbrev pub simulator : ExchangeSimulator
simulator = record {
  has_server = true;
  has_events = true;
  running = true;
  messages_sent = 0;
  bytes_sent = 0;
  tick_rate = 100000;
  fault_injection = true;
  fault_skip_counter = 99;
  tick_gen = generator;
  client_mgr = manager;
}

simulator-HasGenerator : HasGenerator simulator
simulator-HasGenerator = record {
  some_symbols = omega arith;
  few_symbols = omega arith;
  sequence_fits = omega arith;
}

abbrev pub answers : ℕ → Reply
answers fd = record { queued = some 100; send_result = sent 32 }

abbrev pub turn : Turn
turn = record { skip_time = 1; tick_time = 2; send_time = 3; replies = answers }

generate_and_broadcast_tick-IsBroadcastTick_example :
    (bytes : List ℕ) × (x' : ExchangeSimulator) × (generate_and_broadcast_tick machine turn
        simulator
      ≡ some (bytes, x'))
    × IsBroadcastTick turn simulator bytes x'
generate_and_broadcast_tick-IsBroadcastTick_example =
    generate_and_broadcast_tick-IsBroadcastTick machine machine-IsReliable machine-HasDoubles
      machine-HasSymbols turn simulator simulator-HasGenerator

generate_ticks-sequence_example :
    (x' : ExchangeSimulator) × (generate_ticks machine
        (λ i. turn)
        250
        0
        (enable_fault_injection true simulator)
      ≡ some x')
    × (x'.tick_gen.sequence ≡ u32 (0 + 250 + (if true then 250 / 100 else 0)))
    × (x'.fault_skip_counter ≡ (if true then 250 else 0))
generate_ticks-sequence_example =
    generate_ticks-sequence machine machine-IsReliable machine-HasDoubles machine-HasSymbols
      (λ i. turn) 250 true simulator simulator-HasGenerator (unfold client_count in omega arith)
      (omega arith)

ticks_to_generate-bounds_example :
    let interval = tick_interval (set_tick_rate 0 simulator).tick_rate in
    let n = ticks_to_generate 2500000000 interval in
    (2000 ≤ interval)
    × (interval ≤ 1000000000)
    × (n ≤ 100)
    × (n * interval ≤ 2500000000)
    × (interval ≤ 2500000000 → 2500000000 / interval < 2 ^ 31 → 1 ≤ n)
ticks_to_generate-bounds_example = ticks_to_generate-bounds 0 2500000000 simulator
