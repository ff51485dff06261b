-- ===== src/Examples/Rounds.antt =====
-- The rounds of the exchange and the program as a whole, with two symbols.
use qode.Base.{
  Text, codes, read_digits, ℕ, ◌+◌, ◌≡◌, refl, true, false, some, List, [], ◌∷◌, ◌++◌, arith, u32,
}
use qode.Protocol.{heartbeat_msg_size}
use qode.Clients.{get_client, get_all_client_fds}
use qode.Clients.Entries.{ClientConnection, find, member}
use qode.Clients.Steps.{start}
use qode.Clients.Send.{IsSent}
use qode.Clients.Store.{AllDistinct}
use qode.Clients.Descriptors.{Released}
use qode.Generator.{bullish, new_generator, drift_of, reset}
use qode.Generator.Market.{IsMarket}
use qode.Generator.Symbols.{created}
use qode.Exchange.Simulator
use qode.Exchange.Simulator.{
  Startup, Round, Loop, new_simulator, enable_fault_injection, set_tick_rate, run, run_loop,
  connections,
}
use qode.Exchange.Ticks.{ExchangeSimulator, send_heartbeat}
use qode.Exchange.Steps.{IsSound}
use qode.Exchange.Loop.{run-IsExchange, run_loop_stops}
use qode.Exchange.Heartbeat.{send_heartbeat_lem}
use qode.Programs.{server_main}
use qode.Programs.Options.{
  ServerOptions, default_options, read_server_options, read_server_option, proceed,
}
use qode.Programs.Server.{server_main-IsExchange}
use qode.Examples.Exchange.{
  machine, machine-IsReliable, machine-HasDoubles, machine-HasSymbols, machine-HasInitial, client,
  simulator, answers, turn,
}

-- An exchange that has just been made.
abbrev fresh_exchange : ExchangeSimulator
fresh_exchange = new_simulator machine 2

fresh_exchange-IsSound : IsSound machine 0 fresh_exchange
unfolding new_simulator new_generator reset
fresh_exchange-IsSound = record {
  clients = start;
  ticks = created 2;
  generator = record {
    some_symbols = omega arith;
    few_symbols = omega arith;
    sequence_fits = omega arith;
  };
}

abbrev last_round : Round
last_round = record {
  events = connections (record { fd = 4; address = []; port = 5000; time = 1 } ∷ []) ∷ [];
  now = 2000000000;
  turns = λ i. turn;
  heartbeat_time = 5;
  heartbeat_replies = answers;
  stops = true;
}

abbrev startup : Startup
startup = record {
  socket_ok = true;
  bind_ok = true;
  listen_ok = true;
  create_ok = true;
  add_ok = true;
}

run-IsExchange_example :
    (x' : ExchangeSimulator) × (run machine startup 0 (last_round ∷ []) fresh_exchange ≡ some x')
    × IsSound machine 0 x'
    × AllDistinct (get_all_client_fds x'.client_mgr)
    × IsMarket machine 0 x'.tick_gen
run-IsExchange_example =
    run-IsExchange machine 0 startup 0 (last_round ∷ []) fresh_exchange machine-IsReliable
      machine-HasDoubles machine-HasSymbols machine-HasInitial fresh_exchange-IsSound

abbrev before_loop : Loop
before_loop = record { simulator = fresh_exchange; last_tick = 0; last_heartbeat = 0 }

run_loop_stops_example :
    (l' : Loop) × (run_loop machine 10000 ([] ++ (last_round ∷ last_round ∷ [])) before_loop
      ≡ some l')
    × (run_loop machine 10000 ([] ++ (last_round ∷ [])) before_loop ≡ some l')
    × (l'.simulator.running ≡ false)
run_loop_stops_example =
    run_loop_stops machine 0 10000 [] last_round (last_round ∷ []) before_loop machine-IsReliable
      machine-HasDoubles machine-HasSymbols fresh_exchange-IsSound refl

client-found : get_client 4 simulator.client_mgr ≡ some client
unfolding get_client find
client-found = refl

send_heartbeat_lem_example :
    let x' = send_heartbeat 9 answers simulator in
    ((c' : ClientConnection) × (get_client 4 x'.client_mgr ≡ some c')
      × IsSent simulator.client_mgr.slow_threshold heartbeat_msg_size (answers 4) client c')
    × (x'.tick_gen.sequence ≡ u32 (0 + 1))
unfolding get_all_client_fds AllDistinct member
send_heartbeat_lem_example = send_heartbeat_lem 9 answers simulator 4 client (refl, tt) client-found

-- `-s 2 -m bull`, where `atoi` reads digits.
abbrev options : List (ℕ × Text)
options = (b's', codes "2") ∷ (b'm', codes "bull") ∷ []

abbrev asked : ServerOptions
asked = record default_options { num_symbols = 2; market = bullish }

options-read : read_server_options (read_digits 0) options default_options ≡ proceed asked
unfolding read_server_options read_server_option read_digits
options-read = refl

server_main-IsExchange_example :
    (x : ExchangeSimulator) × (server_main machine
        (read_digits 0)
        options
        startup
        startup
        0
        (last_round ∷ [])
      ≡ some (0, some (Simulator.destroy x)))
    × AllDistinct (get_all_client_fds x.client_mgr)
    × Released x.client_mgr
    × IsMarket machine (drift_of machine bullish) x.tick_gen
server_main-IsExchange_example =
    server_main-IsExchange machine (read_digits 0) options asked startup startup 0 (last_round ∷ [])
      machine-IsReliable machine-HasDoubles machine-HasSymbols machine-HasInitial options-read
      (omega arith) (omega arith)
