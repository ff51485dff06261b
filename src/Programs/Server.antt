-- ===== src/Programs/Server.antt =====
-- src/server/main.cpp: the program as a whole.
use qode.Base.{ℕ, ◌≤◌, ◌<◌, ◌≡◌, ◌∙◌, ap, ◌^◌, some, List, Text, >>=-some, arith}
use qode.Clients.Steps.{start}
use qode.Clients.Store.{AllDistinct}
use qode.Clients.Descriptors.{Released, Reachable-Released}
use qode.Clients.{get_all_client_fds}
use qode.Generator.{Machine, new_generator, reset, drift_of, set_market_condition}
use qode.Generator.Price.{IsReliable}
use qode.Generator.Ticks.{HasDoubles, HasSymbols}
use qode.Generator.Market.{HasInitial, IsMarket}
use qode.Generator.Symbols.{created, conditioned}
use qode.Exchange.Simulator as Simulator
use qode.Exchange.Simulator.{
  new_simulator, set_tick_rate, set_market_condition as set_market, enable_fault_injection,
}
use qode.Exchange.Ticks.{ExchangeSimulator}
use qode.Exchange.Steps.{IsSound}
use qode.Exchange.Rounds.{start-IsSound}
use qode.Exchange.Loop.{run-IsExchange}
use qode.Programs.{configured, serve, server_main}
use qode.Programs.Options.{proceed, ServerOptions, default_options, read_server_options}

configured-IsSound :
    (w : Machine) (o : ServerOptions)
    → 0 < o.num_symbols
    → o.num_symbols ≤ 2 ^ 16
    → IsSound w (drift_of w o.market) (configured w o)
unfolding configured new_simulator set_tick_rate set_market enable_fault_injection
    set_market_condition new_generator reset
configured-IsSound w o pos few = record {
  clients = start;
  ticks = conditioned o.market (created o.num_symbols);
  generator = record { some_symbols = pos; few_symbols = few; sequence_fits = omega arith };
}

-- The exchange's program from its command line on. With a random source that draws a positive
-- number in one of the next rounds, symbols up to the largest asked for, and initial prices and
-- quantities within the bounds of their distributions, and with quotients that are 64-bit patterns:
-- where the options are accepted and ask for 1 to 65536 symbols, the program gets through any
-- rounds and ends with code 0. What it destroys at its end is a simulator in which no two clients
-- have one descriptor, every symbol's price is from 1 to 100000, its quantities are from 100 to 2 ^
-- 31 - 1, and its drift is the one of the market asked for. The client manager stands where some
-- calls on a new one lead, and its destructor leaves closed the descriptors that `add_client` took
-- over in these calls, each as many times as that, and no other.
pub server_main-IsExchange :
    (w : Machine) (atoi : Text → ℕ) (opts : List (ℕ × Text)) (o : ServerOptions)
    (first second : Simulator.Startup) (now : ℕ) (rounds : List Simulator.Round)
    → IsReliable w
    → HasDoubles w
    → HasSymbols w
    → HasInitial w
    → read_server_options atoi opts default_options ≡ proceed o
    → 0 < o.num_symbols
    → o.num_symbols ≤ 2 ^ 16
    → (x : ExchangeSimulator) × (server_main w atoi opts first second now rounds
        ≡ some (0, some (Simulator.destroy x)))
      × AllDistinct (get_all_client_fds x.client_mgr)
      × Released x.client_mgr
      × IsMarket w (drift_of w o.market) x.tick_gen
unfolding server_main serve
server_main-IsExchange w atoi opts o first second now rounds rel double syms init read pos few =
    let d = drift_of w o.market in
    let x0 = configured w o in
    let x1 = Simulator.start first x0 in
    let (x, e, sound, distinct, market) =
      run-IsExchange w d second now rounds x1 rel double syms init
        (start-IsSound w rel double syms d first x0 (configured-IsSound w o pos few)) in
    (
      x,
      ap (serve w first second now rounds) read ∙ >>=-some _ e,
      distinct,
      Reachable-Released sound.clients,
      market,
    )
