-- ===== src/Generator.antt =====
-- include/tick_generator.h and src/server/tick_generator.cpp: the prices of the symbols and the
-- messages about them. The random source is a parameter: what each of its draws gives.
pub mod Process
pub mod Price
pub mod Ticks
pub mod Delivery
pub mod Market
pub mod Symbols
use qode.Base.{
  ℕ, zero, suc, ◌+◌, ◌^◌, Bool, true, false, Option, none, some, List, [], ◌∷◌, map, ltb, leb,
  if◌then◌else◌, max, get_or, set, replicate, u16, u32, u64, ◌>>=◌,
}
use qode.Base.Double.{Arithmetic}
use qode.Protocol.{
  trade, quote, heartbeat, from_message_type, MessageHeader, TradePayload, QuotePayload,
  trade_message, quote_message, heartbeat_message,
}
pub use qode.Generator.Process.{SymbolState, empty_symbol, Noise, Machine, draw}
unfoldable pub use qode.Generator.Process.{
  draw_positive, box_muller, generate_normal, round_cents, update_spread, clamp_price, moved_price,
  update_price,
}

pub data MarketCondition : Type 0 where
  neutral bullish bearish : MarketCondition

pub record TickGenerator : Type 0 where
  pub num_symbols : ℕ
  pub symbols : List SymbolState
  pub sequence : ℕ
  pub dt : ℕ
  pub market_condition : MarketCondition
  pub noise : Noise

module _ (w : Machine) where
  abbrev f : Arithmetic
  f = w.arithmetic

  -- The body of the loop of `reset`.
  unfoldable pub reset_symbol : SymbolState → Noise → SymbolState × Noise
  unfolding update_spread
  reset_symbol symbol k =
      let (price, k1) = draw w.initial_price k in
      let (volatility, k2) = draw w.initial_volatility k1 in
      let neutral_symbol = record symbol {
        price = price;
        volatility = volatility;
        drift = f.literal 0 0;
      } in
      let (spread, k3) = update_spread w neutral_symbol k2 in
      let (bid, k4) = draw w.initial_quantity k3 in
      let (ask, k5) = draw w.initial_quantity k4 in
      (record spread { bid_quantity = bid; ask_quantity = ask; last_trade_qty = 0 }, k5)

  unfoldable pub reset_symbols : List SymbolState → Noise → List SymbolState × Noise
  unfolding reset_symbol
  reset_symbols [] k = ([], k)
  reset_symbols (symbol ∷ symbols) k =
      let (first, k1) = reset_symbol symbol k in
      let (others, k2) = reset_symbols symbols k1 in (first ∷ others, k2)

  unfoldable pub reset : TickGenerator → TickGenerator
  unfolding reset_symbols
  reset g =
      let (symbols, noise) = reset_symbols g.symbols g.noise in
      record g { sequence = 0; symbols = symbols; noise = noise }

  -- The members before the constructor's body.
  abbrev pub initial_members : ℕ → TickGenerator
  initial_members num_symbols = record {
    num_symbols = num_symbols;
    symbols = replicate num_symbols empty_symbol;
    sequence = 0;
    dt = f.literal 1 3;
    market_condition = neutral;
    noise = record { draws = 0; has_spare = false; spare = f.literal 0 0 };
  }

  unfoldable pub new_generator : ℕ → TickGenerator
  unfolding reset
  new_generator num_symbols = reset (initial_members num_symbols)

  -- The branch of a trade, once the header's number and time are known.
  unfoldable pub generate_trade : MessageHeader → SymbolState → Noise → List ℕ × SymbolState × Noise
  unfolding round_cents
  generate_trade header symbol k =
      let (u, k1) = draw w.uniform k in
      let (v, k2) = draw w.uniform k1 in
      let trade_offset =
        f.mul (f.sub u (f.literal 5 1)) (f.sub symbol.ask_price symbol.bid_price) in
      let quantity = u32 (f.to_nat (f.add (f.literal 100 0) (f.mul v (f.literal 9900 0)))) in
      let payload : TradePayload = record {
        price = round_cents w (f.add symbol.price trade_offset);
        quantity = quantity;
      } in
      (
        trade_message (record header { message_type = from_message_type trade }) payload,
        record symbol { last_trade_qty = quantity },
        k2,
      )

  -- `std::max(100, static_cast<int32_t>(quantity) + change)` on the patterns of `int32_t`, whose
  -- addition wraps around where C++ leaves it undefined.
  unfoldable pub change_quantity : ℕ → ℕ → ℕ
  change_quantity quantity change =
      let sum = u32 (quantity + change) in if ltb sum (2 ^ 31) then max 100 sum else 100

  -- The branch of a quote.
  unfoldable pub generate_quote : MessageHeader → SymbolState → Noise → List ℕ × SymbolState × Noise
  unfolding change_quantity
  generate_quote header symbol k =
      let (bid_change, k1) = draw w.quantity_change k in
      let (ask_change, k2) = draw w.quantity_change k1 in
      let bid_quantity = change_quantity symbol.bid_quantity bid_change in
      let ask_quantity = change_quantity symbol.ask_quantity ask_change in
      let payload : QuotePayload = record {
        bid_price = symbol.bid_price;
        bid_quantity = bid_quantity;
        ask_price = symbol.ask_price;
        ask_quantity = ask_quantity;
      } in
      (
        quote_message (record header { message_type = from_message_type quote }) payload,
        record symbol { bid_quantity = bid_quantity; ask_quantity = ask_quantity },
        k2,
      )

  -- `generate_tick_for_symbol` behind `update_price`, which gave `symbol` and the noise in `g`.
  unfoldable pub write_tick : ℕ → ℕ → SymbolState → TickGenerator → List ℕ × TickGenerator
  unfolding generate_trade generate_quote
  write_tick symbol_id now symbol g =
      let (u, k) = draw w.uniform g.noise in
      let header : MessageHeader = record {
        message_type = 0;
        sequence_number = u32 (g.sequence + 1);
        timestamp_ns = u64 now;
        symbol_id = symbol_id;
      } in
      let r =
        if f.less u (f.literal 3 1)
        then generate_trade header symbol k
        else generate_quote header symbol k in
      (
        r.0,
        record g {
          sequence = u32 (g.sequence + 1);
          symbols = set g.symbols symbol_id r.1;
          noise = r.2;
        },
      )

  -- The bytes written, none for a symbol out of range; `now` is the time on the clock.
  unfoldable pub generate_tick_for_symbol : ℕ → ℕ → TickGenerator → Option (List ℕ × TickGenerator)
  unfolding update_price write_tick
  generate_tick_for_symbol symbol_id now g =
      if leb g.num_symbols symbol_id
      then some ([], g)
      else update_price w g.dt (get_or g.symbols symbol_id empty_symbol) g.noise >>= λ r.
          some (write_tick symbol_id now r.0 (record g { noise = r.1 }))

  -- A tick of a random symbol: the symbol and the bytes. `num_symbols - 1` wraps around.
  unfoldable pub generate_tick : ℕ → TickGenerator → Option (ℕ × List ℕ × TickGenerator)
  unfolding generate_tick_for_symbol
  generate_tick now g =
      let (symbol_id, k) = draw (w.any_symbol (u16 (g.num_symbols + 65535))) g.noise in
      generate_tick_for_symbol symbol_id now (record g { noise = k }) >>= λ r.
      some (symbol_id, r.0, r.1)

  -- The drift of a market condition.
  unfoldable pub drift_of : MarketCondition → ℕ
  drift_of neutral = f.literal 0 0
  drift_of bullish = f.literal 5 2
  drift_of bearish = f.neg (f.literal 5 2)

  unfoldable pub set_market_condition : MarketCondition → TickGenerator → TickGenerator
  unfolding drift_of
  set_market_condition condition g =
      let with_drift : SymbolState → SymbolState =
        λ symbol. record symbol { drift = drift_of condition } in
      record g { market_condition = condition; symbols = map with_drift g.symbols }

unfoldable pub generate_heartbeat : ℕ → TickGenerator → List ℕ × TickGenerator
generate_heartbeat now g =
    let number = u32 (g.sequence + 1) in
    (
      heartbeat_message (record {
        message_type = from_message_type heartbeat;
        sequence_number = number;
        timestamp_ns = u64 now;
        symbol_id = 0;
      }),
      record g { sequence = number },
    )

unfoldable pub get_symbol_state : ℕ → TickGenerator → SymbolState
get_symbol_state symbol_id g =
    if leb g.num_symbols symbol_id then empty_symbol else get_or g.symbols symbol_id empty_symbol

unfoldable pub set_time_step : ℕ → TickGenerator → TickGenerator
set_time_step dt g = record g { dt = dt }
