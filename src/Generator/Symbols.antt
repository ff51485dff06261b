-- ===== src/Generator/Symbols.antt =====
-- The state of the symbols in src/server/tick_generator.cpp, whatever the exchange does with them.
use qode.Base.{ℕ, ◌≡◌, sym, ap, ◌∙◌, subst, List, some, length-replicate}
use mathlib.Core.Option.{some-injective}
use qode.Generator.{
  MarketCondition, Machine, TickGenerator, generate_tick_for_symbol, generate_tick,
  generate_heartbeat, empty_symbol, set_market_condition, drift_of, set_time_step, reset,
  new_generator, initial_members,
}
use qode.Generator.Market.{
  IsMarket, HasInitial, generate_tick_for_symbol-IsMarket, generate_tick-IsMarket,
  set_market_condition-IsMarket, reset-IsMarket,
}
use qode.Generator.Price.{IsReliable}

-- What may happen to a generator, with the drift that its symbols have behind it. Random or not,
-- a tick leads where `generate_tick` leads.
pub data Reachable (w : Machine) : ℕ → TickGenerator → Type 0 where
  created : (n : ℕ) → Reachable w (w.arithmetic.literal 0 0) (new_generator w n)
  ticked :
      {d id : ℕ} {bytes : List ℕ} {g g' : TickGenerator} (now : ℕ)
      → Reachable w d g
      → generate_tick w now g ≡ some (id, bytes, g')
      → Reachable w d g'
  ticked_for :
      {d : ℕ} {bytes : List ℕ} {g g' : TickGenerator} (id now : ℕ)
      → Reachable w d g
      → generate_tick_for_symbol w id now g ≡ some (bytes, g')
      → Reachable w d g'
  beat :
      {d : ℕ} {g : TickGenerator} (now : ℕ)
      → Reachable w d g
      → Reachable w d (generate_heartbeat now g).1
  conditioned :
      {d : ℕ} {g : TickGenerator} (condition : MarketCondition)
      → Reachable w d g
      → Reachable w (drift_of w condition) (set_market_condition w condition g)
  timed :
      {d : ℕ} {g : TickGenerator} (dt : ℕ) → Reachable w d g → Reachable w d (set_time_step dt g)
  restarted :
      {d : ℕ} {g : TickGenerator}
      → Reachable w d g
      → Reachable w (w.arithmetic.literal 0 0) (reset w g)

-- With a random source that draws a positive number in one of the next rounds, and initial prices
-- and quantities within the bounds of their distributions: after any sequence of ticks, heartbeats,
-- market conditions, time steps and resets every symbol's price is from 1 to 100000, its bid and
-- ask quantities are from 100 to 2 ^ 31 - 1, and its drift is the one of the last market condition,
-- or zero if the generator was created or reset since.
pub Reachable-IsMarket :
    (w : Machine) {d : ℕ} {g : TickGenerator}
    → IsReliable w
    → HasInitial w
    → Reachable w d g
    → IsMarket w d g
unfolding new_generator generate_heartbeat set_time_step
Reachable-IsMarket w rel h (created n) =
    reset-IsMarket w h (initial_members w n) (length-replicate n empty_symbol)
Reachable-IsMarket w rel h (ticked {d} {g} {g'} now r e) =
    let (id, bytes, g1, e1, m) =
      generate_tick-IsMarket w d now g rel (Reachable-IsMarket w rel h r) in
    subst (IsMarket w d) (ap (λ t. t.2) (some-injective _ _ (sym e1 ∙ e))) m
Reachable-IsMarket w rel h (ticked_for {d} {g} {g'} id now r e) =
    let (bytes, g1, e1, m) =
      generate_tick_for_symbol-IsMarket w d id now g rel (Reachable-IsMarket w rel h r) in
    subst (IsMarket w d) (ap (λ t. t.1) (some-injective _ _ (sym e1 ∙ e))) m
Reachable-IsMarket w rel h (beat now r) =
    let m = Reachable-IsMarket w rel h r in record { sized = m.sized; each = m.each }
Reachable-IsMarket w rel h (conditioned {d} {g} condition r) =
    set_market_condition-IsMarket w d condition g (Reachable-IsMarket w rel h r)
Reachable-IsMarket w rel h (timed dt r) =
    let m = Reachable-IsMarket w rel h r in record { sized = m.sized; each = m.each }
Reachable-IsMarket w rel h (restarted {g} r) =
    reset-IsMarket w h g (Reachable-IsMarket w rel h r).sized
