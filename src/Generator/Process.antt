-- ===== src/Generator/Process.antt =====
-- src/server/tick_generator.cpp: the price of a symbol, and the random numbers that move it.
use qode.Base.{ℕ, zero, suc, ◌+◌, Bool, true, false, Option, none, some, if◌then◌else◌, ◌>>=◌}
use qode.Base.Double.{Arithmetic}

pub record SymbolState : Type 0 where
  pub price : ℕ
  pub bid_price : ℕ
  pub ask_price : ℕ
  pub volatility : ℕ
  pub drift : ℕ
  pub bid_quantity : ℕ
  pub ask_quantity : ℕ
  pub last_trade_qty : ℕ

-- `SymbolState{}`.
abbrev pub empty_symbol : SymbolState
empty_symbol = record {
  price = 0;
  bid_price = 0;
  ask_price = 0;
  volatility = 0;
  drift = 0;
  bid_quantity = 0;
  ask_quantity = 0;
  last_trade_qty = 0;
}

-- `rng_`, of which only the number of draws so far is kept, and the Box-Muller state.
pub record Noise : Type 0 where
  pub draws : ℕ
  pub has_spare : Bool
  pub spare : ℕ

-- The machine's doubles, what each distribution makes of the draw with a given number, and the
-- number of rounds that are looked at of the loop that waits for a positive draw.
pub record Machine : Type 0 where
  pub arithmetic : Arithmetic
  pub uniform : ℕ → ℕ
  pub initial_price : ℕ → ℕ
  pub initial_volatility : ℕ → ℕ
  pub initial_quantity : ℕ → ℕ
  pub quantity_change : ℕ → ℕ
  -- The symbols up to a largest one.
  pub any_symbol : ℕ → ℕ → ℕ
  pub rounds : ℕ

-- One call of a distribution.
abbrev pub draw : (ℕ → ℕ) → Noise → ℕ × Noise
draw d k = (d k.draws, record k { draws = k.draws + 1 })

module _ (w : Machine) where
  abbrev f : Arithmetic
  f = w.arithmetic

  -- `do { u1 = …; u2 = …; } while (u1 <= 0.0)`.
  unfoldable pub draw_positive : ℕ → Noise → Option (ℕ × ℕ × Noise)
  draw_positive zero k = none
  draw_positive (suc left) k =
      let (u1, k1) = draw w.uniform k in
      let (u2, k2) = draw w.uniform k1 in
      let again = draw_positive left k2 in
      if f.less_eq u1 (f.literal 0 0) then again else some (u1, u2, k2)

  -- The Box-Muller transform of two draws.
  unfoldable pub box_muller : ℕ → ℕ → Noise → ℕ × Noise
  box_muller u1 u2 k =
      let pi = f.literal 314159265358979323846 20 in
      let angle = f.mul (f.mul (f.literal 2 0) pi) u2 in
      let mag = f.sqrt (f.mul (f.neg (f.literal 2 0)) (f.log u1)) in
      (f.mul mag (f.cos angle), record k { spare = f.mul mag (f.sin angle); has_spare = true })

  unfoldable pub generate_normal : Noise → Option (ℕ × Noise)
  unfolding draw_positive box_muller
  generate_normal k =
      if k.has_spare
      then some (k.spare, record k { has_spare = false })
      else draw_positive w.rounds k >>= λ r. some (box_muller r.0 r.1 r.2)

  -- `std::round(x * 100.0) / 100.0`.
  unfoldable pub round_cents : ℕ → ℕ
  round_cents x = f.div (f.round (f.mul x (f.literal 100 0))) (f.literal 100 0)

  unfoldable pub update_spread : SymbolState → Noise → SymbolState × Noise
  unfolding round_cents
  update_spread symbol k =
      let (u, k') = draw w.uniform k in
      let spread_pct = f.add (f.literal 5 4) (f.mul u (f.literal 15 4)) in
      let half_spread = f.div (f.mul symbol.price spread_pct) (f.literal 2 0) in
      (
        record symbol {
          bid_price = round_cents (f.sub symbol.price half_spread);
          ask_price = round_cents (f.add symbol.price half_spread);
        },
        k',
      )

  -- `std::max(1.0, std::min(price, 100000.0))`.
  unfoldable pub clamp_price : ℕ → ℕ
  clamp_price price =
      let low = if f.less (f.literal 100000 0) price then f.literal 100000 0 else price in
      if f.less (f.literal 1 0) low then low else f.literal 1 0

  -- The price after a step in which the normal draw is `z`.
  unfoldable pub moved_price : ℕ → ℕ → SymbolState → ℕ
  moved_price dt z symbol =
      let d_w = f.mul z (f.sqrt dt) in
      let drift_term = f.mul (f.mul symbol.drift symbol.price) dt in
      let volatility_term = f.mul (f.mul symbol.volatility symbol.price) d_w in
      f.add symbol.price (f.add drift_term volatility_term)

  unfoldable pub update_price : ℕ → SymbolState → Noise → Option (SymbolState × Noise)
  unfolding generate_normal moved_price clamp_price update_spread
  update_price dt symbol k = generate_normal k >>= λ r.
      some (update_spread (record symbol { price = clamp_price (moved_price dt r.0 symbol) }) r.1)
