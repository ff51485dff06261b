-- ===== src/Generator/Price.antt =====
-- What a step of the price process of src/server/tick_generator.cpp leaves behind.
use qode.Base.{
  ℕ, zero, suc, ◌+◌, ◌*◌, ◌≤◌, ◌<◌, ◌^◌, ◌≡◌, refl, sym, ap, ◌∙◌, ◌⊎◌, inl, inr, true, false, some,
  >>=-some, if-elim, arith, if◌then◌else◌, [], get_or, gt→leb, le→leb,
}
use mathlib.Core.Bool.{true≢false}
use qode.Base.Double.{Arithmetic}
use qode.Generator.{
  SymbolState, Noise, Machine, draw_positive, generate_normal, box_muller, clamp_price, moved_price,
  update_spread, update_price, TickGenerator, generate_tick_for_symbol, write_tick, empty_symbol,
  change_quantity, round_cents,
}

-- Wherever the draws stand, one of the next rounds draws a positive number.
abbrev pub IsReliable : Machine → Type 0
IsReliable w =
    (n : ℕ)
    → (j : ℕ) × (j < w.rounds)
      × (w.arithmetic.less_eq (w.uniform (n + j * 2)) (w.arithmetic.literal 0 0) ≡ false)

module _ (w : Machine) where
  abbrev f : Arithmetic
  f = w.arithmetic

  draw_positive-returns :
      (left j : ℕ) (k : Noise)
      → j < left
      → f.less_eq (w.uniform (k.draws + j * 2)) (f.literal 0 0) ≡ false
      → (r : ℕ × ℕ × Noise) × (draw_positive w left k ≡ some r)
  unfolding draw_positive
  draw_positive-returns zero j k h p = absurd (omega arith)
  draw_positive-returns (suc left) zero k h p =
      let at : k.draws ≡ k.draws + 0 * 2 = omega arith in
      let first = ap (λ n. f.less_eq (w.uniform n) (f.literal 0 0)) at ∙ p in
      if-elim (λ o. (r : ℕ × ℕ × Noise) × (o ≡ some r))
        (f.less_eq (w.uniform k.draws) (f.literal 0 0)) (λ t. absurd (true≢false (sym t ∙ first)))
        (λ t. (_, refl))
  draw_positive-returns (suc left) (suc j) k h p =
      let k2 : Noise = record k { draws = k.draws + 1 + 1 } in
      let at : k2.draws + j * 2 ≡ k.draws + suc j * 2 = omega arith in
      let later =
        draw_positive-returns left j k2 (omega arith)
          (ap (λ n. f.less_eq (w.uniform n) (f.literal 0 0)) at ∙ p) in
      if-elim (λ o. (r : ℕ × ℕ × Noise) × (o ≡ some r))
        (f.less_eq (w.uniform k.draws) (f.literal 0 0)) (λ t. later) (λ t. (_, refl))

  -- A normal number is drawn: the loop ends.
  generate_normal-returns :
      (k : Noise) → IsReliable w → (r : ℕ × Noise) × (generate_normal w k ≡ some r)
  unfolding generate_normal
  generate_normal-returns k h =
      let (j, l, p) = h k.draws in
      let (r, e) = draw_positive-returns w.rounds j k l p in
      if-elim (λ o. (r : ℕ × Noise) × (o ≡ some r)) k.has_spare (λ t. (_, refl))
        (λ t. (box_muller w r.0 r.1 r.2, >>=-some _ e))

  -- A price from 1 to 100000: one of the two, or one that compares as between them. What compares
  -- with nothing is not among them.
  abbrev pub IsClamped : ℕ → Type 0
  IsClamped p =
      (p ≡ f.literal 1 0)
      ⊎ ((f.less (f.literal 1 0) p ≡ true)
          × ((p ≡ f.literal 100000 0) ⊎ (f.less (f.literal 100000 0) p ≡ false)))

  clamp_price-IsClamped : (p : ℕ) → IsClamped (clamp_price w p)
  unfolding clamp_price
  clamp_price-IsClamped p =
      if-elim (λ low. IsClamped (if f.less (f.literal 1 0) low then low else f.literal 1 0))
        (f.less (f.literal 100000 0) p)
        (λ t.
          if-elim IsClamped (f.less (f.literal 1 0) (f.literal 100000 0)) (λ a. inr (a, inl refl))
            (λ a. inl refl))
        (λ t. if-elim IsClamped (f.less (f.literal 1 0) p) (λ a. inr (a, inr t)) (λ a. inl refl))

  -- A step of the price of `s`: the new price is the clamped one, bid and ask are rounded to cents
  -- around it, and the rest is kept.
  pub record IsMoved (dt z : ℕ) (s s' : SymbolState) : Type 0 where
    pub moved : s'.price ≡ clamp_price w (moved_price w dt z s)
    pub bid_rounded : (x : ℕ) × (s'.bid_price ≡ round_cents w (f.sub s'.price x))
    pub ask_rounded : (x : ℕ) × (s'.ask_price ≡ round_cents w (f.add s'.price x))
    pub same_drift : s'.drift ≡ s.drift
    pub same_volatility : s'.volatility ≡ s.volatility
    pub same_bid_quantity : s'.bid_quantity ≡ s.bid_quantity
    pub same_ask_quantity : s'.ask_quantity ≡ s.ask_quantity
    pub same_trade : s'.last_trade_qty ≡ s.last_trade_qty

  -- With a random source of which one of the next rounds draws a positive number, a step of the
  -- price has a result: the price lies from 1 to 100000, whatever the arithmetic gives, bid and ask
  -- are rounded to cents below and above it, and drift, volatility and quantities are kept.
  pub update_price-IsMoved :
      (dt : ℕ) (s : SymbolState) (k : Noise)
      → IsReliable w
      → (z : ℕ) × (s' : SymbolState) × (k' : Noise) × (update_price w dt s k ≡ some (s', k'))
        × IsMoved dt z s s'
        × IsClamped s'.price
  unfolding update_price update_spread
  update_price-IsMoved dt s k h =
      let (r, e) = generate_normal-returns k h in
      (
        r.0,
        _,
        _,
        >>=-some _ e,
        record {
          moved = refl;
          bid_rounded = (_, refl);
          ask_rounded = (_, refl);
          same_drift = refl;
          same_volatility = refl;
          same_bid_quantity = refl;
          same_ask_quantity = refl;
          same_trade = refl;
        },
        clamp_price-IsClamped (moved_price w dt r.0 s),
      )

-- The two answers of `generate_tick_for_symbol`.
pub tick_for_inside :
    (w : Machine) (symbol_id now : ℕ) (g : TickGenerator) (s : SymbolState) (k : Noise)
    → symbol_id < g.num_symbols
    → update_price w g.dt (get_or g.symbols symbol_id empty_symbol) g.noise ≡ some (s, k)
    → generate_tick_for_symbol w symbol_id now g
      ≡ some (write_tick w symbol_id now s (record g { noise = k }))
unfolding generate_tick_for_symbol
tick_for_inside w symbol_id now g s k inside e = rw (gt→leb g.num_symbols symbol_id inside, e) refl

pub tick_for_outside :
    (w : Machine) (symbol_id now : ℕ) (g : TickGenerator)
    → g.num_symbols ≤ symbol_id
    → generate_tick_for_symbol w symbol_id now g ≡ some ([], g)
unfolding generate_tick_for_symbol
tick_for_outside w symbol_id now g outside = rw (le→leb g.num_symbols symbol_id outside) refl

-- A number of shares as the exchange quotes it.
abbrev pub IsLot : ℕ → Type 0
IsLot q = (100 ≤ q) × (q < 2 ^ 31)

pub change_quantity-IsLot : (w : Machine) (q c : ℕ) → IsLot (change_quantity w q c)
unfolding change_quantity
change_quantity-IsLot w q c = ground arith
