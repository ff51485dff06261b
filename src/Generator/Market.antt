-- ===== src/Generator/Market.antt =====
-- src/server/tick_generator.cpp: the state of the symbols, and what each operation makes of it.
use qode.Base.{
  ℕ, zero, suc, ◌+◌, ◌<◌, ◌≡◌, refl, sym, ap, ◌∙◌, subst, List, [], ◌∷◌, map, some, length, get_or,
  set, length-set, get_or-set_self, get_or-set_ne, dec_lt, >>=-some, ℕ_discrete, if-elim, arith,
  u16, u32,
}
use qode.Generator.{
  SymbolState, MarketCondition, Noise, Machine, TickGenerator, draw, write_tick, generate_trade,
  generate_quote, generate_tick_for_symbol, generate_tick, empty_symbol, set_market_condition,
  drift_of, reset, reset_symbols, reset_symbol, update_spread,
}
use qode.Generator.Price.{
  tick_for_inside, tick_for_outside, IsReliable, IsClamped, IsLot, IsMoved, update_price-IsMoved,
  change_quantity-IsLot,
}

-- A symbol as the exchange may quote it, with the drift `d`.
pub record IsSymbol (w : Machine) (d : ℕ) (s : SymbolState) : Type 0 where
  pub clamped : IsClamped w s.price
  pub bid_lot : IsLot s.bid_quantity
  pub ask_lot : IsLot s.ask_quantity
  pub drifts : s.drift ≡ d

-- All symbols are such.
pub record IsMarket (w : Machine) (d : ℕ) (g : TickGenerator) : Type 0 where
  pub sized : length g.symbols ≡ g.num_symbols
  pub each : (i : ℕ) → i < length g.symbols → IsSymbol w d (get_or g.symbols i empty_symbol)

-- The distributions of `reset` draw prices and quantities within their bounds.
abbrev pub HasInitial : Machine → Type 0
HasInitial w = (n : ℕ) → IsClamped w (w.initial_price n) × IsLot (w.initial_quantity n)

module _ (w : Machine) (d : ℕ) where
  set-each :
      (xs : List SymbolState) (i : ℕ) (s : SymbolState)
      → IsSymbol w d s
      → ((j : ℕ) → j < length xs → IsSymbol w d (get_or xs j empty_symbol))
      → (j : ℕ) → j < length (set xs i s)
      → IsSymbol w d (get_or (set xs i s) j empty_symbol)
  set-each xs i s v each j l =
      let l' : j < length xs = omega (arith, length-set xs i s) in
      elim (ℕ_discrete i j) [
        | yes e ↦
            subst (λ n. IsSymbol w d (get_or (set xs i s) n empty_symbol)) e
              (subst (IsSymbol w d) (sym (get_or-set_self xs i s empty_symbol (omega arith))) v)
        | no other ↦
            subst (IsSymbol w d) (sym (get_or-set_ne xs i j s empty_symbol other)) (each j l')
      ]

  write_tick-IsMarket :
      (symbol_id now : ℕ) (s : SymbolState) (g : TickGenerator)
      → IsSymbol w d s
      → IsMarket w d g
      → IsMarket w d (write_tick w symbol_id now s g).1
  unfolding write_tick generate_trade generate_quote
  write_tick-IsMarket symbol_id now s g v m =
      let (u, k) = draw w.uniform g.noise in
      let keeps : (s' : SymbolState) (k' : Noise)
          → IsSymbol w d s'
          → IsMarket w d (record g {
            sequence = u32 (g.sequence + 1);
            symbols = set g.symbols symbol_id s';
            noise = k';
          }) =
        λ s' k' v'. record {
          sized = length-set g.symbols symbol_id s' ∙ m.sized;
          each = set-each g.symbols symbol_id s' v' m.each;
        } in
      if-elim
        (λ (r : List ℕ × SymbolState × Noise). IsMarket w d (record g {
          sequence = u32 (g.sequence + 1);
          symbols = set g.symbols symbol_id r.1;
          noise = r.2;
        }))
        (w.arithmetic.less u (w.arithmetic.literal 3 1))
        (λ t. keeps _ _ (record {
          clamped = v.clamped;
          bid_lot = v.bid_lot;
          ask_lot = v.ask_lot;
          drifts = v.drifts;
        }))
        (λ t. keeps _ _ (record {
          clamped = v.clamped;
          bid_lot = change_quantity-IsLot w s.bid_quantity _;
          ask_lot = change_quantity-IsLot w s.ask_quantity _;
          drifts = v.drifts;
        }))

  moved-IsSymbol :
      (dt z : ℕ) (s s' : SymbolState)
      → IsMoved w dt z s s'
      → IsClamped w s'.price
      → IsSymbol w d s
      → IsSymbol w d s'
  moved-IsSymbol dt z s s' m c v = record {
    clamped = c;
    bid_lot = subst IsLot (sym m.same_bid_quantity) v.bid_lot;
    ask_lot = subst IsLot (sym m.same_ask_quantity) v.ask_lot;
    drifts = m.same_drift ∙ v.drifts;
  }

  -- Both answers of `generate_tick_for_symbol`.
  pub generate_tick_for_symbol-IsMarket :
      (symbol_id now : ℕ) (g : TickGenerator)
      → IsReliable w
      → IsMarket w d g
      → (bytes : List ℕ) × (g' : TickGenerator) × (generate_tick_for_symbol w symbol_id now g
          ≡ some (bytes, g'))
        × IsMarket w d g'
  generate_tick_for_symbol-IsMarket symbol_id now g rel m = elim (dec_lt symbol_id g.num_symbols) [
    | no outside ↦ ([], g, tick_for_outside w symbol_id now g (omega arith), m)
    | yes inside ↦
        let s0 = get_or g.symbols symbol_id empty_symbol in
        let (z, s, k, e, moved, c) = update_price-IsMoved w g.dt s0 g.noise rel in
        let v = moved-IsSymbol g.dt z s0 s moved c (m.each symbol_id (omega (arith, m.sized))) in
        (
          _,
          _,
          tick_for_inside w symbol_id now g s k inside e,
          write_tick-IsMarket symbol_id now s (record g { noise = k }) v
              (record { sized = m.sized; each = m.each }),
        )
  ]

  pub generate_tick-IsMarket :
      (now : ℕ) (g : TickGenerator)
      → IsReliable w
      → IsMarket w d g
      → (symbol_id : ℕ) × (bytes : List ℕ) × (g' : TickGenerator) × (generate_tick w now g
          ≡ some (symbol_id, bytes, g'))
        × IsMarket w d g'
  unfolding generate_tick
  generate_tick-IsMarket now g rel m =
      let (id, k) = draw (w.any_symbol (u16 (g.num_symbols + 65535))) g.noise in
      let (bytes, g', e, m') =
        generate_tick_for_symbol-IsMarket id now (record g { noise = k }) rel
          (record { sized = m.sized; each = m.each }) in
      (id, bytes, g', >>=-some _ e, m')

pub set_market_condition-IsMarket :
    (w : Machine) (d : ℕ) (condition : MarketCondition) (g : TickGenerator)
    → IsMarket w d g
    → IsMarket w (drift_of w condition) (set_market_condition w condition g)
unfolding set_market_condition
set_market_condition-IsMarket w d condition g m = record {
  sized = length-map_drift g.symbols ∙ m.sized;
  each = mapped g.symbols m.each;
}
  where
    d' : ℕ
    d' = drift_of w condition

    put : SymbolState → SymbolState
    put s = record s { drift = d' }

    length-map_drift : (xs : List SymbolState) → length (map put xs) ≡ length xs
    length-map_drift [] = refl
    length-map_drift (x ∷ xs) = ap suc (length-map_drift xs)

    mapped :
        (xs : List SymbolState)
        → ((i : ℕ) → i < length xs → IsSymbol w d (get_or xs i empty_symbol))
        → (i : ℕ) → i < length (map put xs)
        → IsSymbol w d' (get_or (map put xs) i empty_symbol)
    mapped [] each i l = absurd (omega arith)
    mapped (x ∷ xs) each zero l =
        let v = each 0 (omega arith) in
        record { clamped = v.clamped; bid_lot = v.bid_lot; ask_lot = v.ask_lot; drifts = refl }
    mapped (x ∷ xs) each (suc i) l = mapped xs (λ j k. each (suc j) (omega arith)) i (omega arith)

module _ (w : Machine) (h : HasInitial w) where
  abbrev level : ℕ
  level = w.arithmetic.literal 0 0

  reset_symbol-IsSymbol : (s : SymbolState) (k : Noise) → IsSymbol w level (reset_symbol w s k).0
  unfolding reset_symbol update_spread
  reset_symbol-IsSymbol s k = record {
    clamped = (h _).0;
    bid_lot = (h _).1;
    ask_lot = (h _).1;
    drifts = refl;
  }

  length-reset_symbols :
      (xs : List SymbolState) (k : Noise) → length (reset_symbols w xs k).0 ≡ length xs
  unfolding reset_symbols
  length-reset_symbols [] k = refl
  length-reset_symbols (x ∷ xs) k = ap suc (length-reset_symbols xs (reset_symbol w x k).1)

  reset_symbols-each :
      (xs : List SymbolState) (k : Noise) (i : ℕ)
      → i < length (reset_symbols w xs k).0
      → IsSymbol w level (get_or (reset_symbols w xs k).0 i empty_symbol)
  unfolding reset_symbols
  reset_symbols-each [] k i l = absurd (omega arith)
  reset_symbols-each (x ∷ xs) k zero l = reset_symbol-IsSymbol x k
  reset_symbols-each (x ∷ xs) k (suc i) l =
      reset_symbols-each xs (reset_symbol w x k).1 i (omega arith)

  pub reset-IsMarket :
      (g : TickGenerator) → length g.symbols ≡ g.num_symbols → IsMarket w level (reset w g)
  unfolding reset
  reset-IsMarket g e = record {
    sized = length-reset_symbols g.symbols g.noise ∙ e;
    each = reset_symbols-each g.symbols g.noise;
  }
