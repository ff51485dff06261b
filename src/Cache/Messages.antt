-- ===== src/Cache/Messages.antt =====
-- src/common/cache.cpp: what `update_trade` and `update_quote` make of the state of a symbol.
use qode.Base.{ℕ, ◌<◌, ◌≡◌, ◌≢◌, ap, ◌∙◌, arith, add64, if◌then◌else◌}
use mathlib.Core.Option
use mathlib.Core.Path.{fun_ext}
use qode.Base.Double.{Arithmetic, is_zero}
use qode.Cache.{
  MarketState, SymbolCache, apply_stores, update_quote, update_trade, quote_stores, trade_stores,
  get_snapshot,
}
use qode.Cache.Updates.{IsQuiet, update_with-IsQuiet, update_with_other, update_with_self}

-- A trade as a whole.
abbrev pub after_trade : ℕ → ℕ → ℕ → MarketState → MarketState
after_trade price quantity timestamp s = record s {
  last_traded_price = price;
  last_traded_quantity = quantity;
  last_update_time = timestamp;
  update_count = add64 s.update_count 1;
  opening_price = if is_zero s.opening_price then price else s.opening_price;
}

-- A quote as a whole.
abbrev pub after_quote : Arithmetic → ℕ → ℕ → ℕ → ℕ → ℕ → MarketState → MarketState
after_quote f bid_price bid_qty ask_price ask_qty timestamp s = record s {
  best_bid = bid_price;
  best_ask = ask_price;
  bid_quantity = bid_qty;
  ask_quantity = ask_qty;
  last_update_time = timestamp;
  update_count = add64 s.update_count 1;
  opening_price =
      if is_zero s.opening_price
      then f.div (f.add bid_price ask_price) (f.literal 2 0)
      else s.opening_price;
}

pub trade_stores_lem :
    (price quantity timestamp : ℕ) (s : MarketState)
    → apply_stores (trade_stores price quantity timestamp s) s
      ≡ after_trade price quantity timestamp s
unfolding apply_stores trade_stores
trade_stores_lem price quantity timestamp s = ground arith

pub quote_stores_lem :
    (f : Arithmetic) (bid_price bid_qty ask_price ask_qty timestamp : ℕ) (s : MarketState)
    → apply_stores (quote_stores f bid_price bid_qty ask_price ask_qty timestamp s) s
      ≡ after_quote f bid_price bid_qty ask_price ask_qty timestamp s
unfolding apply_stores quote_stores
quote_stores_lem f bid_price bid_qty ask_price ask_qty timestamp s = ground arith

-- After `update_trade` on a symbol of the cache, where no update is going on, its snapshot is the
-- old one with the trade in it, the opening price set by the first price only; every other symbol's
-- snapshot is as before, and the lock is free again.
pub update_trade_lem :
    (i price quantity timestamp : ℕ) (c : SymbolCache)
    → IsQuiet c
    → i < c.num_symbols
    → let c' = update_trade i price quantity timestamp c in
      IsQuiet c'
      × (get_snapshot c' i ≡ Option.map (after_trade price quantity timestamp) (get_snapshot c i))
      × ((j : ℕ) → i ≢ j → get_snapshot c' j ≡ get_snapshot c j)
unfolding update_trade
update_trade_lem i price quantity timestamp c q h =
    let stores = trade_stores price quantity timestamp in
    (
      update_with-IsQuiet stores i c q,
      update_with_self stores i c q h
          ∙ ap (λ g. Option.map g (get_snapshot c i))
              (fun_ext (trade_stores_lem price quantity timestamp)),
      update_with_other stores i c q,
    )

-- After `update_quote` on a symbol of the cache, where no update is going on, its snapshot is the
-- old one with the quote in it, the opening price set to the middle of bid and ask by the first
-- price only; every other symbol's snapshot is as before, and the lock is free again.
pub update_quote_lem :
    (f : Arithmetic) (i bid_price bid_qty ask_price ask_qty timestamp : ℕ) (c : SymbolCache)
    → IsQuiet c
    → i < c.num_symbols
    → let c' = update_quote f i bid_price bid_qty ask_price ask_qty timestamp c in
      IsQuiet c'
      × (get_snapshot c' i
          ≡ Option.map
              (after_quote f bid_price bid_qty ask_price ask_qty timestamp)
              (get_snapshot c i))
      × ((j : ℕ) → i ≢ j → get_snapshot c' j ≡ get_snapshot c j)
unfolding update_quote
update_quote_lem f i bid_price bid_qty ask_price ask_qty timestamp c q h =
    let stores = quote_stores f bid_price bid_qty ask_price ask_qty timestamp in
    (
      update_with-IsQuiet stores i c q,
      update_with_self stores i c q h
          ∙ ap (λ g. Option.map g (get_snapshot c i))
              (fun_ext (quote_stores_lem f bid_price bid_qty ask_price ask_qty timestamp)),
      update_with_other stores i c q,
    )
