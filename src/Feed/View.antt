-- ===== src/Feed/View.antt =====
-- What the client knows of a symbol after a run of messages, said without a cache, a buffer or a
-- lock; and that the cache of src/client/feed_handler.cpp shows it.
use qode.Base.{
  ℕ, ◌<◌, ◌≡◌, refl, ap, ◌∙◌, List, [], ◌∷◌, map, ◌==◌, if◌then◌else◌, arith, ℕ_discrete, eq→==,
  ne→==, subst,
}
use mathlib.Core.Option
use mathlib.Core.Path.{fun_ext}
use qode.Base.Double.{Arithmetic}
use qode.Cache.{
  SymbolCache, MarketState, Store, apply_stores, update_with, update_trade, update_quote,
  trade_stores, quote_stores, get_snapshot,
}
use qode.Cache.Updates.{
  IsQuiet, update_with-IsQuiet, update_with_self, update_with_other, update_with-num_symbols,
  get_snapshot_quiet,
}
use qode.Cache.Messages.{after_trade, after_quote, trade_stores_lem, quote_stores_lem}
use qode.Parser.RoundTrip.{Message, trade_of, quote_of, heartbeat_of, event_of}
use qode.Feed.{World, Market, handle_event, handle_events}

-- A message in the view of symbol `j`.
abbrev pub seen : Arithmetic → ℕ → Message → MarketState → MarketState
seen f j (trade_of h p) s =
    if h.symbol_id == j then after_trade p.price p.quantity h.timestamp_ns s else s
seen f j (quote_of h p) s =
    if h.symbol_id == j
    then after_quote f p.bid_price p.bid_quantity p.ask_price p.ask_quantity h.timestamp_ns s
    else s
seen f j (heartbeat_of h) s = s

abbrev pub seen_all : Arithmetic → ℕ → List Message → MarketState → MarketState
seen_all f j [] s = s
seen_all f j (m ∷ ms) s = seen_all f j ms (seen f j m s)

-- The cache `c'` shows of symbol `j` what `c` did, changed by `g`.
pub record IsShown (j : ℕ) (g : MarketState → MarketState) (c c' : SymbolCache) : Type 0 where
  pub quiet : IsQuiet c'
  pub sized : c'.num_symbols ≡ c.num_symbols
  pub shows : get_snapshot c' j ≡ Option.map g (get_snapshot c j)

module _ (j : ℕ) (c : SymbolCache) (q : IsQuiet c) (inside : j < c.num_symbols) where
  unchanged : IsShown j (λ s. s) c c
  unchanged = record { quiet = q; sized = refl; shows = rw (get_snapshot_quiet c j q inside) refl }

  -- An update of symbol `i` whose assignments make `g` of a state.
  update-IsShown :
      (i : ℕ) (stores : MarketState → List Store) (g : MarketState → MarketState)
      → ((s : MarketState) → apply_stores (stores s) s ≡ g s)
      → IsShown j (λ s. if i == j then g s else s) c (update_with stores i c)
  update-IsShown i stores g same = record {
    quiet = update_with-IsQuiet stores i c q;
    sized = update_with-num_symbols stores i c q;
    shows = elim (ℕ_discrete i j) [
      | yes e ↦
          subst
            (λ n.
              get_snapshot (update_with stores i c) n
              ≡ Option.map (λ s. if i == n then g s else s) (get_snapshot c n))
            e
            (rw (eq→== i i refl) (
              update_with_self stores i c q (omega (arith, e))
              ∙ ap (λ k. Option.map k (get_snapshot c i)) (fun_ext same)))
      | no other ↦
          rw
            (
              ne→== i j other,
              update_with_other stores i c q j other,
              get_snapshot_quiet c j q inside,
            )
            refl
    ];
  }

IsShown-trans :
    (j : ℕ) (g h : MarketState → MarketState) {c c' c'' : SymbolCache}
    → IsShown j g c c'
    → IsShown j h c' c''
    → j < c.num_symbols
    → IsQuiet c
    → IsShown j (λ s. h (g s)) c c''
IsShown-trans j g h {c} a b inside q = record {
  quiet = b.quiet;
  sized = b.sized ∙ a.sized;
  shows = b.shows ∙ ap (Option.map h) a.shows ∙ rw (get_snapshot_quiet c j q inside) refl;
}

module _ (w : World) (j : ℕ) where
  handle_event-IsShown :
      (m : Message) (k : Market)
      → IsQuiet k.cache
      → j < k.cache.num_symbols
      → IsShown j (seen w.arithmetic j m) k.cache (handle_event w (event_of m) k).cache
  unfolding handle_event update_trade update_quote
  handle_event-IsShown (trade_of h p) k q inside =
      update-IsShown j k.cache q inside h.symbol_id (trade_stores p.price p.quantity h.timestamp_ns)
        _ (trade_stores_lem p.price p.quantity h.timestamp_ns)
  handle_event-IsShown (quote_of h p) k q inside =
      update-IsShown j k.cache q inside h.symbol_id
        (quote_stores w.arithmetic p.bid_price p.bid_quantity p.ask_price p.ask_quantity
          h.timestamp_ns)
        _
        (quote_stores_lem w.arithmetic p.bid_price p.bid_quantity p.ask_price p.ask_quantity
          h.timestamp_ns)
  handle_event-IsShown (heartbeat_of h) k q inside = unchanged j k.cache q inside

  pub handle_events-IsShown :
      (ms : List Message) (k : Market)
      → IsQuiet k.cache
      → j < k.cache.num_symbols
      → IsShown j (seen_all w.arithmetic j ms) k.cache (handle_events w (map event_of ms) k).cache
  unfolding handle_events
  handle_events-IsShown [] k q inside = unchanged j k.cache q inside
  handle_events-IsShown (m ∷ ms) k q inside =
      let a = handle_event-IsShown m k q inside in
      let b =
        handle_events-IsShown ms (handle_event w (event_of m) k) a.quiet (omega (arith, a.sized)) in
      IsShown-trans j (seen w.arithmetic j m) (seen_all w.arithmetic j ms) a b inside q
