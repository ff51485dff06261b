-- ===== src/Examples/Market.antt =====
-- The cache, its lock and the latency statistics after an update and two samples.
use qode.Base.{
  ℕ, zero, suc, ◌+◌, ◌%◌, ◌≤◌, ◌<◌, ◌≡◌, ◌≢◌, refl, List, [], ◌∷◌, Bool, true, false, map, arith,
  subst,
}
use mathlib.Core.Option
use qode.Cache.{
  entry_at, MarketState, SymbolCache, put_best_bid, empty_state, empty_entry, update_trade,
  update_quote, get_snapshot, apply_store,
}
use qode.Cache.Updates.{IsQuiet}
use qode.Cache.Messages.{after_trade, after_quote, update_trade_lem, update_quote_lem}
use qode.Cache.Seqlock.{
  System, outside, copying, Reach, start, here, next, begin, store, finish, load, copy, copy_field,
  bump, aged,
}
use qode.Cache.Seqlock.Consistency.{accepted-eq-published}
use qode.Latency.{uint64_max, reset_tracker, percentile_at}
use qode.Latency.Samples.{IsSummary, record_all}
use qode.Latency.Race.{
  advance, advance_at, race, enter, count_sample, Call, loading_max, lowering, finished,
  AllFinished, none_left, one_more,
}
use qode.Latency.Race.Outcome.{race-IsSummary}
use qode.Latency.Race.Progress.{alone, race-finishes}
use qode.Examples.{whole_arithmetic}
use qode.Latency.Percentile.{IsPercentile, percentile_at-IsPercentile}

abbrev two_symbols : SymbolCache
two_symbols = record { num_symbols = 2; entries = empty_entry ∷ empty_entry ∷ [] }

two_symbols-IsQuiet : IsQuiet two_symbols
two_symbols-IsQuiet = record { fits = omega arith; even = go }
  where
    go : (i : ℕ) → i < 2 → (entry_at two_symbols i).sequence % 2 ≡ 0
    go zero h = refl
    go (suc zero) h = refl
    go (suc (suc i)) h = absurd (omega arith)

update_trade_lem_example :
    let c = update_trade 1 100 5 1000 two_symbols in
    IsQuiet c
    × (get_snapshot c 1 ≡ Option.map (after_trade 100 5 1000) (get_snapshot two_symbols 1))
    × ((j : ℕ) → 1 ≢ j → get_snapshot c j ≡ get_snapshot two_symbols j)
update_trade_lem_example =
    update_trade_lem 1 100 5 1000 two_symbols two_symbols-IsQuiet (omega arith)

update_quote_lem_example :
    let c = update_quote whole_arithmetic 1 99 5 101 6 1000 two_symbols in
    IsQuiet c
    × (get_snapshot c 1
        ≡ Option.map (after_quote whole_arithmetic 99 5 101 6 1000) (get_snapshot two_symbols 1))
    × ((j : ℕ) → 1 ≢ j → get_snapshot c j ≡ get_snapshot two_symbols j)
update_quote_lem_example =
    update_quote_lem whole_arithmetic 1 99 5 101 6 1000 two_symbols two_symbols-IsQuiet
      (omega arith)

-- One update has ended, and the reader has copied `k` fields.
abbrev bid_state : MarketState
bid_state = record empty_state { best_bid = 5 }

abbrev reading : ℕ → MarketState → System
reading k snapshot = record {
  entry = record { sequence = 2; state = bid_state };
  writer = outside;
  reader = copying 2 0 k snapshot;
  published = bid_state;
}

copied : ℕ → MarketState → MarketState
copied zero snapshot = snapshot
copied (suc k) snapshot = copy_field k bid_state (copied k snapshot)

reading-Reach : Reach (reading 0 empty_state)
unfolding bump aged apply_store
reading-Reach =
    next
      (next
        (next (next here (begin start (put_best_bid 5 ∷ []) refl))
          (store _ (put_best_bid 5) [] refl))
        (finish _ refl))
      (load _ empty_state refl (λ e. omega arith))

copied-Reach : (k : ℕ) → k ≤ 9 → Reach (reading k (copied k empty_state))
unfolding copied
copied-Reach zero h = reading-Reach
copied-Reach (suc k) h =
    subst (λ n. Reach (reading n (copy_field k bid_state (copied k empty_state))))
      (let e : k + 1 ≡ suc k = omega arith in e)
      (next (copied-Reach k (omega arith))
        (copy (reading k (copied k empty_state)) 2 0 k (copied k empty_state) refl (omega arith)))

accepted-eq-published_example : (copied 9 empty_state ≡ bid_state) × (outside ≡ outside)
accepted-eq-published_example =
    accepted-eq-published 2 0 (copied 9 empty_state) (copied-Reach 9 (omega arith)) refl refl
      (omega arith)

abbrev samples : List ℕ
samples = 1500 ∷ 20 ∷ []

-- Both calls load the minimum, the first one fails for no reason and then succeeds, and the second
-- one fails because of it.
abbrev turns : List (ℕ × Bool)
turns =
    (0, false)
    ∷ (0, false)
    ∷ (0, false)
    ∷ (1, false)
    ∷ (1, false)
    ∷ (1, false)
    ∷ (0, true)
    ∷ (0, false)
    ∷ (1, false)
    ∷ (1, false)
    ∷ (0, false)
    ∷ (0, false)
    ∷ (1, false)
    ∷ (1, false)
    ∷ (1, false)
    ∷ (0, false)
    ∷ (1, false)
    ∷ (0, false)
    ∷ (0, false)
    ∷ (1, false)
    ∷ []

two_calls : AllFinished (race turns (map enter samples) reset_tracker).0
unfolding race advance_at advance enter reset_tracker count_sample
two_calls = one_more (one_more none_left)

race-IsSummary_example : IsSummary samples (race turns (map enter samples) reset_tracker).1
race-IsSummary_example = race-IsSummary samples turns two_calls

-- The second call expects a minimum that the first one has lowered since.
abbrev first_call : Call
first_call = record { sample = 1500; phase = loading_max }

abbrev second_call : Call
second_call = record { sample = 20; phase = lowering uint64_max }

race-finishes_example :
    (race (alone 1 9) (first_call ∷ second_call ∷ []) (record reset_tracker { min = 1500 })).0
    ≡ first_call ∷ record second_call { phase = finished } ∷ []
race-finishes_example =
    race-finishes (first_call ∷ []) [] second_call (record reset_tracker { min = 1500 })

percentile_at-IsPercentile_example : IsPercentile 1 samples (percentile_at 1 (record_all samples))
percentile_at-IsPercentile_example = percentile_at-IsPercentile 1 samples (omega arith)
