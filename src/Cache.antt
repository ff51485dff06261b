-- ===== src/Cache.antt =====
-- include/cache.h and src/common/cache.cpp: the market state of each symbol behind a sequence lock.
-- Here a call runs alone, as the writer thread sees it; `Cache/Seqlock` interleaves it with a
-- reader.
pub mod Updates
pub mod Messages
pub mod Seqlock
pub mod Ranking
pub mod Sorted
pub mod Top
use qode.Base.{
  ℕ, zero, suc, ◌+◌, ◌%◌, List, [], ◌∷◌, ◌++◌, Bool, true, false, Option, none, some, get_or, set,
  replicate, ltb, leb, ◌==◌, if◌then◌else◌, add64, u64, min,
}
use qode.Base.Double.{Arithmetic, is_zero}
use qode.Protocol.{max_symbols}

pub record MarketState : Type 0 where
  pub best_bid : ℕ
  pub best_ask : ℕ
  pub bid_quantity : ℕ
  pub ask_quantity : ℕ
  pub last_traded_price : ℕ
  pub last_traded_quantity : ℕ
  pub last_update_time : ℕ
  pub update_count : ℕ
  pub opening_price : ℕ

-- `MarketState{}`.
abbrev pub empty_state : MarketState
empty_state = record {
  best_bid = 0;
  best_ask = 0;
  bid_quantity = 0;
  ask_quantity = 0;
  last_traded_price = 0;
  last_traded_quantity = 0;
  last_update_time = 0;
  update_count = 0;
  opening_price = 0;
}

pub record SymbolEntry : Type 0 where
  pub sequence : ℕ
  pub state : MarketState

pub record SymbolCache : Type 0 where
  pub num_symbols : ℕ
  pub entries : List SymbolEntry

abbrev pub empty_entry : SymbolEntry
empty_entry = record { sequence = 0; state = empty_state }

unfoldable pub reset : SymbolCache → SymbolCache
reset c = record c { entries = replicate max_symbols empty_entry }

unfoldable pub new_cache : ℕ → SymbolCache
unfolding reset
new_cache num_symbols = reset (record { num_symbols = min num_symbols max_symbols; entries = [] })

-- One assignment to a field of the shared state.
pub data Store : Type 0 where
  put_best_bid put_best_ask put_bid_quantity put_ask_quantity : ℕ → Store
  put_last_price put_last_quantity put_time put_count put_opening : ℕ → Store

unfoldable pub apply_store : Store → MarketState → MarketState
apply_store (put_best_bid v) s = record s { best_bid = v }
apply_store (put_best_ask v) s = record s { best_ask = v }
apply_store (put_bid_quantity v) s = record s { bid_quantity = v }
apply_store (put_ask_quantity v) s = record s { ask_quantity = v }
apply_store (put_last_price v) s = record s { last_traded_price = v }
apply_store (put_last_quantity v) s = record s { last_traded_quantity = v }
apply_store (put_time v) s = record s { last_update_time = v }
apply_store (put_count v) s = record s { update_count = v }
apply_store (put_opening v) s = record s { opening_price = v }

unfoldable pub apply_stores : List Store → MarketState → MarketState
unfolding apply_store
apply_stores [] s = s
apply_stores (st ∷ sts) s = apply_stores sts (apply_store st s)

-- `if (state.opening_price == 0.0) state.opening_price = price`.
abbrev pub open_at : ℕ → MarketState → List Store
open_at price s = if is_zero s.opening_price then put_opening price ∷ [] else []

-- The assignments of the four update functions to a state `s`, in their order.
module _ (f : Arithmetic) where
  unfoldable pub quote_stores : ℕ → ℕ → ℕ → ℕ → ℕ → MarketState → List Store
  quote_stores bid_price bid_qty ask_price ask_qty timestamp s =
      put_best_bid bid_price
      ∷ put_bid_quantity bid_qty
      ∷ put_best_ask ask_price
      ∷ put_ask_quantity ask_qty
      ∷ put_time timestamp
      ∷ put_count (add64 s.update_count 1)
      ∷ open_at (f.div (f.add bid_price ask_price) (f.literal 2 0)) s

unfoldable pub trade_stores : ℕ → ℕ → ℕ → MarketState → List Store
trade_stores price quantity timestamp s =
    put_last_price price
    ∷ put_last_quantity quantity
    ∷ put_time timestamp
    ∷ put_count (add64 s.update_count 1)
    ∷ open_at price s

unfoldable pub bid_stores : ℕ → ℕ → ℕ → MarketState → List Store
bid_stores price quantity timestamp s =
    put_best_bid price
    ∷ put_bid_quantity quantity
    ∷ put_time timestamp
    ∷ put_count (add64 s.update_count 1)
    ∷ []

unfoldable pub ask_stores : ℕ → ℕ → ℕ → MarketState → List Store
ask_stores price quantity timestamp s =
    put_best_ask price
    ∷ put_ask_quantity quantity
    ∷ put_time timestamp
    ∷ put_count (add64 s.update_count 1)
    ∷ []

abbrev pub entry_at : SymbolCache → ℕ → SymbolEntry
entry_at c symbol_id = get_or c.entries symbol_id empty_entry

unfoldable pub begin_write : ℕ → SymbolCache → SymbolCache
begin_write symbol_id c =
    if leb c.num_symbols symbol_id
    then c
    else let e = entry_at c symbol_id in
      record c { entries = set c.entries symbol_id (record e { sequence = add64 e.sequence 1 }) }

unfoldable pub end_write : ℕ → SymbolCache → SymbolCache
end_write symbol_id c =
    if leb c.num_symbols symbol_id
    then c
    else let e = entry_at c symbol_id in
      record c { entries = set c.entries symbol_id (record e { sequence = add64 e.sequence 1 }) }

-- The assignments between `begin_write` and `end_write`.
unfoldable pub write_fields : ℕ → (MarketState → List Store) → SymbolCache → SymbolCache
unfolding apply_stores
write_fields symbol_id stores c =
    let e = entry_at c symbol_id in
    record c {
      entries =
          set c.entries symbol_id (record e { state = apply_stores (stores e.state) e.state });
    }

-- The common frame of the update functions.
unfoldable pub update_with : (MarketState → List Store) → ℕ → SymbolCache → SymbolCache
unfolding begin_write end_write write_fields
update_with stores symbol_id c =
    if leb c.num_symbols symbol_id
    then c
    else end_write symbol_id (write_fields symbol_id stores (begin_write symbol_id c))

unfoldable pub update_quote : Arithmetic → ℕ → ℕ → ℕ → ℕ → ℕ → ℕ → SymbolCache → SymbolCache
unfolding update_with quote_stores
update_quote f symbol_id bid_price bid_qty ask_price ask_qty timestamp =
    update_with (quote_stores f bid_price bid_qty ask_price ask_qty timestamp) symbol_id

unfoldable pub update_trade : ℕ → ℕ → ℕ → ℕ → SymbolCache → SymbolCache
unfolding update_with trade_stores
update_trade symbol_id price quantity timestamp =
    update_with (trade_stores price quantity timestamp) symbol_id

unfoldable pub update_bid : ℕ → ℕ → ℕ → ℕ → SymbolCache → SymbolCache
unfolding update_with bid_stores
update_bid symbol_id price quantity timestamp =
    update_with (bid_stores price quantity timestamp) symbol_id

unfoldable pub update_ask : ℕ → ℕ → ℕ → ℕ → SymbolCache → SymbolCache
unfolding update_with ask_stores
update_ask symbol_id price quantity timestamp =
    update_with (ask_stores price quantity timestamp) symbol_id

-- A read while nobody writes; `none` is a read that spins for ever on an odd sequence.
unfoldable pub get_snapshot : SymbolCache → ℕ → Option MarketState
get_snapshot c symbol_id =
    if leb c.num_symbols symbol_id
    then some empty_state
    else if (entry_at c symbol_id).sequence % 2 == 1
    then none
    else some (entry_at c symbol_id).state

-- `for (i = 0; i < num_symbols_; ++i) total += get_snapshot(i).update_count`, from index `i` on.
unfoldable pub total_from : SymbolCache → ℕ → ℕ → ℕ → Option ℕ
unfolding get_snapshot
total_from c zero i total = some total
total_from c (suc left) i total = elim (get_snapshot c i) [
  | none ↦ none
  | some s ↦ total_from c left (i + 1) (add64 total s.update_count)
]

unfoldable pub get_total_updates : SymbolCache → Option ℕ
unfolding total_from
get_total_updates c = total_from c c.num_symbols 0 0
