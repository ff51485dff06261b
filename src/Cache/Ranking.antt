-- ===== src/Cache/Ranking.antt =====
-- src/common/cache.cpp: `get_top_symbols`, the symbols with the most updates.
use qode.Base.{
  ℕ, zero, suc, ◌+◌, ◌-◌, Bool, ◌&&◌, ◌||◌, Option, some, List, [], ◌∷◌, ◌++◌, ltb, ◌==◌,
  if◌then◌else◌, take, replicate, length, ◌>>=◌,
}
use qode.Cache.{SymbolCache, MarketState, empty_state, get_snapshot}

-- `std::greater` on the pairs of an update count and a symbol.
unfoldable pub greater : ℕ × ℕ → ℕ × ℕ → Bool
greater a b = ltb b.0 a.0 || (b.0 == a.0 && ltb b.1 a.1)

-- The symbols that were updated, from `i` on with `left` to come.
unfoldable pub collect : SymbolCache → ℕ → ℕ → Option (List (ℕ × ℕ))
unfolding get_snapshot
collect c zero i = some []
collect c (suc left) i = get_snapshot c i >>= λ s. collect c left (i + 1) >>= λ symbols.
    some (if ltb 0 s.update_count then (s.update_count, i) ∷ symbols else symbols)

-- A sort by `greater`; `partial_sort` makes the beginning of it.
unfoldable pub insert_ranked : ℕ × ℕ → List (ℕ × ℕ) → List (ℕ × ℕ)
unfolding greater
insert_ranked a [] = a ∷ []
insert_ranked a (b ∷ bs) =
    let rest = insert_ranked a bs in if greater a b then a ∷ b ∷ bs else b ∷ rest

unfoldable pub sort_ranked : List (ℕ × ℕ) → List (ℕ × ℕ)
unfolding insert_ranked
sort_ranked [] = []
sort_ranked (a ∷ as') = insert_ranked a (sort_ranked as')

-- The loop that fills the output.
unfoldable pub fill : SymbolCache → List (ℕ × ℕ) → Option (List (ℕ × MarketState))
unfolding get_snapshot
fill c [] = some []
fill c (a ∷ as') = get_snapshot c a.1 >>= λ s. fill c as' >>= λ rows. some ((a.1, s) ∷ rows)

-- `out_ids[i] = 0; out_states[i] = MarketState{}`.
abbrev pub empty_row : ℕ × MarketState
empty_row = (0, empty_state)

-- The two output arrays as one list of `count` rows; `none` is a read that spins for ever.
unfoldable pub get_top_symbols : ℕ → SymbolCache → Option (List (ℕ × MarketState))
unfolding collect sort_ranked fill
get_top_symbols count c = collect c c.num_symbols 0 >>= λ symbols.
    fill c (take count (sort_ranked symbols)) >>= λ rows.
    some (rows ++ replicate (count - length rows) empty_row)
