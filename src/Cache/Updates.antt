-- ===== src/Cache/Updates.antt =====
-- What the update functions of src/common/cache.cpp leave behind, for every symbol.
use qode.Base.{
  ℕ, ◌%◌, ◌≤◌, ◌<◌, ◌≡◌, ◌≢◌, sym, ap, ◌∙◌, List, arith, add64, add64_assoc, length, set,
  get_or-set_self, get_or-set_ne, get_or-replicate, length-replicate, set-set, length-set, leb,
  gt→leb, le→leb, if◌then◌else◌, some, none, dec_lt, ℕ_discrete, subst, ◌==◌,
}
use mathlib.Core.Option
use qode.Cache.{
  MarketState, SymbolEntry, SymbolCache, Store, apply_stores, entry_at, begin_write, end_write,
  write_fields, update_with, empty_entry, empty_state, get_snapshot, new_cache,
}
use qode.Protocol.{max_symbols}

-- No more symbols than entries, and no update is going on.
pub record IsQuiet (c : SymbolCache) : Type 0 where
  pub fits : c.num_symbols ≤ length c.entries
  pub even : (i : ℕ) → i < c.num_symbols → (entry_at c i).sequence % 2 ≡ 0

-- A new cache is quiet, and its states are empty.
entry_at-new_cache : (n i : ℕ) → entry_at (new_cache n) i ≡ empty_entry
unfolding new_cache
entry_at-new_cache n i = get_or-replicate max_symbols i empty_entry

pub new_cache-IsQuiet : (n : ℕ) → IsQuiet (new_cache n)
new_cache-IsQuiet n = record {
  fits = unfold new_cache in omega (arith, length-replicate max_symbols empty_entry);
  even = λ i h. ap (λ e. e.sequence % 2) (entry_at-new_cache n i);
}

-- The entry after an update of it: the sequence is two further, the assignments are made.
abbrev pub updated : (MarketState → List Store) → SymbolEntry → SymbolEntry
updated stores e = record {
  sequence = add64 e.sequence 2;
  state = apply_stores (stores e.state) e.state;
}

abbrev put : SymbolCache → ℕ → SymbolEntry → SymbolCache
put c i e = record c { entries = set c.entries i e }

module _ (c : SymbolCache) (i : ℕ) (h : i < c.num_symbols)
    (k : c.num_symbols ≤ length c.entries) where
  entry_at-put : (e : SymbolEntry) → entry_at (put c i e) i ≡ e
  entry_at-put e = get_or-set_self c.entries i e empty_entry (omega arith)

  put-put : (e e' : SymbolEntry) → put (put c i e) i e' ≡ put c i e'
  put-put e e' = ap (λ es. record c { entries = es }) (set-set c.entries i e e')

module _ (c : SymbolCache) (i : ℕ) (h : i < c.num_symbols) where
  begin_write_lem :
      begin_write i c
      ≡ put c i (record (entry_at c i) { sequence = add64 (entry_at c i).sequence 1 })
  unfolding begin_write
  begin_write_lem = rw (gt→leb c.num_symbols i h)

  end_write_lem :
      end_write i c ≡ put c i (record (entry_at c i) { sequence = add64 (entry_at c i).sequence 1 })
  unfolding end_write
  end_write_lem = rw (gt→leb c.num_symbols i h)

  update_with_enters :
      (stores : MarketState → List Store)
      → update_with stores i c ≡ end_write i (write_fields i stores (begin_write i c))
  unfolding update_with
  update_with_enters stores = rw (gt→leb c.num_symbols i h)

module _ (stores : MarketState → List Store) (i : ℕ) (c : SymbolCache) where
  update_with_lem :
      i < c.num_symbols
      → c.num_symbols ≤ length c.entries
      → update_with stores i c ≡ put c i (updated stores (entry_at c i))
  update_with_lem h k =
      let e = entry_at c i in
      let e1 : SymbolEntry = record e { sequence = add64 e.sequence 1 } in
      let e2 : SymbolEntry = record e1 { state = apply_stores (stores e.state) e.state } in
      update_with_enters c i h stores
      ∙ ap (λ x. end_write i (write_fields i stores x)) (begin_write_lem c i h)
      ∙ ap (end_write i) (wrote e1)
      ∙ end_write_lem (put c i e2) i h
      ∙ ap (λ x. put (put c i e2) i (record x { sequence = add64 x.sequence 1 }))
          (entry_at-put c i h k e2)
      ∙ put-put c i h k e2 _
      ∙ ap (λ n. put c i (record e2 { sequence = n })) (add64_assoc e.sequence 1 1)
    where
      wrote :
          (e1 : SymbolEntry)
          → write_fields i stores (put c i e1)
            ≡ put c i (record e1 { state = apply_stores (stores e1.state) e1.state })
      wrote e1 =
          unfold write_fields in
          ap (λ x. put (put c i e1) i (record x { state = apply_stores (stores x.state) x.state }))
            (entry_at-put c i h k e1)
          ∙ put-put c i h k e1 _

  -- A symbol id past the cache's size changes nothing.
  update_with_out_of_range : c.num_symbols ≤ i → update_with stores i c ≡ c
  unfolding update_with
  update_with_out_of_range h = rw (le→leb c.num_symbols i h)

-- Updates leave the lock free and the sizes alone.
pub update_with-IsQuiet :
    (stores : MarketState → List Store) (i : ℕ) (c : SymbolCache)
    → IsQuiet c
    → IsQuiet (update_with stores i c)
update_with-IsQuiet stores i c q = elim (dec_lt i c.num_symbols) [
  | no out ↦ rw (update_with_out_of_range stores i c (omega arith)) q
  | yes h ↦
      let e = updated stores (entry_at c i) in
      rw (update_with_lem stores i c h q.fits) (record {
        fits = omega (arith, q.fits, length-set c.entries i e);
        even = λ j l. elim (ℕ_discrete i j) [
          | yes same ↦
              rw (← same, get_or-set_self c.entries i e empty_entry (omega (arith, q.fits)))
                (omega (arith, q.even i h))
          | no other ↦ rw (get_or-set_ne c.entries i j e empty_entry other) (q.even j l)
        ];
      })
]

pub update_with-num_symbols :
    (stores : MarketState → List Store) (i : ℕ) (c : SymbolCache)
    → IsQuiet c
    → (update_with stores i c).num_symbols ≡ c.num_symbols
update_with-num_symbols stores i c q = elim (dec_lt i c.num_symbols) [
  | no out ↦ ap (λ x. x.num_symbols) (update_with_out_of_range stores i c (omega arith))
  | yes h ↦ ap (λ x. x.num_symbols) (update_with_lem stores i c h q.fits)
]

-- A free entry is read as its state.
pub get_snapshot_quiet :
    (c : SymbolCache) (j : ℕ)
    → IsQuiet c
    → j < c.num_symbols
    → get_snapshot c j ≡ some (entry_at c j).state
unfolding get_snapshot
get_snapshot_quiet c j q h = rw (gt→leb c.num_symbols j h) (ground (arith, q.even j))

get_snapshot_out_of_range :
    (c : SymbolCache) (j : ℕ) → c.num_symbols ≤ j → get_snapshot c j ≡ some empty_state
unfolding get_snapshot
get_snapshot_out_of_range c j h = rw (le→leb c.num_symbols j h)

module _ (stores : MarketState → List Store) (i : ℕ) (c : SymbolCache) (q : IsQuiet c) where
  -- Other symbols are read as before.
  pub update_with_other :
      (j : ℕ) → i ≢ j → get_snapshot (update_with stores i c) j ≡ get_snapshot c j
  update_with_other j other = elim (dec_lt i c.num_symbols) [
    | no out ↦ ap (λ x. get_snapshot x j) (update_with_out_of_range stores i c (omega arith))
    | yes h ↦
        ap (λ x. get_snapshot x j) (update_with_lem stores i c h q.fits)
        ∙ unfold get_snapshot in
          ap
            (λ x.
              if leb c.num_symbols j
              then some empty_state
              else if x.sequence % 2 == 1
              then none
              else some x.state)
            (get_or-set_ne c.entries i j (updated stores (entry_at c i)) empty_entry other)
  ]

  -- The symbol itself is read with the assignments made.
  pub update_with_self :
      i < c.num_symbols
      → get_snapshot (update_with stores i c) i
        ≡ Option.map (λ s. apply_stores (stores s) s) (get_snapshot c i)
  update_with_self h =
      let e = updated stores (entry_at c i) in
      ap (λ x. get_snapshot x i) (update_with_lem stores i c h q.fits)
      ∙ get_snapshot_quiet (put c i e) i
          (subst IsQuiet (update_with_lem stores i c h q.fits) (update_with-IsQuiet stores i c q)) h
      ∙ ap (λ x. some x.state) (get_or-set_self c.entries i e empty_entry (omega (arith, q.fits)))
      ∙ ap (Option.map (λ s. apply_stores (stores s) s)) (sym (get_snapshot_quiet c i q h))
