-- ===== src/Cache/Top.antt =====
-- What `get_top_symbols` of src/common/cache.cpp returns: the most updated symbols, in order.
use qode.Base.{
  ℕ, zero, suc, ◌+◌, ◌-◌, ◌≤◌, ◌<◌, ◌≡◌, refl, sym, ap, ◌∙◌, subst, some, List, [], ◌∷◌, ◌++◌, map,
  ltb, if◌then◌else◌, take, replicate, length, length-append, length-replicate, length-take,
  if-elim, >>=-some, arith, min, ℕ_discrete, ltb→lt, ltb→le,
}
use mathlib.Core.List.{
  Mem, Mem-prop, Pairwise, not-mem-nil, mem-cons_self, mem-cons_of_mem, eq-or-mem_of_mem-cons,
}
use mathlib.Core.Logic.Or
use native.Mathlib.Bridge.{le_prop}
use native.Mathlib.Nat.{ℕ_set}
use mathlib.Core.List.Perm
use qode.Cache.{SymbolCache, MarketState, entry_at}
use qode.Cache.Updates.{IsQuiet, get_snapshot_quiet}
use qode.Cache.Sorted.{IsAbove, Ascends, sort_ranked-perm, sort_ranked-sorted}
use qode.Cache.Ranking.{collect, sort_ranked, fill, get_top_symbols, empty_row}

abbrev pub updates_of : SymbolCache → ℕ → ℕ
updates_of c id = (entry_at c id).state.update_count

-- What `collect` collects, where every read succeeds.
listed : SymbolCache → ℕ → ℕ → List (ℕ × ℕ)
listed c zero i = []
listed c (suc left) i =
    let rest = listed c left (i + 1) in
    if ltb 0 (updates_of c i) then (updates_of c i, i) ∷ rest else rest

collect_quiet :
    (c : SymbolCache) (left i : ℕ)
    → IsQuiet c
    → i + left ≤ c.num_symbols
    → collect c left i ≡ some (listed c left i)
unfolding collect listed
collect_quiet c zero i q h = refl
collect_quiet c (suc left) i q h =
    >>=-some _ (get_snapshot_quiet c i q (omega arith))
    ∙ >>=-some _ (collect_quiet c left (i + 1) q (omega arith))

-- A symbol from `i` up to `j` that was updated `a.0` times.
abbrev pub IsUpdated : SymbolCache → ℕ → ℕ → ℕ × ℕ → Type 0
IsUpdated c i j a = (i ≤ a.1) × (a.1 < j) × (updates_of c a.1 ≡ a.0) × (0 < a.0)

IsUpdated-prop : (c : SymbolCache) (i j : ℕ) (a : ℕ × ℕ) → IsProp (IsUpdated c i j a)
IsUpdated-prop c i j a = hlevel (le_prop, ℕ_set)

listed_sound :
    (c : SymbolCache) (left i : ℕ) (a : ℕ × ℕ)
    → Mem a (listed c left i)
    → IsUpdated c i (i + left) a
unfolding listed
listed_sound c zero i a m = absurd (not-mem-nil m)
listed_sound c (suc left) i a m =
    let further : IsUpdated c (i + 1) (i + 1 + left) a → IsUpdated c i (i + suc left) a =
      λ u. (omega (arith, u.0), omega (arith, u.1), u.2, u.3) in
    if-elim (λ xs. Mem a xs → IsUpdated c i (i + suc left) a) (ltb 0 (updates_of c i))
      (λ h m'.
        Or.elim (IsUpdated-prop c i (i + suc left) a) (eq-or-mem_of_mem-cons m')
          (λ e.
            subst (IsUpdated c i (i + suc left)) (sym e)
              (omega arith, omega arith, refl, ltb→lt 0 (updates_of c i) h))
          (λ t. further (listed_sound c left (i + 1) a t)))
      (λ h m'. further (listed_sound c left (i + 1) a m')) m

listed-Ascends : (c : SymbolCache) (left i : ℕ) → Ascends (listed c left i)
unfolding listed
listed-Ascends c zero i = Pairwise.nil
listed-Ascends c (suc left) i =
    if-elim Ascends (ltb 0 (updates_of c i))
      (λ _.
        Pairwise.cons (λ a m. omega (arith, (listed_sound c left (i + 1) a m).0))
          (listed-Ascends c left (i + 1)))
      (λ _. listed-Ascends c left (i + 1))

listed_complete :
    (c : SymbolCache) (left i id : ℕ)
    → i ≤ id
    → id < i + left
    → 0 < updates_of c id
    → Mem (updates_of c id, id) (listed c left i)
unfolding listed
listed_complete c zero i id h k p = absurd (omega arith)
listed_complete c (suc left) i id h k p = elim (ℕ_discrete i id) [
  | yes e ↦
      if-elim (Mem (updates_of c id, id)) (ltb 0 (updates_of c i))
        (λ t.
          subst (λ n. Mem (updates_of c id, id) ((updates_of c n, n) ∷ listed c left (i + 1)))
            (sym e) mem-cons_self)
        (λ t. absurd (omega (arith, ltb→le 0 (updates_of c i) t, ap (updates_of c) e)))
  | no other ↦
      let later = listed_complete c left (i + 1) id (omega arith) (omega arith) p in
      if-elim (Mem (updates_of c id, id)) (ltb 0 (updates_of c i)) (λ t. mem-cons_of_mem _ later)
        (λ t. later)
]

-- The row of a symbol.
abbrev pub row : SymbolCache → ℕ × ℕ → ℕ × MarketState
row c a = (a.1, (entry_at c a.1).state)

fill_quiet :
    (c : SymbolCache) (xs : List (ℕ × ℕ))
    → IsQuiet c
    → ((a : ℕ × ℕ) → Mem a xs → a.1 < c.num_symbols)
    → fill c xs ≡ some (map (row c) xs)
unfolding fill
fill_quiet c [] q h = refl
fill_quiet c (a ∷ xs) q h =
    >>=-some _ (get_snapshot_quiet c a.1 q (h a mem-cons_self))
    ∙ >>=-some _ (fill_quiet c xs q (λ b m. h b (mem-cons_of_mem a m)))

take_mem : (n : ℕ) (xs : List (ℕ × ℕ)) (a : ℕ × ℕ) → Mem a (take n xs) → Mem a xs
take_mem zero xs a m = absurd (not-mem-nil m)
take_mem (suc n) [] a m = m
take_mem (suc n) (x ∷ xs) a m =
    Or.elim Mem-prop (eq-or-mem_of_mem-cons m)
      (λ e. subst (λ b. Mem b (x ∷ xs)) (sym e) mem-cons_self)
      (λ t. mem-cons_of_mem x (take_mem n xs a t))

length-map-row : (c : SymbolCache) (xs : List (ℕ × ℕ)) → length (map (row c) xs) ≡ length xs
length-map-row c [] = refl
length-map-row c (a ∷ xs) = ap suc (length-map-row c xs)

-- The rows are the first of all updated symbols in a row that descends by the number of updates,
-- then by the symbol, and rows of zeros behind them.
pub record IsTop (c : SymbolCache) (count : ℕ) (out : List (ℕ × MarketState)) : Type 0 where
  pub ranked : List (ℕ × ℕ)
  pub ordered : Pairwise IsAbove ranked
  pub sound : (a : ℕ × ℕ) → Mem a ranked → IsUpdated c 0 c.num_symbols a
  pub complete :
      (id : ℕ) → id < c.num_symbols → 0 < updates_of c id → Mem (updates_of c id, id) ranked
  pub filled : out ≡ map (row c) (take count ranked) ++ replicate (count - length ranked) empty_row
  pub sized : length out ≡ count

-- Where no update is going on, `get_top_symbols` has a result of exactly `count` rows: of all the
-- symbols with an update, and of no others, the `count` with the most updates, the larger symbol
-- first among equals, each with its state; and symbol 0 with an empty state where there are too
-- few.
pub get_top_symbols-IsTop :
    (count : ℕ) (c : SymbolCache)
    → IsQuiet c
    → (out : List (ℕ × MarketState)) × (get_top_symbols count c ≡ some out) × IsTop c count out
unfolding get_top_symbols
get_top_symbols-IsTop count c q =
    let xs = listed c c.num_symbols 0 in
    let ranked = sort_ranked xs in
    let p = sort_ranked-perm xs in
    let sound : (a : ℕ × ℕ) → Mem a ranked → IsUpdated c 0 c.num_symbols a = λ a m.
      let u = listed_sound c c.num_symbols 0 a ((Perm.mem_iff {a = a} p).0 m) in
      (omega arith, omega (arith, u.1), u.2, u.3) in
    let rows = map (row c) (take count ranked) in
    let n : length rows ≡ min count (length ranked) =
      length-map-row c (take count ranked) ∙ length-take count ranked in
    (
      rows ++ replicate (count - length rows) empty_row,
      >>=-some _ (collect_quiet c c.num_symbols 0 q (omega arith))
          ∙ >>=-some _
              (fill_quiet c (take count ranked) q (λ a m. (sound a (take_mem count ranked a m)).1)),
      record {
        ranked = ranked;
        ordered = sort_ranked-sorted (listed-Ascends c c.num_symbols 0);
        sound = sound;
        complete = λ id h up.
            (Perm.mem_iff p).1
              (listed_complete c c.num_symbols 0 id (omega arith) (omega arith) up);
        filled = ap (λ k. rows ++ replicate k empty_row) (omega (arith, n));
        sized = omega (
          arith,
          n,
          length-append rows (replicate (count - length rows) empty_row),
          length-replicate (count - length rows) empty_row,
        );
      },
    )
