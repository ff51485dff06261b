-- ===== src/Cache/Sorted.antt =====
-- The sort of `get_top_symbols` in src/common/cache.cpp: an order of the symbols, and what sorts
-- them.
use qode.Base.{ℕ, ◌≤◌, ◌<◌, ◌≡◌, true, false, List, [], ◌∷◌, if-elim, arith}
use mathlib.Core.List.{
  Mem, Perm, Pairwise, Pairwise-singleton, forall_mem-cons, mem-cons_self, mem-cons_of_mem,
}
use native.Mathlib.Bridge.{le_prop}
use mathlib.Core.List.Perm
use qode.Cache.Ranking.{greater, insert_ranked, sort_ranked}

-- More updates, or as many of a larger symbol.
abbrev pub IsAbove : ℕ × ℕ → ℕ × ℕ → Type 0
IsAbove a b = (b.0 ≤ a.0) × (b.0 ≡ a.0 → b.1 < a.1)

insert_ranked-perm : (a : ℕ × ℕ) (xs : List (ℕ × ℕ)) → Perm (insert_ranked a xs) (a ∷ xs)
unfolding insert_ranked
insert_ranked-perm a [] = Perm.rfl
insert_ranked-perm a (b ∷ bs) =
    if-elim (λ ys. Perm ys (a ∷ b ∷ bs)) (greater a b) (λ _. Perm.rfl)
      (λ _. Perm.trans (Perm.cons b (insert_ranked-perm a bs)) (Perm.swap a b bs))

pub sort_ranked-perm : (xs : List (ℕ × ℕ)) → Perm (sort_ranked xs) xs
unfolding sort_ranked
sort_ranked-perm [] = Perm.rfl
sort_ranked-perm (a ∷ xs) =
    Perm.trans (insert_ranked-perm a (sort_ranked xs)) (Perm.cons a (sort_ranked-perm xs))

IsAbove-trans : (a b c : ℕ × ℕ) → IsAbove a b → IsAbove b c → IsAbove a c
IsAbove-trans a b c p q = (
  omega (arith, p.0, q.0),
  λ e. omega (arith, p.0, q.0, p.1 (omega (arith, p.0, q.0)), q.1 (omega (arith, p.0, q.0))),
)

greater-IsAbove : (a b : ℕ × ℕ) → greater a b ≡ true → IsAbove a b
unfolding greater
greater-IsAbove a b h = ground arith

greater-false-IsAbove : (a b : ℕ × ℕ) → a.1 < b.1 → greater a b ≡ false → IsAbove b a
unfolding greater
greater-false-IsAbove a b l h = ground arith

IsAbove-prop : (a b : ℕ × ℕ) → IsProp (IsAbove a b)
IsAbove-prop a b = hlevel le_prop

IsBelow-cons :
    (a b : ℕ × ℕ) (xs : List (ℕ × ℕ))
    → IsAbove a b
    → ((x : ℕ × ℕ) → Mem x xs → IsAbove a x)
    → (x : ℕ × ℕ) → Mem x (b ∷ xs)
    → IsAbove a x
IsBelow-cons a b xs p h = (forall_mem-cons (IsAbove-prop a)).1 (p, h)

insert_ranked-sorted :
    (a : ℕ × ℕ) {xs : List (ℕ × ℕ)}
    → ((x : ℕ × ℕ) → Mem x xs → a.1 < x.1)
    → Pairwise IsAbove xs
    → Pairwise IsAbove (insert_ranked a xs)
unfolding insert_ranked
insert_ranked-sorted a new Pairwise.nil = Pairwise-singleton _ a
insert_ranked-sorted a new (Pairwise.cons {a = b} {l = bs} below s) =
    if-elim (Pairwise IsAbove) (greater a b)
      (λ h.
        let p = greater-IsAbove a b h in
        Pairwise.cons (IsBelow-cons a b bs p (λ x m. IsAbove-trans a b x p (below x m)))
          (Pairwise.cons below s))
      (λ h.
        let p = greater-false-IsAbove a b (new b mem-cons_self) h in
        Pairwise.cons
          (λ x m. IsBelow-cons b a bs p below x ((Perm.mem_iff (insert_ranked-perm a bs)).0 m))
          (insert_ranked-sorted a (λ x m. new x (mem-cons_of_mem b m)) s))

-- Symbols that ascend.
abbrev pub Ascends : List (ℕ × ℕ) → Type 0
Ascends = Pairwise (λ a b. a.1 < b.1)

pub sort_ranked-sorted : {xs : List (ℕ × ℕ)} → Ascends xs → Pairwise IsAbove (sort_ranked xs)
unfolding sort_ranked
sort_ranked-sorted Pairwise.nil = Pairwise.nil
sort_ranked-sorted (Pairwise.cons {a} {l = xs} new s) =
    insert_ranked-sorted a (λ x m. new x ((Perm.mem_iff (sort_ranked-perm xs)).0 m))
      (sort_ranked-sorted s)
