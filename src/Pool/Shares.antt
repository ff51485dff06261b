-- ===== src/Pool/Shares.antt =====
-- What a call on the pool of src/common/memory_pool.cpp, or a write of a user, makes of the blocks
-- that are free and those that are held.
use qode.Base.{
  ℕ, suc, ◌+◌, ◌*◌, ◌≤◌, ◌⊎◌, inl, inr, ◌∙◌, dec_lt, ℕ_discrete, ◌^◌, ◌<◌, ◌≡◌, ◌≢◌, refl, sym, ap,
  subst, List, [], ◌∷◌, length, some, true, false, ◌==◌, eq→==, ne→==, add64, ◌-◌, arith,
}
use native.Mathlib.Nat.{mul-le-mul_right}
use qode.Pool.{MemoryPool, reset, store_next, allocate, exchange, deallocate, is_foreign}
use qode.Pool.FreeList.{
  block_at, Chain-write, IsPool, IsStorage, IsBlock, Each, AllDistinct, Chain, Each-map,
  blocks_below, block-not_foreign, allocate-IsPool, allocate-none, deallocate-IsPool, reset-IsPool,
}
use qode.Pool.Steps.{Returns, here, there, with_block}

-- Every block is either free or held by one user, and `allocated_count` counts those that are held.
pub record IsShared (p : MemoryPool) (held : List ℕ) : Type 0 where
  pub storage : IsStorage p
  pub free : List ℕ
  pub pool : IsPool p free
  pub distinct : AllDistinct held
  pub blocks : Each (IsBlock p) held
  pub apart : Each (λ a. Each (λ b. a ≢ b) free) held
  pub counted : p.allocated_count ≡ length held

Returns-Each :
    (P : ℕ → Type 0) {a : ℕ} {held rest : List ℕ}
    → Returns a held rest
    → Each P held
    → P a × Each P rest
unfolding Each
Returns-Each P here e = e
Returns-Each P (there r) e = let (x, es) = Returns-Each P r e.1 in (x, (e.0, es))

Returns-AllDistinct :
    {a : ℕ} {held rest : List ℕ}
    → Returns a held rest
    → AllDistinct held
    → Each (λ b. b ≢ a) rest × AllDistinct rest
unfolding AllDistinct Each
Returns-AllDistinct {a} here d = (Each-map (λ b ne e. ne (sym e)) _ d.0, d.1)
Returns-AllDistinct (there r) d =
    let (ne, es) = Returns-Each _ r d.0 in
    let (others, ds) = Returns-AllDistinct r d.1 in ((ne, others), (es, ds))

Returns-length :
    {a : ℕ} {held rest : List ℕ} → Returns a held rest → length held ≡ suc (length rest)
Returns-length here = refl
Returns-length (there r) = ap suc (Returns-length r)

Each-zip :
    (P Q R : ℕ → Type 0) (f : (a : ℕ) → P a → Q a → R a) (bs : List ℕ)
    → Each P bs
    → Each Q bs
    → Each R bs
unfolding Each
Each-zip P Q R f [] p q = tt
Each-zip P Q R f (b ∷ bs) p q = (f b p.0 q.0, Each-zip P Q R f bs p.1 q.1)

-- The pool after a block was taken, and after one was returned.
abbrev popped : MemoryPool → MemoryPool
popped p = record p { free_list = p.next p.free_list; allocated_count = add64 p.allocated_count 1 }

abbrev pushed : ℕ → MemoryPool → MemoryPool
pushed a p = record p {
  next = store_next a p.free_list p.next;
  free_list = a;
  allocated_count = add64 p.allocated_count (2 ^ 64 - 1);
}

module _ (p : MemoryPool) where
  allocate-some : (a : ℕ) (free : List ℕ) → IsPool p (a ∷ free) → allocate p ≡ (some a, popped p)
  unfolding Chain allocate exchange
  allocate-some a free v =
      let h : (p.free_list == 0) ≡ false =
        ne→== p.free_list 0 (omega (arith, v.chained.0, v.chained.1)) in
      let same : (p.free_list == p.free_list) ≡ true = eq→== p.free_list p.free_list refl in
      rw (h, same) (ap (λ b. (some b, popped p)) v.chained.0)

  deallocate_block : (a : ℕ) → IsStorage p → IsBlock p a → deallocate a p ≡ pushed a p
  unfolding deallocate
  deallocate_block a s block = rw (block-not_foreign p a s block) refl

  pub took-IsShared :
      (held free : List ℕ)
      → IsPool p free
      → Each (λ a. Each (λ b. a ≢ b) free) held
      → IsShared p held
      → IsShared (allocate p).1 (with_block (allocate p).0 held)
  took-IsShared held [] pool apart v =
      subst (λ r. IsShared r.1 (with_block r.0 held)) (sym (allocate-none p pool)) v
  took-IsShared held (a ∷ free) pool apart v =
      let e = allocate-some a free pool in
      let rest = subst (λ r. IsPool r.1 free) e (allocate-IsPool p a free v.storage.fits pool).1 in
      subst (λ r. IsShared r.1 (with_block r.0 held)) (sym e)
        (record {
          storage = record {
            placed = v.storage.placed;
            sized = v.storage.sized;
            fits = v.storage.fits;
            ends = v.storage.ends;
          };
          free = free;
          pool = rest;
          distinct =
              unfold AllDistinct in
              (unfold Each in Each-map (λ b es k. es.0 (sym k)) held apart, v.distinct);
          blocks = unfold Each IsBlock in (pool.blocks.0, v.blocks);
          apart = unfold Each AllDistinct in (pool.distinct.0, Each-map (λ b e. e.1) held apart);
          counted = omega (arith, v.counted, pool.counted, rest.counted);
        })

  pub returned-IsShared :
      (a : ℕ) (held rest : List ℕ)
      → Returns a held rest
      → IsShared p held
      → IsShared (deallocate a p) rest
  returned-IsShared a held rest r v =
      let (block, blocks) = Returns-Each (IsBlock p) r v.blocks in
      let (free, aparts) = Returns-Each (λ b. Each (λ c. b ≢ c) v.free) r v.apart in
      let (others, distinct) = Returns-AllDistinct r v.distinct in
      let taken : 0 < p.allocated_count = omega (arith, v.counted, Returns-length r) in
      let e = deallocate_block a v.storage block in
      let pool =
        subst (λ q. IsPool q (a ∷ v.free)) e
          (deallocate-IsPool p a v.free v.storage v.pool block free taken) in
      subst (λ q. IsShared q rest) (sym e)
        (record {
          storage = record {
            placed = v.storage.placed;
            sized = v.storage.sized;
            fits = v.storage.fits;
            ends = v.storage.ends;
          };
          free = a ∷ v.free;
          pool = pool;
          distinct = distinct;
          blocks = unfold IsBlock in blocks;
          apart = unfold Each in Each-zip _ _ _ (λ b ne es. (ne, es)) rest others aparts;
          counted = omega (arith, v.counted, Returns-length r, pool.counted, v.pool.counted);
        })

  pub reset-IsShared : IsStorage p → IsShared (reset p) []
  unfolding reset
  reset-IsShared s = record {
    storage = record { placed = s.placed; sized = s.sized; fits = s.fits; ends = s.ends };
    free = blocks_below p p.num_blocks;
    pool = unfold reset in reset-IsPool p s;
    distinct = unfold AllDistinct in tt;
    blocks = unfold Each in tt;
    apart = unfold Each in tt;
    counted = refl;
  }

  -- Another block lies on one side of `a` as a whole.
  block_beside :
      (a b : ℕ)
      → IsStorage p
      → IsBlock p a
      → IsBlock p b
      → a ≢ b
      → (b + 8 ≤ a) ⊎ (a + p.block_size ≤ b)
  unfolding IsBlock
  block_beside a b s (i, k, e) (j, l, e') ne = elim (dec_lt i j) [
    | yes before ↦
        let apart : (i + 1) * p.block_size ≤ j * p.block_size =
          mul-le-mul_right p.block_size (omega arith) in
        inr (omega (arith, apart, e, e'))
    | no after ↦ elim (ℕ_discrete i j) [
      | yes same ↦ absurd (ne (e ∙ ap (block_at p) same ∙ sym e'))
      | no other ↦
          let apart : (j + 1) * p.block_size ≤ i * p.block_size =
            mul-le-mul_right p.block_size (omega (arith, after, other)) in
          inl (omega (arith, apart, e, e', s.sized))
    ]
  ]

  pub wrote-IsShared :
      (a : ℕ) (memory : ℕ → ℕ) (held rest : List ℕ)
      → Returns a held rest
      → ((b : ℕ) → (b + 8 ≤ a) ⊎ (a + p.block_size ≤ b) → memory b ≡ p.next b)
      → IsShared p held
      → IsShared (record p { next = memory }) held
  wrote-IsShared a memory held rest r outside v =
      let (block, blocks) = Returns-Each (IsBlock p) r v.blocks in
      let (free, aparts) = Returns-Each (λ b. Each (λ c. b ≢ c) v.free) r v.apart in
      record {
        storage = record {
          placed = v.storage.placed;
          sized = v.storage.sized;
          fits = v.storage.fits;
          ends = v.storage.ends;
        };
        free = v.free;
        pool = record {
          chained =
              Chain-write p.next memory p.free_list v.free
                (Each-zip _ _ _
                  (λ b ne block'. outside b (block_beside a b v.storage block block' ne)) v.free
                  free v.pool.blocks)
                v.pool.chained;
          distinct = v.pool.distinct;
          blocks = unfold IsBlock in v.pool.blocks;
          counted = v.pool.counted;
        };
        distinct = v.distinct;
        blocks = unfold IsBlock in v.blocks;
        apart = v.apart;
        counted = v.counted;
      }

  pub refused-eq : (a : ℕ) → is_foreign a p ≡ true → deallocate a p ≡ p
  unfolding deallocate
  refused-eq a h = rw h refl
