-- ===== src/Pool/FreeList.antt =====
-- The free list of the pool is a list of distinct blocks; every operation keeps it so.
use qode.Base.{
  ℕ, zero, suc, ◌+◌, ◌*◌, ◌^◌, ◌≤◌, ◌<◌, ◌≡◌, ◌≢◌, refl, sym, ap, subst, List, [], ◌∷◌, length,
  true, false, none, some, ◌==◌, eq→==, ne→==, u64, arith,
}
use native.Mathlib.Nat.{mul-le-mul_left, mul-le-mul_right, mul_comm, mul-suc}
use qode.Pool.{
  free_node_size, MemoryPool, reset, link_blocks, store_next, allocate, exchange, deallocate,
  is_foreign,
}

-- The nodes from `head` on, up to the null link.
unfoldable pub Chain : (ℕ → ℕ) → ℕ → List ℕ → Type 0
Chain next head [] = head ≡ 0
Chain next head (a ∷ bs) = (head ≡ a) × (0 < a) × Chain next (next a) bs

unfoldable pub Each : (ℕ → Type 0) → List ℕ → Type 0
Each P [] = Unit {0}
Each P (a ∷ bs) = P a × Each P bs

unfoldable pub AllDistinct : List ℕ → Type 0
unfolding Each
AllDistinct [] = Unit {0}
AllDistinct (a ∷ bs) = Each (λ b. a ≢ b) bs × AllDistinct bs

-- The address of block `i`.
abbrev pub block_at : MemoryPool → ℕ → ℕ
block_at p i = p.aligned_base + i * p.block_size

unfoldable pub IsBlock : MemoryPool → ℕ → Type 0
IsBlock p a = (i : ℕ) × (i < p.num_blocks) × (a ≡ block_at p i)

-- The pool's storage, which no operation moves.
pub record IsStorage (p : MemoryPool) : Type 0 where
  pub placed : 0 < p.aligned_base
  pub sized : free_node_size ≤ p.block_size
  pub fits : p.num_blocks < 2 ^ 64
  -- It ends in the address space.
  pub ends : p.aligned_base + p.block_size * p.num_blocks < 2 ^ 64

-- The blocks of `free`, in the order of the list, are those that are not allocated.
pub record IsPool (p : MemoryPool) (free : List ℕ) : Type 0 where
  pub chained : Chain p.next p.free_list free
  pub distinct : AllDistinct free
  pub blocks : Each (IsBlock p) free
  pub counted : p.allocated_count + length free ≡ p.num_blocks

pub Each-map : {P Q : ℕ → Type 0} (f : (a : ℕ) → P a → Q a) (bs : List ℕ) → Each P bs → Each Q bs
unfolding Each
Each-map f [] e = e
Each-map f (a ∷ bs) e = (f a e.0, Each-map f bs e.1)

store_self : (node v : ℕ) (next : ℕ → ℕ) → v ≡ store_next node v next node
store_self node v next = ground arith

store_other : (node v a : ℕ) (next : ℕ → ℕ) → node ≢ a → next a ≡ store_next node v next a
store_other node v a next h = ground arith

-- A write that leaves the links of the chain leaves the chain.
pub Chain-write :
    (next memory : ℕ → ℕ) (h : ℕ) (bs : List ℕ)
    → Each (λ b. memory b ≡ next b) bs
    → Chain next h bs
    → Chain memory h bs
unfolding Each Chain
Chain-write next memory h [] e c = c
Chain-write next memory h (a ∷ bs) e c = (
  c.0,
  c.1,
  subst (λ k. Chain memory k bs) (sym e.0) (Chain-write next memory (next a) bs e.1 c.2),
)

-- Writing a node that is not in the chain leaves the chain.
Chain-store :
    (node v : ℕ) (next : ℕ → ℕ) (h : ℕ) (bs : List ℕ)
    → Each (λ b. node ≢ b) bs
    → Chain next h bs
    → Chain (store_next node v next) h bs
unfolding Each Chain
Chain-store node v next h [] e c = c
Chain-store node v next h (a ∷ bs) e c = (
  c.0,
  c.1,
  subst (λ k. Chain (store_next node v next) k bs) (store_other node v a next e.0)
      (Chain-store node v next (next a) bs e.1 c.2),
)

link_lem :
    (node : ℕ) (next : ℕ → ℕ) (h : ℕ) (bs : List ℕ)
    → 0 < node
    → Each (λ b. node ≢ b) bs
    → Chain next h bs
    → Chain (store_next node h next) node (node ∷ bs)
unfolding Chain
link_lem node next h bs p e c = (
  refl,
  p,
  subst (λ k. Chain (store_next node h next) k bs) (store_self node h next)
      (Chain-store node h next h bs e c),
)

module _ (p : MemoryPool) where
  -- A block lies in the storage.
  pub block-not_foreign : (a : ℕ) → IsStorage p → IsBlock p a → is_foreign a p ≡ false
  unfolding is_foreign IsBlock
  block-not_foreign a s (i, k, e) =
      let fits : p.block_size * (i + 1) ≤ p.block_size * p.num_blocks =
        mul-le-mul_left p.block_size (omega arith) in
      ground
        (arith, fits, e, s.placed, s.sized, s.ends, mul_comm i p.block_size, mul-suc p.block_size i)

  -- Taking a block from a pool with a free one, and with fewer than 2 ^ 64 blocks, gives the block
  -- that heads the list, leaves the rest and counts one allocated block more.
  pub allocate-IsPool :
      (a : ℕ) (free : List ℕ)
      → p.num_blocks < 2 ^ 64
      → IsPool p (a ∷ free)
      → ((allocate p).0 ≡ some a) × IsPool (allocate p).1 free
  unfolding Chain Each AllDistinct IsBlock allocate exchange
  allocate-IsPool a free fits v =
      let h : (p.free_list == 0) ≡ false =
        ne→== p.free_list 0 (omega (arith, v.chained.0, v.chained.1)) in
      let same : (p.free_list == p.free_list) ≡ true = eq→== p.free_list p.free_list refl in
      rw (h, same)
        (
          ap some v.chained.0,
          record {
            chained = subst (λ k. Chain p.next (p.next k) free) (sym v.chained.0) v.chained.2;
            distinct = v.distinct.1;
            blocks = v.blocks.1;
            counted = omega (arith, v.counted, fits);
          },
        )

  -- Taking a block from an exhausted pool gives none and changes nothing.
  pub allocate-none : IsPool p [] → allocate p ≡ (none, p)
  unfolding Chain allocate
  allocate-none v = rw (eq→== p.free_list 0 v.chained) refl

  -- Returning a block of the pool that is not free, at least one being allocated, puts it at the
  -- head of the free list and counts one allocated block less.
  pub deallocate-IsPool :
      (a : ℕ) (free : List ℕ)
      → IsStorage p
      → IsPool p free
      → IsBlock p a
      → Each (λ b. a ≢ b) free
      → 0 < p.allocated_count
      → IsPool (deallocate a p) (a ∷ free)
  unfolding deallocate IsBlock
  deallocate-IsPool a free s v block apart taken = rw (block-not_foreign a s block) (record {
    chained = link_lem a p.next p.free_list free (omega (arith, s.placed, block.2)) apart v.chained;
    distinct = unfold AllDistinct in (apart, v.distinct);
    blocks = unfold Each in (block, v.blocks);
    counted = omega (arith, v.counted, s.fits);
  })

-- The addresses of the first blocks, the last first.
pub blocks_below : MemoryPool → ℕ → List ℕ
blocks_below p zero = []
blocks_below p (suc i) = block_at p i ∷ blocks_below p i

module _ (p : MemoryPool) (s : IsStorage p) where
  block_at-ne : (i j : ℕ) → j < i → block_at p i ≢ block_at p j
  block_at-ne i j k e =
      let apart : (j + 1) * p.block_size ≤ i * p.block_size =
        mul-le-mul_right p.block_size (omega arith) in
      omega (arith, apart, e, s.sized)

  blocks_below-apart : (i j : ℕ) → j ≤ i → Each (λ b. block_at p i ≢ b) (blocks_below p j)
  unfolding Each blocks_below
  blocks_below-apart i zero k = tt
  blocks_below-apart i (suc j) k =
      (block_at-ne i j (omega arith), blocks_below-apart i j (omega arith))

  blocks_below-AllDistinct : (i : ℕ) → AllDistinct (blocks_below p i)
  unfolding AllDistinct blocks_below
  blocks_below-AllDistinct zero = tt
  blocks_below-AllDistinct (suc i) =
      (blocks_below-apart i i (omega arith), blocks_below-AllDistinct i)

  -- The address of a block does not wrap around.
  block_at-u64 : (i : ℕ) → i < p.num_blocks → u64 (block_at p i) ≡ block_at p i
  block_at-u64 i k =
      let fits : i * p.block_size ≤ p.num_blocks * p.block_size =
        mul-le-mul_right p.block_size (omega arith) in
      omega (arith, fits, s.ends, mul_comm p.num_blocks p.block_size)

  link_blocks-Chain :
      (i : ℕ)
      → i ≤ p.num_blocks
      → let linked = link_blocks p.aligned_base p.block_size i p.next in
        Chain linked.0 linked.1 (blocks_below p i)
  unfolding link_blocks blocks_below
  link_blocks-Chain zero k = unfold Chain in refl
  link_blocks-Chain (suc i) k =
      let linked = link_blocks p.aligned_base p.block_size i p.next in
      rw (block_at-u64 i (omega arith)) (
        link_lem (block_at p i) linked.0 linked.1 (blocks_below p i) (omega (arith, s.placed))
          (blocks_below-apart i i (omega arith)) (link_blocks-Chain i (omega arith)))

  blocks_below-IsBlock : (i : ℕ) → i ≤ p.num_blocks → Each (IsBlock p) (blocks_below p i)
  unfolding Each blocks_below IsBlock
  blocks_below-IsBlock zero k = tt
  blocks_below-IsBlock (suc i) k = ((i, omega arith, refl), blocks_below-IsBlock i (omega arith))

  length-blocks_below : (i : ℕ) → length (blocks_below p i) ≡ i
  unfolding blocks_below
  length-blocks_below zero = refl
  length-blocks_below (suc i) = ap suc (length-blocks_below i)

  -- After `reset` every block is free, the last one first.
  pub reset-IsPool : IsPool (reset p) (blocks_below p p.num_blocks)
  unfolding reset
  reset-IsPool = record {
    chained = link_blocks-Chain p.num_blocks (omega arith);
    distinct = blocks_below-AllDistinct p.num_blocks;
    blocks = unfold IsBlock in blocks_below-IsBlock p.num_blocks (omega arith);
    counted = omega (arith, length-blocks_below p.num_blocks);
  }
