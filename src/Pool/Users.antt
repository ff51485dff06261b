-- ===== src/Pool/Users.antt =====
-- The pool as its users see it: who takes and returns blocks, one call after another.
use qode.Base.{ℕ, ◌+◌, ◌*◌, ◌≤◌, ◌^◌, ◌<◌, sym, subst, List, [], max, arith}
use native.Mathlib.Nat.{mul-le-mul_right}
use qode.Pool.{cache_line_size, MemoryPool, new_pool, align_up, free_node_size}
use qode.Pool.Steps.{Step, took, returned, wrote, refused, cleared, Reachable, start, next}
use qode.Pool.Shares.{
  IsShared, took-IsShared, returned-IsShared, reset-IsShared, wrote-IsShared, refused-eq,
}

Step-IsShared :
    {p q : MemoryPool} {held held' : List ℕ}
    → Step p held q held'
    → IsShared p held
    → IsShared q held'
Step-IsShared {p} {held = held} took v = took-IsShared p held v.free v.pool v.apart v
Step-IsShared {p} (returned a r) v = returned-IsShared p a _ _ r v
Step-IsShared {p} {held = held} (refused a h) v =
    subst (λ q. IsShared q held) (sym (refused-eq p a h)) v
Step-IsShared {p} (wrote a memory r outside) v = wrote-IsShared p a memory _ _ r outside v
Step-IsShared {p} cleared v = reset-IsShared p v.storage

Reachable-from :
    {p q : MemoryPool} {held : List ℕ} → IsShared p [] → Reachable p q held → IsShared q held
Reachable-from v start = v
Reachable-from v (next r s) = Step-IsShared s (Reachable-from v r)

-- The storage that the constructor asks for, and aligns, lies in the address space.
abbrev pub IsAddressable : ℕ → ℕ → ℕ → Type 0
IsAddressable block_size num_blocks base =
    (block_size + 64 ≤ 2 ^ 64)
    × (base + (align_up (max block_size free_node_size) * num_blocks + cache_line_size) ≤ 2 ^ 64)

new_pool-IsShared :
    (block_size num_blocks base : ℕ) (memory : ℕ → ℕ)
    → 0 < base
    → IsAddressable block_size num_blocks base
    → IsShared (new_pool block_size num_blocks base memory) []
unfolding new_pool
new_pool-IsShared block_size num_blocks base memory placed (small, fits) =
    let size = align_up (max block_size free_node_size) in
    let sized : free_node_size ≤ size = omega (arith, small) in
    let few : 1 * num_blocks ≤ size * num_blocks =
      mul-le-mul_right num_blocks (omega (arith, sized)) in
    reset-IsShared
      (record {
        block_size = size;
        num_blocks = num_blocks;
        aligned_base = align_up base;
        next = memory;
        free_list = 0;
        allocated_count = 0;
      })
      (record {
        placed = omega (arith, placed, fits);
        sized = sized;
        fits = omega (arith, few, fits, placed);
        ends = omega (arith, fits);
      })

-- From a new pool on, whose storage, with the size of a block rounded up, lies in the address space
-- and not at 0, whatever blocks its users take and return, whatever they write into the blocks that
-- they hold, and with foreign pointers and resets among their calls: every block is free or held by
-- one user; no block is free twice, held twice, or both; and `allocated_count` is the number of blocks
-- that are held.
pub Reachable-IsShared :
    (block_size num_blocks base : ℕ) (memory : ℕ → ℕ) {q : MemoryPool} {held : List ℕ}
    → 0 < base
    → IsAddressable block_size num_blocks base
    → Reachable (new_pool block_size num_blocks base memory) q held
    → IsShared q held
Reachable-IsShared block_size num_blocks base memory placed fits reached =
    Reachable-from (new_pool-IsShared block_size num_blocks base memory placed fits) reached
