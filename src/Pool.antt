-- ===== src/Pool.antt =====
-- include/memory_pool.h and src/common/memory_pool.cpp: fixed-size blocks on a linked free list. A
-- pointer is its address and 0 the null pointer; a call runs alone unless its two atomic steps are
-- taken apart.
pub mod FreeList
pub mod Sharing
pub mod Users
pub mod Shares
pub mod Steps
use qode.Base.{
  ℕ, zero, suc, ◌+◌, ◌-◌, ◌*◌, ◌/◌, ◌^◌, Bool, true, false, not, ◌&&◌, ◌||◌, Option, none, some,
  ltb, leb, ◌==◌, if◌then◌else◌, add64, u64, max,
}

abbrev pub cache_line_size : ℕ
cache_line_size = 64

-- `sizeof(FreeNode)`, which is aligned to a cache line.
abbrev pub free_node_size : ℕ
free_node_size = 64

pub record MemoryPool : Type 0 where
  pub block_size : ℕ
  pub num_blocks : ℕ
  pub aligned_base : ℕ
  -- `next` of the node at each address.
  pub next : ℕ → ℕ
  pub free_list : ℕ
  pub allocated_count : ℕ

-- `node->next.store(v)`.
abbrev pub store_next : ℕ → ℕ → (ℕ → ℕ) → ℕ → ℕ
store_next node v next a = if a == node then v else next a

-- `(n + 63) & ~63` on 64 bits.
abbrev pub align_up : ℕ → ℕ
align_up n = u64 (n + cache_line_size - 1) / cache_line_size * cache_line_size

-- The loop of `reset` over the first blocks: the nodes' links and the last head.
unfoldable pub link_blocks : ℕ → ℕ → ℕ → (ℕ → ℕ) → (ℕ → ℕ) × ℕ
link_blocks base size zero next = (next, 0)
link_blocks base size (suc i) next =
    let before = link_blocks base size i next in
    let node = u64 (base + i * size) in (store_next node before.1 before.0, node)

unfoldable pub reset : MemoryPool → MemoryPool
unfolding link_blocks
reset p =
    let linked = link_blocks p.aligned_base p.block_size p.num_blocks p.next in
    record p { next = linked.0; free_list = linked.1; allocated_count = 0 }

-- The constructor, once the storage is at `base`; what the storage held before is in `next`.
unfoldable pub new_pool : ℕ → ℕ → ℕ → (ℕ → ℕ) → MemoryPool
unfolding reset
new_pool block_size num_blocks base next = reset (record {
  block_size = align_up (max block_size free_node_size);
  num_blocks = num_blocks;
  aligned_base = align_up base;
  next = next;
  free_list = 0;
  allocated_count = 0;
})

-- The exchange of `allocate` for the head `node` and the link `next` that it read before.
unfoldable pub exchange : ℕ → ℕ → MemoryPool → Option ℕ × MemoryPool
exchange node next p =
    if p.free_list == node
    then (some node, record p { free_list = next; allocated_count = add64 p.allocated_count 1 })
    else (none, p)

unfoldable pub allocate : MemoryPool → Option ℕ × MemoryPool
unfolding exchange
allocate p = if p.free_list == 0 then (none, p) else exchange p.free_list (p.next p.free_list) p

-- Whether `deallocate` refuses `ptr`.
unfoldable pub is_foreign : ℕ → MemoryPool → Bool
is_foreign ptr p =
    ptr == 0
    || ltb ptr p.aligned_base
    || leb (u64 (p.aligned_base + u64 (p.block_size * p.num_blocks))) ptr

unfoldable pub deallocate : ℕ → MemoryPool → MemoryPool
unfolding is_foreign
deallocate ptr p = if is_foreign ptr p then p else record p {
  next = store_next ptr p.free_list p.next;
  free_list = ptr;
  allocated_count = add64 p.allocated_count (2 ^ 64 - 1);
}

unfoldable pub get_available_count : MemoryPool → ℕ
get_available_count p = u64 (p.num_blocks + 2 ^ 64 - p.allocated_count)

-- A buffer of this pool, or one without a pool.
pub record PoolBuffer : Type 0 where
  pub has_pool : Bool
  pub block : ℕ

abbrev pub empty_buffer : PoolBuffer
empty_buffer = record { has_pool = false; block = 0 }

-- The destructor.
unfoldable pub destroy : PoolBuffer → MemoryPool → MemoryPool
unfolding deallocate
destroy b p = if not (b.block == 0) && b.has_pool then deallocate b.block p else p

-- The move constructor: the new buffer and what is left of `other`.
unfoldable pub move_buffer : PoolBuffer → PoolBuffer × PoolBuffer
move_buffer other = (other, empty_buffer)

-- The move assignment from another object: the assigned buffer, what is left of `other`, the pool.
unfoldable pub move_assign :
    PoolBuffer → PoolBuffer → MemoryPool → (PoolBuffer × PoolBuffer) × MemoryPool
unfolding destroy
move_assign this other p = ((other, empty_buffer), destroy this p)

-- The block and the buffer that no longer owns it.
unfoldable pub release : PoolBuffer → ℕ × PoolBuffer
release b = (b.block, empty_buffer)
