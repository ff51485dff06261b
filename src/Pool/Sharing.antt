-- ===== src/Pool/Sharing.antt =====
-- Two users of one pool: calls that interleave, and buffers that move.
use qode.Base.{ℕ, ◌<◌, ◌≡◌, refl, List, ◌∷◌, true, Option, some, ◌==◌, arith, eq→==, if-elim}
use qode.Pool.{
  MemoryPool, allocate, exchange, deallocate, PoolBuffer, destroy, move_buffer, move_assign,
}
use qode.Pool.FreeList.{
  IsPool, IsBlock, IsStorage, Each, AllDistinct, Chain, allocate-IsPool, deallocate-IsPool,
}

-- Allocation leaves the storage where it is.
allocate_keeps :
    (p : MemoryPool)
    → let q = (allocate p).1 in
      (IsStorage p → IsStorage q)
      × ((a : ℕ) → IsBlock p a → IsBlock q a)
      × (q.num_blocks ≡ p.num_blocks)
unfolding allocate exchange IsBlock
allocate_keeps p =
    let Kept : Option ℕ × MemoryPool → Type 0 = λ r.
      (IsStorage p → IsStorage r.1)
      × ((a : ℕ) → IsBlock p a → IsBlock r.1 a)
      × (r.1.num_blocks ≡ p.num_blocks) in
    let same : (p.free_list == p.free_list) ≡ true = eq→== p.free_list p.free_list refl in
    if-elim Kept (p.free_list == 0) (λ _. (λ s. s, λ a h. h, refl))
      (λ _. rw same (
        λ s. record { placed = s.placed; sized = s.sized; fits = s.fits; ends = s.ends },
        λ a h. h,
        refl,
      ))

allocate-head : (q : MemoryPool) (b : ℕ) → q.free_list ≡ b → 0 < b → (allocate q).0 ≡ some b
unfolding allocate exchange
allocate-head q b e k = ground (arith, e)

-- The pool after another user has taken two blocks and returned the first, `a`.
pub after_others : ℕ → MemoryPool → MemoryPool
after_others a p = deallocate a (allocate (allocate p).1).1

-- In a pool whose storage lies in the address space and whose first free blocks are `a` and `b`, a
-- user that read the head `a` and its link `b` before another user took `a` and `b` and returned
-- `a` still passes the exchange: it gets `a`, and the next allocation hands out `b` again, which
-- the other user still holds.
pub exchange_shares :
    (p : MemoryPool) (a b : ℕ) (free : List ℕ)
    → IsStorage p
    → IsPool p (a ∷ b ∷ free)
    → ((allocate (allocate p).1).0 ≡ some b)
      × ((exchange a b (after_others a p)).0 ≡ some a)
      × ((allocate (exchange a b (after_others a p)).1).0 ≡ some b)
unfolding exchange after_others Chain Each AllDistinct
exchange_shares p a b free s v =
    let p1 = (allocate p).1 in
    let p2 = (allocate p1).1 in
    let v1 : IsPool p1 (b ∷ free) = (allocate-IsPool p a (b ∷ free) s.fits v).1 in
    let s1 : IsStorage p1 = (allocate_keeps p).0 s in
    let s2 : IsStorage p2 = (allocate_keeps p1).0 s1 in
    let (first, v2) = allocate-IsPool p1 b free s1.fits v1 in
    let count : 0 < p2.allocated_count =
      omega (arith, v.counted, v2.counted, (allocate_keeps p1).2, (allocate_keeps p).2) in
    let block : IsBlock p2 a = (allocate_keeps p1).1 a ((allocate_keeps p).1 a v.blocks.0) in
    let v3 : IsPool (deallocate a p2) (a ∷ free) =
      deallocate-IsPool p2 a free s2 v2 block v.distinct.0.1 count in
    let head : ((deallocate a p2).free_list == a) ≡ true = eq→== _ a v3.chained.0 in
    (first, rw head refl, rw head (allocate-head _ b refl v.chained.2.1))

-- After a move, destroying both buffers returns the block once.
move_buffer_once :
    (b : PoolBuffer) (p : MemoryPool)
    → destroy (move_buffer b).1 (destroy (move_buffer b).0 p) ≡ destroy b p
unfolding destroy move_buffer
move_buffer_once b p = refl

-- After a move assignment, destroying both buffers returns the block of each once, the assigned
-- one's first.
move_assign_once :
    (this other : PoolBuffer) (p : MemoryPool)
    → let r = move_assign this other p in
      destroy r.0.1 (destroy r.0.0 r.1) ≡ destroy other (destroy this p)
unfolding destroy move_assign
move_assign_once this other p = refl
