-- ===== src/Pool/Steps.antt =====
-- The calls of the users of src/common/memory_pool.cpp, one after another.
use qode.Base.{ℕ, ◌+◌, ◌≤◌, ◌≡◌, ◌⊎◌, List, [], ◌∷◌, Option, none, some, true}
use qode.Pool.{MemoryPool, reset, allocate, deallocate, is_foreign}

-- `a` is one of the blocks `held`, and `rest` are the others.
pub data Returns (a : ℕ) : List ℕ → List ℕ → Type 0 where
  here : {rest : List ℕ} → Returns a (a ∷ rest) rest
  there : {b : ℕ} {held rest : List ℕ} → Returns a held rest → Returns a (b ∷ held) (b ∷ rest)

-- The blocks held after a call of `allocate`.
abbrev pub with_block : Option ℕ → List ℕ → List ℕ
with_block none held = held
with_block (some a) held = a ∷ held

-- A call, or a write of a user, and the blocks that the users hold before and after it. They return
-- only what they hold, or a pointer that is no block, and write only into what they hold; after
-- `reset` they hold none. A write changes no word that lies outside the block, and may change the
-- one that is a link while the block is free.
pub data Step : MemoryPool → List ℕ → MemoryPool → List ℕ → Type 0 where
  took :
      {p : MemoryPool} {held : List ℕ} → Step p held (allocate p).1 (with_block (allocate p).0 held)
  returned :
      {p : MemoryPool} {held rest : List ℕ} (a : ℕ)
      → Returns a held rest
      → Step p held (deallocate a p) rest
  refused :
      {p : MemoryPool} {held : List ℕ} (a : ℕ)
      → is_foreign a p ≡ true
      → Step p held (deallocate a p) held
  wrote :
      {p : MemoryPool} {held rest : List ℕ} (a : ℕ) (memory : ℕ → ℕ)
      → Returns a held rest
      → ((b : ℕ) → (b + 8 ≤ a) ⊎ (a + p.block_size ≤ b) → memory b ≡ p.next b)
      → Step p held (record p { next = memory }) held
  cleared : {p : MemoryPool} {held : List ℕ} → Step p held (reset p) []

pub data Reachable (p : MemoryPool) : MemoryPool → List ℕ → Type 0 where
  start : Reachable p p []
  next :
      {q r : MemoryPool} {held held' : List ℕ}
      → Reachable p q held
      → Step q held r held'
      → Reachable p r held'
