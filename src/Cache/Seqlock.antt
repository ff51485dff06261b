-- ===== src/Cache/Seqlock.antt =====
-- src/common/cache.cpp, `get_snapshot` beside a writer: one entry, with the writer's and the
-- reader's accesses interleaved one by one. The reader copies the struct field by field, in the
-- order of the declaration; the fences make the accesses happen in the order of the program.
pub mod Consistency
use qode.Base.{ℕ, zero, suc, ◌+◌, ◌%◌, ◌<◌, ◌≡◌, ◌≢◌, List, [], ◌∷◌, add64, if◌then◌else◌, ◌==◌}
use qode.Cache.{MarketState, SymbolEntry, Store, apply_store, empty_state}

-- Where the writer stands: outside, or inside an update with the assignments still to do.
pub data Writer : Type 0 where
  outside : Writer
  writing : List Store → Writer

-- Where the reader stands. `copying seq1 age k snapshot` has loaded the even sequence `seq1`, has
-- copied `k` fields, and the sequence has been stored to `age` times since.
pub data Reader : Type 0 where
  loading : Reader
  copying : ℕ → ℕ → ℕ → MarketState → Reader
  returned : ℕ → MarketState → Reader

-- `published` is the state as it was when the last update ended.
pub record System : Type 0 where
  pub entry : SymbolEntry
  pub writer : Writer
  pub reader : Reader
  pub published : MarketState

-- The `k`-th field of `from` is copied over that of `to`.
unfoldable pub copy_field : ℕ → MarketState → MarketState → MarketState
copy_field k from to =
    if k == 0
    then record to { best_bid = from.best_bid }
    else if k == 1
    then record to { best_ask = from.best_ask }
    else if k == 2
    then record to { bid_quantity = from.bid_quantity }
    else if k == 3
    then record to { ask_quantity = from.ask_quantity }
    else if k == 4
    then record to { last_traded_price = from.last_traded_price }
    else if k == 5
    then record to { last_traded_quantity = from.last_traded_quantity }
    else if k == 6
    then record to { last_update_time = from.last_update_time }
    else if k == 7
    then record to { update_count = from.update_count }
    else record to { opening_price = from.opening_price }

abbrev pub field_count : ℕ
field_count = 9

-- A store to the sequence, seen by the reader's count.
unfoldable pub aged : Reader → Reader
aged loading = loading
aged (copying seq1 age k snapshot) = copying seq1 (age + 1) k snapshot
aged (returned age snapshot) = returned age snapshot

unfoldable pub bump : SymbolEntry → SymbolEntry
bump e = record e { sequence = add64 e.sequence 1 }

pub data Step : System → System → Type 0 where
  -- The writer: `begin_write`, the assignments of any update, `end_write`.
  begin :
      (s : System) (stores : List Store)
      → s.writer ≡ outside
      → Step s (record s { entry = bump s.entry; writer = writing stores; reader = aged s.reader })
  store :
      (s : System) (st : Store) (sts : List Store)
      → s.writer ≡ writing (st ∷ sts)
      → Step s (record s {
        entry = record s.entry { state = apply_store st s.entry.state };
        writer = writing sts;
      })
  finish :
      (s : System)
      → s.writer ≡ writing []
      → Step s (record s {
        entry = bump s.entry;
        writer = outside;
        reader = aged s.reader;
        published = s.entry.state;
      })
  -- The reader: the first load, which spins while the sequence is odd, the copies, and the second
  -- load, which returns the snapshot or starts again.
  spin : (s : System) → s.reader ≡ loading → s.entry.sequence % 2 ≡ 1 → Step s s
  load :
      (s : System) (snapshot : MarketState)
      → s.reader ≡ loading
      → s.entry.sequence % 2 ≢ 1
      → Step s (record s { reader = copying s.entry.sequence 0 0 snapshot })
  copy :
      (s : System) (seq1 age k : ℕ) (snapshot : MarketState)
      → s.reader ≡ copying seq1 age k snapshot
      → k < field_count
      → Step s
          (record s { reader = copying seq1 age (k + 1) (copy_field k s.entry.state snapshot) })
  accept :
      (s : System) (seq1 age : ℕ) (snapshot : MarketState)
      → s.reader ≡ copying seq1 age field_count snapshot
      → s.entry.sequence ≡ seq1
      → Step s (record s { reader = returned age snapshot })
  retry :
      (s : System) (seq1 age : ℕ) (snapshot : MarketState)
      → s.reader ≡ copying seq1 age field_count snapshot
      → s.entry.sequence ≢ seq1
      → Step s (record s { reader = loading })

-- After `reset`: nothing is written, and the reader is about to start.
abbrev pub start : System
start = record {
  entry = record { sequence = 0; state = empty_state };
  writer = outside;
  reader = loading;
  published = empty_state;
}

pub data Reach : System → Type 0 where
  here : Reach start
  next : {s t : System} → Reach s → Step s t → Reach t
