-- ===== src/Feed/Rounds.antt =====
-- The rounds of `process_data` of src/client/feed_handler.cpp: when one begins, and what they take
-- together.
use qode.Base.{ℕ, ◌+◌, ◌%◌, ◌<◌, ◌≡◌, Bool, true, false, not, ◌&&◌, Option, some, ◌⊎◌, [], ◌==◌}
use qode.Socket.{Socket, RecvResult, received, closed, would_block, failed}
use qode.Feed.{World, Feed}
use qode.Feed.Chunk.{IsReady, IsFed}
use qode.Feed.Answers.{bytes_of, joined}

-- Round `i` may begin.
abbrev pub goes : World → ℕ → Bool
goes w i = w.running i && not (i % 100 == 0 && not (w.in_time i))

abbrev pub is_received : RecvResult → Bool
is_received (received bytes) = true
is_received closed = false
is_received would_block = false
is_received failed = false

-- Round `i` begins and `recv` brings bytes.
abbrev pub Brings : World → ℕ → Type 0
Brings w i = (goes w i ≡ true) × (is_received (w.answers i) ≡ true)

abbrev pub is_open : Socket → Bool
is_open s = s.connected && s.has_fd

-- Why there is no round `i`: the handler was stopped or out of time, no bytes came, or the
-- connection was closed before.
abbrev pub Idle : World → ℕ → Feed → Type 0
Idle w i feed = (goes w i ≡ false) ⊎ (bytes_of (w.answers i) ≡ []) ⊎ (is_open feed.socket ≡ false)

-- The rounds from number `i` on took the bytes of `n` answers, each of which brought some, and
-- ended since `left` rounds were made or there was no further one.
pub data Processed (w : World) (left i : ℕ) (feed : Feed) (r : Option Feed) : Type 0 where
  processed :
      (n : ℕ) (next : Feed)
      → r ≡ some next
      → ((j : ℕ) → j < n → Brings w (i + j))
      → (n ≡ left) ⊎ ((n < left) × Idle w (i + n) feed)
      → IsReady next
      → IsFed w feed (joined w.answers i n) next
      → Processed w left i feed r
