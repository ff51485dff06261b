-- ===== src/Feed/Answers.antt =====
-- What `recv` brings in the rounds of `process_data` of src/client/feed_handler.cpp.
use qode.Base.{ℕ, zero, suc, ◌+◌, ◌≤◌, List, [], ◌++◌, length}
use qode.Parser.{initial_buffer_size}
use qode.Socket.{RecvResult, received, closed, would_block, failed}
use qode.Feed.{World}

-- The bytes of an answer.
abbrev pub bytes_of : RecvResult → List ℕ
bytes_of (received bytes) = bytes
bytes_of closed = []
bytes_of would_block = []
bytes_of failed = []

-- The bytes of `n` answers from number `i` on.
abbrev pub joined : (ℕ → RecvResult) → ℕ → ℕ → List ℕ
joined answers i zero = []
joined answers i (suc n) = bytes_of (answers i) ++ joined answers (i + 1) n

-- `recv` writes no more than the buffer holds.
unfoldable pub Fits : World → Type 0
Fits w = (i : ℕ) → length (bytes_of (w.answers i)) ≤ initial_buffer_size
