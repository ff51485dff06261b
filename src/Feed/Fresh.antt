-- ===== src/Feed/Fresh.antt =====
-- src/client/feed_handler.cpp: a handler that has just been made is ready for bytes.
use qode.Base.{ℕ, ◌≤◌, ◌<◌, ◌^◌, ◌≡◌, refl, subst, sym, inl, [], length-replicate, arith}
use qode.Parser.{Callbacks, new_parser, unread, need_more, next_frame, initial_buffer_size}
use qode.Parser.Buffer.{IsWindow}
use qode.Parser.Growth.{HasCapacity}
use qode.Parser.Stream.{frame_of}
use qode.Feed.{Feed}
use qode.Feed.Chunk.{IsReady}

zero_le : (n : ℕ) → 0 ≤ n
zero_le n = omega arith

module _ (cbs : Callbacks) where
  pub new_parser-IsWindow : IsWindow (new_parser cbs)
  unfolding new_parser
  new_parser-IsWindow = record { ordered = zero_le 0; within = zero_le _ }

  pub new_parser-HasCapacity : HasCapacity (new_parser cbs)
  unfolding new_parser
  new_parser-HasCapacity = inl (length-replicate initial_buffer_size (let z : ℕ = 0 in z))

  pub new_parser-unread : unread (new_parser cbs) ≡ []
  unfolding new_parser unread
  new_parser-unread = refl

  nothing : frame_of [] ≡ need_more
  nothing = unfold next_frame in ground arith

  -- A feed whose parser is new and whose counters fit 64 bits.
  pub new_parser-IsReady :
      (feed : Feed)
      → feed.parser ≡ new_parser cbs
      → feed.messages_received < 2 ^ 64
      → feed.bytes_received < 2 ^ 64
      → IsReady feed
  new_parser-IsReady feed e messages bytes = record {
    window = subst IsWindow (sym e) new_parser-IsWindow;
    capacity = subst HasCapacity (sym e) new_parser-HasCapacity;
    no_frame = subst (λ p. frame_of (unread p) ≡ need_more) (sym e) (rw new_parser-unread nothing);
    messages_fit = messages;
    bytes_fit = bytes;
  }
