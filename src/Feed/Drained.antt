-- ===== src/Feed/Drained.antt =====
-- `process_data` where all that has arrived is taken: the rounds end by the lack of bytes only.
use qode.Base.{
  ℕ, ◌+◌, ◌<◌, ◌^◌, ◌≡◌, sym, ap, ◌∙◌, subst, true, some, List, ◌++◌, length, arith, inl, inr, ◌⊎◌,
  false, dec_lt,
}
use qode.Parser.{unread, need_more}
use qode.Parser.Stream.{frame_of}
use qode.Parser.RoundTrip.{Message, encode_all, IsFeed, Expects, AllSet}
use qode.Socket.{would_block}
use qode.Cache.Updates.{IsQuiet}
use qode.Feed.{World, Feed, process_data, max_iterations}
use qode.Feed.Chunk.{IsReady, IsFed}
use qode.Feed.Process.{process_data-Processed}
use qode.Feed.Rounds.{goes, is_open, is_received, Brings, Idle, processed}
use qode.Feed.Answers.{Fits, bytes_of, joined}
use qode.Feed.Delivery.{IsDelivered, IsFed-IsDelivered}
use qode.Feed.View.{IsShown, seen_all, handle_events-IsShown}

-- The handler runs on an open connection and has the time for it; the first `n` answers, fewer than
-- a call can take, bring bytes, and then there are none for now.
pub record IsBurst (w : World) (feed : Feed) (n : ℕ) : Type 0 where
  pub fits : Fits w
  pub few : n < max_iterations
  pub runs : (i : ℕ) → goes w i ≡ true
  pub opened : is_open feed.socket ≡ true
  pub filled : (i : ℕ) → i < n → 0 < length (bytes_of (w.answers i))
  pub ended : w.answers n ≡ would_block

module _ (w : World) (feed : Feed) (n : ℕ) (b : IsBurst w feed n) where
  not_early : (k : ℕ) → k < n → Idle w k feed → ⊥
  not_early k h (inl off) = let e : true ≡ false = sym (b.runs k) ∙ off in cc
  not_early k h (inr (inl empty)) = omega (arith, b.filled k h, ap (length {0}) empty)
  not_early k h (inr (inr shut)) = let e : true ≡ false = sym b.opened ∙ shut in cc

  not_late : (k : ℕ) → ((j : ℕ) → j < k → Brings w (0 + j)) → n < k → ⊥
  not_late k went h =
      let at_n = subst (Brings w) (let e : 0 + n ≡ n = omega arith in e) (went n h) in
      let e : is_received would_block ≡ true = subst (λ a. is_received a ≡ true) b.ended at_n.1 in
      cc

  all_taken :
      (k : ℕ)
      → ((j : ℕ) → j < k → Brings w (0 + j))
      → (k ≡ max_iterations) ⊎ ((k < max_iterations) × Idle w (0 + k) feed)
      → k ≡ n
  all_taken k went (inl full) = absurd (not_late k went (omega (arith, full, b.few)))
  all_taken k went (inr (h, why)) = elim (dec_lt k n) [
    | yes early ↦
        absurd (
          not_early k early (subst (λ i. Idle w i feed) (let e : 0 + k ≡ k = omega arith in e) why))
    | no late ↦ elim (dec_lt n k) [
      | yes later ↦ absurd (not_late k went later)
      | no same ↦ omega arith
    ]
  ]

  process_data-drains :
      IsReady feed
      → (next : Feed) × (process_data w feed ≡ some next)
        × IsReady next
        × IsFed w feed (joined w.answers 0 n) next
  process_data-drains v = elim (process_data-Processed w feed b.fits v) [
    | processed k next e went why ready fed ↦ (
      next,
      e,
      ready,
      subst (λ i. IsFed w feed (joined w.answers 0 i) next) (all_taken k went why) fed,
    )
  ]

-- What the client knows after a burst.
pub record IsInformed (w : World) (ms : List Message) (rest : List ℕ) (feed next : Feed) (j : ℕ)
    : Type 0 where
  pub ready : IsReady next
  pub delivered : IsDelivered w ms rest feed next
  pub shown : IsShown j (seen_all w.arithmetic j ms) feed.market.cache next.market.cache

-- From the exchange's messages to the client's knowledge, however the network cuts them: where the
-- handler runs on an open connection and has the time, and answers of `recv`, fewer than 1000 and
-- none of them longer than its buffer, bring together what completes messages of the exchange,
-- their fields fitting their widths and numbered as the parser expects, with its callbacks set:
-- then `process_data` takes it all. Each message is handled once, in order, with no gap, no
-- checksum error and nothing malformed, and the bytes of an incomplete one stay unread. Where no
-- update of the cache was going on, none is afterwards, and the snapshot of a symbol of the cache
-- is the old one with each trade and each quote on that symbol in it, in their order, and nothing
-- else.
pub process_data-IsInformed :
    (w : World) (feed : Feed) (n : ℕ) (ms : List Message) (s : ℕ) (rest : List ℕ) (j : ℕ)
    → IsBurst w feed n
    → IsReady feed
    → IsQuiet feed.market.cache
    → j < feed.market.cache.num_symbols
    → unread feed.parser ++ joined w.answers 0 n ≡ encode_all ms ++ rest
    → frame_of rest ≡ need_more
    → IsFeed s ms
    → Expects feed.parser.tracking s
    → AllSet feed.parser.tracking.callbacks
    → feed.parser.tracking.messages_parsed < 2 ^ 64
    → (next : Feed) × (process_data w feed ≡ some next) × IsInformed w ms rest feed next j
process_data-IsInformed w feed n ms s rest j b v quiet inside stream end numbered expects set
      small =
    let (next, e, ready, fed) = process_data-drains w feed n b v in
    let d =
      IsFed-IsDelivered w feed (joined w.answers 0 n) ms s rest stream end numbered expects set
        small next fed in
    (
      next,
      e,
      record {
        ready = ready;
        delivered = d;
        shown =
            subst (λ m. IsShown j (seen_all w.arithmetic j ms) feed.market.cache m.cache)
              (sym d.handled) (handle_events-IsShown w j ms feed.market quiet inside);
      },
    )
