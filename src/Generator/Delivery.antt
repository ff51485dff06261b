-- ===== src/Generator/Delivery.antt =====
-- From src/server/tick_generator.cpp to src/client/parser.cpp: what the generator writes is a feed
-- that the client's parser reads back.
use qode.Base.{
  ℕ, suc, ◌+◌, ◌≤◌, ◌<◌, ◌^◌, ◌≡◌, refl, ap, ◌∙◌, subst, Option, some, List, [], ◌∷◌, ◌++◌, length,
  map, ◌>>=◌, >>=-some, arith, u32, append-nil,
}
use qode.Parser.{Tracking, need_more, next_frame}
use qode.Parser.Stream.{Decodes, frame_of}
use qode.Parser.RoundTrip.{
  Message, encode_all, event_of, IsFeed, Expects, AllSet, IsAfter, Decodes-encode_all,
}
use qode.Generator.{Machine, TickGenerator, generate_tick, generate_heartbeat}
use qode.Generator.Price.{IsReliable}
use qode.Generator.Ticks.{HasDoubles, HasSymbols, generate_tick-IsTick, generate_heartbeat-IsTick}

-- What is asked of the generator, and when.
pub data Output : Type 0 where
  tick_at heartbeat_at : ℕ → Output

-- The bytes of a sequence of outputs, behind one another.
unfoldable pub write_all : Machine → List Output → TickGenerator → Option (List ℕ × TickGenerator)
write_all w [] g = some ([], g)
write_all w (tick_at now ∷ outputs) g =
    generate_tick w now g >>= λ r. write_all w outputs r.2 >>= λ s. some (r.1 ++ s.0, s.1)
write_all w (heartbeat_at now ∷ outputs) g =
    let r = generate_heartbeat now g in write_all w outputs r.1 >>= λ s. some (r.0 ++ s.0, s.1)

pub nothing-need_more : frame_of [] ≡ need_more
unfolding next_frame
nothing-need_more = ground arith

module _ (w : Machine) (rel : IsReliable w) (double : HasDoubles w) (syms : HasSymbols w) where
  -- The outputs are written, as a feed from the next number on.
  pub write_all-IsFeed :
      (outputs : List Output) (g : TickGenerator)
      → 0 < g.num_symbols
      → g.num_symbols ≤ 2 ^ 16
      → (ms : List Message) × (g' : TickGenerator) × (write_all w outputs g
          ≡ some (encode_all ms, g'))
        × IsFeed (u32 (g.sequence + 1)) ms
        × (length ms ≡ length outputs)
  unfolding write_all
  write_all-IsFeed [] g pos few = ([], g, refl, tt, refl)
  write_all-IsFeed (tick_at now ∷ outputs) g pos few =
      let (id, bytes, g1, e1, inside, t) = generate_tick-IsTick w double now g rel syms pos few in
      let (ms, g2, e2, feed, n) =
        write_all-IsFeed outputs g1 (omega (arith, t.same_count)) (omega (arith, t.same_count)) in
      (
        t.message ∷ ms,
        g2,
        >>=-some _ e1 ∙ >>=-some _ e2 ∙ ap (λ bs. some (bs ++ encode_all ms, g2)) t.encoded,
        (t.fits, t.numbered, subst (λ s. IsFeed (u32 (s + 1)) ms) t.counted feed),
        ap suc n,
      )
  write_all-IsFeed (heartbeat_at now ∷ outputs) g pos few =
      let t = generate_heartbeat-IsTick now g in
      let (bytes, g1) = generate_heartbeat now g in
      let (ms, g2, e2, feed, n) =
        write_all-IsFeed outputs g1 (omega (arith, t.same_count)) (omega (arith, t.same_count)) in
      (
        t.message ∷ ms,
        g2,
        >>=-some _ e2 ∙ ap (λ bs. some (bs ++ encode_all ms, g2)) t.encoded,
        (t.fits, t.numbered, subst (λ s. IsFeed (u32 (s + 1)) ms) t.counted feed),
        ap suc n,
      )

  -- From the exchange to the client. With a random source that draws a positive number in one of
  -- the next rounds and symbols up to the largest asked for, with quotients that are 64-bit
  -- patterns, and from 1 to 65536 symbols: any sequence of ticks and heartbeats, at any times, is
  -- written, and a parser whose callbacks are set and that is new or expects the generator's next
  -- number decodes from the bytes as many messages as there were outputs, each one a callback in
  -- the order of writing, with no gap, no checksum error, nothing malformed and nothing left.
  pub write_all-Decodes :
      (outputs : List Output) (g : TickGenerator) (t : Tracking)
      → 0 < g.num_symbols
      → g.num_symbols ≤ 2 ^ 16
      → Expects t (u32 (g.sequence + 1))
      → AllSet t.callbacks
      → t.messages_parsed < 2 ^ 64
      → (ms : List Message) × (g' : TickGenerator) × (t' : Tracking) × (write_all w outputs g
          ≡ some (encode_all ms, g'))
        × Decodes t' [] t (encode_all ms) (length outputs) (map event_of ms)
        × IsAfter (length outputs) t t'
  write_all-Decodes outputs g t pos few next set small =
      let (ms, g', e, feed, n) = write_all-IsFeed outputs g pos few in
      let (t', d, a) =
        Decodes-encode_all ms (u32 (g.sequence + 1)) t [] nothing-need_more feed next set small in
      (
        ms,
        g',
        t',
        e,
        subst (λ bs. Decodes t' [] t bs (length outputs) (map event_of ms))
            (append-nil (encode_all ms))
            (subst (λ c. Decodes t' [] t (encode_all ms ++ []) c (map event_of ms)) n d),
        subst (λ c. IsAfter c t t') n a,
      )
