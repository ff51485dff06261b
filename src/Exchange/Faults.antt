-- ===== src/Exchange/Faults.antt =====
-- src/server/exchange_simulator.cpp: the numbers of the ticks, with and without fault injection.
use qode.Base.{
  ℕ, ◌+◌, ◌%◌, ◌^◌, ◌≤◌, ◌<◌, ◌≡◌, refl, ◌∙◌, ◌&&◌, some, List, length, if◌then◌else◌, ◌==◌, add64,
  u32, arith, Bool-cases, inl, inr, >>=-some,
}
use qode.Clients.{broadcast}
use qode.Parser.RoundTrip.{Message, encode, header_of, IsMessage}
use qode.Generator.{Machine}
use qode.Generator.Price.{IsReliable}
use qode.Generator.Ticks.{HasDoubles, HasSymbols, generate_tick-IsTick}
use qode.Exchange.Ticks.{ExchangeSimulator, Turn, inject_fault, generate_and_broadcast_tick}

-- From 1 to 65536 symbols, and a sequence number of 32 bits.
pub record HasGenerator (x : ExchangeSimulator) : Type 0 where
  pub some_symbols : 0 < x.tick_gen.num_symbols
  pub few_symbols : x.tick_gen.num_symbols ≤ 2 ^ 16
  pub sequence_fits : x.tick_gen.sequence < 2 ^ 32

-- How many numbers the fault injection takes before the next tick.
abbrev pub skipped : ExchangeSimulator → ℕ
skipped x = if x.fault_injection && u32 (x.fault_skip_counter + 1) % 100 == 0 then 1 else 0

abbrev pub counted : ExchangeSimulator → ℕ
counted x = if x.fault_injection then u32 (x.fault_skip_counter + 1) else x.fault_skip_counter

-- What does not change but the generator.
record IsInjected (x x' : ExchangeSimulator) : Type 0 where
  numbers : x'.tick_gen.sequence ≡ u32 (x.tick_gen.sequence + skipped x)
  counter : x'.fault_skip_counter ≡ counted x
  same_symbols : x'.tick_gen.num_symbols ≡ x.tick_gen.num_symbols
  same_clients : x'.client_mgr ≡ x.client_mgr
  same_injection : x'.fault_injection ≡ x.fault_injection
  same_messages : x'.messages_sent ≡ x.messages_sent
  same_bytes : x'.bytes_sent ≡ x.bytes_sent

-- A tick that is broadcast: one message on one symbol, behind the numbers that are left out, and
-- the state behind it.
pub record IsBroadcastTick (t : Turn) (x : ExchangeSimulator) (bytes : List ℕ)
    (x' : ExchangeSimulator) : Type 0 where
  pub message : Message
  pub encoded : bytes ≡ encode message
  pub fits : IsMessage message
  pub numbered : (header_of message).sequence_number ≡ u32 (x.tick_gen.sequence + skipped x + 1)
  pub numbers : x'.tick_gen.sequence ≡ u32 (x.tick_gen.sequence + skipped x + 1)
  pub counter : x'.fault_skip_counter ≡ counted x
  pub same_injection : x'.fault_injection ≡ x.fault_injection
  pub same_symbols : x'.tick_gen.num_symbols ≡ x.tick_gen.num_symbols
  pub clients :
      x'.client_mgr
      ≡ (broadcast
          (length bytes)
          (header_of message).symbol_id
          t.send_time
          t.replies
          x.client_mgr).1
  pub messages :
      x'.messages_sent
      ≡ add64 x.messages_sent
          (broadcast
            (length bytes)
            (header_of message).symbol_id
            t.send_time
            t.replies
            x.client_mgr).0

module _ (w : Machine) (rel : IsReliable w) (double : HasDoubles w) (syms : HasSymbols w) where
  inject_fault-IsInjected :
      (now : ℕ) (x : ExchangeSimulator)
      → HasGenerator x
      → (x' : ExchangeSimulator) × (inject_fault w now x ≡ some x') × IsInjected x x'
  unfolding inject_fault
  inject_fault-IsInjected now x h =
      let (id, bytes, g, e, inside, t) =
        generate_tick-IsTick w double now x.tick_gen rel syms h.some_symbols h.few_symbols in
      let c : ℕ = u32 (x.fault_skip_counter + 1) in
      elim (Bool-cases x.fault_injection) [
        | inr off ↦ (
          x,
          rw off refl,
          record {
            numbers = rw off (omega (arith, h.sequence_fits));
            counter = rw off refl;
            same_symbols = refl;
            same_clients = refl;
            same_injection = refl;
            same_messages = refl;
            same_bytes = refl;
          },
        )
        | inl on ↦ elim (Bool-cases (c % 100 == 0)) [
          | inr other ↦ (
            record x { fault_skip_counter = c },
            rw (on, other) refl,
            record {
              numbers = rw (on, other) (omega (arith, h.sequence_fits));
              counter = rw on refl;
              same_symbols = refl;
              same_clients = refl;
              same_injection = refl;
              same_messages = refl;
              same_bytes = refl;
            },
          )
          | inl hundredth ↦ (
            record x { fault_skip_counter = c; tick_gen = g },
            rw (on, hundredth, e) refl,
            record {
              numbers = rw (on, hundredth) t.counted;
              counter = rw on refl;
              same_symbols = t.same_count;
              same_clients = refl;
              same_injection = refl;
              same_messages = refl;
              same_bytes = refl;
            },
          )
        ]
      ]

  -- With a random source that draws a positive number in one of the next rounds and symbols up to
  -- the largest asked for, with quotients that are 64-bit patterns, and from 1 to 65536 symbols: a
  -- tick has a result. One message is broadcast, to the clients of its symbol, and counted; its
  -- number is the next one, or the one after it where fault injection is on and its counter comes
  -- to a multiple of 100.
  pub generate_and_broadcast_tick-IsBroadcastTick :
      (t : Turn) (x : ExchangeSimulator)
      → HasGenerator x
      → (bytes : List ℕ) × (x' : ExchangeSimulator) × (generate_and_broadcast_tick w t x
          ≡ some (bytes, x'))
        × IsBroadcastTick t x bytes x'
  unfolding generate_and_broadcast_tick
  generate_and_broadcast_tick-IsBroadcastTick t x h =
      let (x1, e1, i) = inject_fault-IsInjected t.skip_time x h in
      let (id, bytes, g, e2, inside, k) =
        generate_tick-IsTick w double t.tick_time x1.tick_gen rel syms
          (omega (arith, i.same_symbols, h.some_symbols))
          (omega (arith, i.same_symbols, h.few_symbols)) in
      (
        bytes,
        _,
        >>=-some _ e1 ∙ >>=-some _ e2,
        record {
          message = k.message;
          encoded = k.encoded;
          fits = k.fits;
          numbered = k.numbered ∙ omega (arith, i.numbers);
          numbers = k.counted ∙ omega (arith, i.numbers);
          counter = i.counter;
          same_injection = i.same_injection;
          same_symbols = k.same_count ∙ i.same_symbols;
          clients = rw (k.of_symbol, i.same_clients) refl;
          messages = rw (k.of_symbol, i.same_clients, i.same_messages) refl;
        },
      )
