-- ===== src/Exchange/Gaps.antt =====
-- src/server/exchange_simulator.cpp: how far a number of ticks takes the sequence number.
use qode.Base.{
  ℕ, zero, suc, ◌+◌, ◌-◌, ◌/◌, ◌%◌, ◌^◌, ◌<◌, ◌≡◌, refl, ap, ◌∙◌, subst, Bool, true, false, ◌&&◌,
  some, List, [], ◌∷◌, length, if◌then◌else◌, ◌==◌, lt→ltb, u32, arith, Bool-cases, ==→eq, ==→ne,
  inl, inr, >>=-some, ◌>>=◌,
}
use qode.Clients.{ClientManager, broadcast, client_count}
use qode.Clients.Entries.{ClientConnection, Reply, broadcast_loop}
use qode.Parser.RoundTrip.{header_of}
use qode.Generator.{Machine}
use qode.Generator.Price.{IsReliable}
use qode.Generator.Ticks.{HasDoubles, HasSymbols}
use qode.Exchange.Simulator.{enable_fault_injection}
use qode.Exchange.Ticks.{ExchangeSimulator, Turn, generate_and_broadcast_tick, generate_ticks}
use qode.Exchange.Faults.{
  HasGenerator, IsBroadcastTick, generate_and_broadcast_tick-IsBroadcastTick,
}

length-broadcast_loop :
    (threshold len symbol_id now : ℕ) (net : ℕ → Reply) (cs : List ClientConnection)
    → length (broadcast_loop threshold len symbol_id now net cs).1 ≡ length cs
unfolding broadcast_loop
length-broadcast_loop threshold len symbol_id now net [] = refl
length-broadcast_loop threshold len symbol_id now net (c ∷ cs) =
    ap suc (length-broadcast_loop threshold len symbol_id now net cs)

-- A broadcast neither adds nor removes a client.
client_count-broadcast :
    (len symbol_id now : ℕ) (net : ℕ → Reply) (m : ClientManager)
    → client_count (broadcast len symbol_id now net m).1 ≡ client_count m
unfolding client_count broadcast
client_count-broadcast len symbol_id now net m =
    length-broadcast_loop m.slow_threshold len symbol_id now net m.clients

-- How many numbers `n` ticks leave out from a counter `c` on.
abbrev pub gaps : Bool → ℕ → ℕ → ℕ
gaps on c n = if on then (c + n) / 100 - c / 100 else 0

record IsTicked (n : ℕ) (x x' : ExchangeSimulator) : Type 0 where
  numbers :
      x'.tick_gen.sequence
      ≡ u32 (x.tick_gen.sequence + n + gaps x.fault_injection x.fault_skip_counter n)
  counter :
      x'.fault_skip_counter
      ≡ (if x.fault_injection then x.fault_skip_counter + n else x.fault_skip_counter)
  same_injection : x'.fault_injection ≡ x.fault_injection
  same_symbols : x'.tick_gen.num_symbols ≡ x.tick_gen.num_symbols

numbers_suc :
    (on : Bool) (s s1 s2 c c1 n : ℕ)
    → c + suc n < 2 ^ 32
    → s1 ≡ u32 (s + (if on && u32 (c + 1) % 100 == 0 then 1 else 0) + 1)
    → c1 ≡ (if on then u32 (c + 1) else c)
    → s2 ≡ u32 (s1 + n + gaps on c1 n)
    → s2 ≡ u32 (s + suc n + gaps on c (suc n))
numbers_suc true s s1 s2 c c1 n small e k l = elim (Bool-cases (u32 (c + 1) % 100 == 0)) [
  | inl h ↦ omega (arith, ==→eq _ _ h, e ∙ ap (λ b. u32 (s + (if b then 1 else 0) + 1)) h)
  | inr h ↦ omega (arith, ==→ne _ _ h, e ∙ ap (λ b. u32 (s + (if b then 1 else 0) + 1)) h)
]
numbers_suc false s s1 s2 c c1 n small e k l = omega arith

counter_suc :
    (on : Bool) (c c1 c2 n : ℕ)
    → c + suc n < 2 ^ 32
    → c1 ≡ (if on then u32 (c + 1) else c)
    → c2 ≡ (if on then c1 + n else c1)
    → c2 ≡ (if on then c + suc n else c)
counter_suc true c c1 c2 n small k l = omega arith
counter_suc false c c1 c2 n small k l = omega arith

-- One tick and `n` more.
IsTicked-suc :
    (t : Turn) (n : ℕ) (bytes : List ℕ) (x x1 x2 : ExchangeSimulator)
    → x.fault_skip_counter + suc n < 2 ^ 32
    → IsBroadcastTick t x bytes x1
    → IsTicked n x1 x2
    → IsTicked (suc n) x x2
IsTicked-suc t n bytes x x1 x2 small b k =
    let on = x.fault_injection in
    let c1 = x1.fault_skip_counter in
    let later =
      subst (λ o. x2.tick_gen.sequence ≡ u32 (x1.tick_gen.sequence + n + gaps o c1 n))
        b.same_injection k.numbers in
    let later_counter =
      subst (λ o. x2.fault_skip_counter ≡ (if o then c1 + n else c1)) b.same_injection k.counter in
    record {
      numbers =
          numbers_suc on x.tick_gen.sequence x1.tick_gen.sequence x2.tick_gen.sequence
            x.fault_skip_counter c1 n small b.numbers b.counter later;
      counter =
          counter_suc on x.fault_skip_counter c1 x2.fault_skip_counter n small b.counter
            later_counter;
      same_injection = k.same_injection ∙ b.same_injection;
      same_symbols = k.same_symbols ∙ b.same_symbols;
    }

module _ (w : Machine) (rel : IsReliable w) (double : HasDoubles w) (syms : HasSymbols w) where
  generate_ticks-IsTicked :
      (turns : ℕ → Turn) (n i : ℕ) (x : ExchangeSimulator)
      → HasGenerator x
      → 0 < client_count x.client_mgr
      → x.fault_skip_counter + n < 2 ^ 32
      → (x' : ExchangeSimulator) × (generate_ticks w turns n i x ≡ some x') × IsTicked n x x'
  unfolding generate_ticks
  generate_ticks-IsTicked turns zero i x h pos small = (
    x,
    refl,
    record {
      numbers = no_gap x.fault_injection x.tick_gen.sequence x.fault_skip_counter h.sequence_fits;
      counter = no_count x.fault_injection x.fault_skip_counter;
      same_injection = refl;
      same_symbols = refl;
    },
  )
    where
      no_gap : (on : Bool) (s c : ℕ) → s < 2 ^ 32 → s ≡ u32 (s + 0 + gaps on c 0)
      no_gap true s c l = omega arith
      no_gap false s c l = omega arith

      no_count : (on : Bool) (c : ℕ) → c ≡ (if on then c + 0 else c)
      no_count true c = omega arith
      no_count false c = refl
  generate_ticks-IsTicked turns (suc n) i x h pos small =
      let t = turns i in
      let (bytes, x1, e1, b) =
        generate_and_broadcast_tick-IsBroadcastTick w rel double syms t x h in
      let kept : client_count x1.client_mgr ≡ client_count x.client_mgr =
        ap client_count b.clients
        ∙ client_count-broadcast (length bytes) (header_of b.message).symbol_id t.send_time
            t.replies x.client_mgr in
      let counter : x1.fault_skip_counter + n < 2 ^ 32 =
        fits x.fault_injection x.fault_skip_counter x1.fault_skip_counter b.counter small in
      let (x2, e2, k) =
        generate_ticks-IsTicked turns n (i + 1) x1
          (record {
            some_symbols = omega (arith, b.same_symbols, h.some_symbols);
            few_symbols = omega (arith, b.same_symbols, h.few_symbols);
            sequence_fits = omega (arith, b.numbers);
          })
          (omega arith) counter in
      (
        x2,
        ap
              (λ o.
                if o
                then (generate_and_broadcast_tick w t x >>= λ r.
                    generate_ticks w turns n (i + 1) r.1)
                else some x)
              (lt→ltb 0 (client_count x.client_mgr) pos)
            ∙ >>=-some _ e1
            ∙ e2,
        IsTicked-suc t n bytes x x1 x2 small b k,
      )
    where
      fits :
          (on : Bool) (c c1 : ℕ)
          → c1 ≡ (if on then u32 (c + 1) else c)
          → c + suc n < 2 ^ 32
          → c1 + n < 2 ^ 32
      fits true c c1 e l = omega arith
      fits false c c1 e l = omega arith

  -- With a random source that draws a positive number in one of the next rounds and symbols up to
  -- the largest asked for, with quotients that are 64-bit patterns, from 1 to 65536 symbols and at
  -- least one client: `n` ticks have a result. Without fault injection the generator's number is
  -- `n` further; with it, from its start, one number more for each hundred ticks, and the counter
  -- stands at `n`, which is below 2 ^ 32.
  pub generate_ticks-sequence :
      (turns : ℕ → Turn) (n : ℕ) (on : Bool) (x : ExchangeSimulator)
      → HasGenerator x
      → 0 < client_count x.client_mgr
      → n < 2 ^ 32
      → (x' : ExchangeSimulator) × (generate_ticks w turns n 0 (enable_fault_injection on x)
          ≡ some x')
        × (x'.tick_gen.sequence ≡ u32 (x.tick_gen.sequence + n + (if on then n / 100 else 0)))
        × (x'.fault_skip_counter ≡ (if on then n else 0))
  unfolding enable_fault_injection
  generate_ticks-sequence turns n on x h pos small =
      let (x', e, k) =
        generate_ticks-IsTicked turns n 0
          (record x { fault_injection = on; fault_skip_counter = 0 })
          (record {
            some_symbols = h.some_symbols;
            few_symbols = h.few_symbols;
            sequence_fits = h.sequence_fits;
          })
          pos (omega arith) in
      (
        x',
        e,
        numbers on x.tick_gen.sequence x'.tick_gen.sequence k.numbers,
        counter on x'.fault_skip_counter k.counter,
      )
    where
      numbers :
          (b : Bool) (s s' : ℕ)
          → s' ≡ u32 (s + n + gaps b 0 n)
          → s' ≡ u32 (s + n + (if b then n / 100 else 0))
      numbers true s s' l = omega arith
      numbers false s s' l = omega arith

      counter : (b : Bool) (c : ℕ) → c ≡ (if b then 0 + n else 0) → c ≡ (if b then n else 0)
      counter true c l = omega arith
      counter false c l = l
