-- ===== src/Generator/Ticks.antt =====
-- A tick of src/server/tick_generator.cpp is a message of the protocol with the next number.
use qode.Base.{
  ℕ, ◌+◌, ◌≤◌, ◌<◌, ◌^◌, ◌≡◌, refl, sym, subst, List, some, u16, u32, u64, get_or, set, >>=-some,
  if-elim, arith,
}
use qode.Protocol.{MessageHeader, from_message_type}
use qode.Protocol.Layout.{IsHeader}
use qode.Parser.RoundTrip.{Message, trade_of, quote_of, heartbeat_of, encode, header_of, IsMessage}
use qode.Generator.{
  SymbolState, Noise, Machine, TickGenerator, write_tick, generate_trade, generate_quote,
  generate_tick_for_symbol, generate_tick, generate_heartbeat, round_cents, empty_symbol, draw,
}
use qode.Generator.Price.{
  tick_for_inside, IsReliable, IsMoved, update_price-IsMoved, change_quantity-IsLot,
}

-- A quotient is a 64-bit pattern.
abbrev pub HasDoubles : Machine → Type 0
HasDoubles w = (x y : ℕ) → w.arithmetic.div x y < 2 ^ 64

-- The random symbol is not above the largest one that was asked for.
abbrev pub HasSymbols : Machine → Type 0
HasSymbols w = (largest n : ℕ) → w.any_symbol largest n ≤ largest

-- The bytes are one message on the symbol, which carries the next number, and the generator has
-- moved on to that number.
pub record IsTick (symbol_id : ℕ) (bytes : List ℕ) (g g' : TickGenerator) : Type 0 where
  pub message : Message
  pub encoded : bytes ≡ encode message
  pub fits : IsMessage message
  pub numbered : (header_of message).sequence_number ≡ u32 (g.sequence + 1)
  pub of_symbol : (header_of message).symbol_id ≡ symbol_id
  pub counted : g'.sequence ≡ u32 (g.sequence + 1)
  pub same_count : g'.num_symbols ≡ g.num_symbols

-- Bid and ask fit their fields.
record HasPrices (s : SymbolState) : Type 0 where
  bid_fits : s.bid_price < 2 ^ 64
  ask_fits : s.ask_price < 2 ^ 64

module _ (w : Machine) (h : HasDoubles w) where
  round_cents-lt : (x : ℕ) → round_cents w x < 2 ^ 64
  unfolding round_cents
  round_cents-lt x = h _ _

  moved-HasPrices : (dt z : ℕ) (s s' : SymbolState) → IsMoved w dt z s s' → HasPrices s'
  moved-HasPrices dt z s s' m =
      let (x, bid) = m.bid_rounded in
      let (y, ask) = m.ask_rounded in
      record {
        bid_fits = subst (λ p. p < 2 ^ 64) (sym bid) (round_cents-lt _);
        ask_fits = subst (λ p. p < 2 ^ 64) (sym ask) (round_cents-lt _);
      }

  write_tick-IsTick :
      (symbol_id now : ℕ) (s : SymbolState) (g : TickGenerator)
      → symbol_id < 2 ^ 16
      → HasPrices s
      → let r = write_tick w symbol_id now s g in IsTick symbol_id r.0 g r.1
  unfolding write_tick generate_trade generate_quote from_message_type
  write_tick-IsTick symbol_id now s g small v =
      let (u, k) = draw w.uniform g.noise in
      let header : MessageHeader = record {
        message_type = 0;
        sequence_number = u32 (g.sequence + 1);
        timestamp_ns = u64 now;
        symbol_id = symbol_id;
      } in
      let header_fits : (t : ℕ) → t < 4 → IsHeader (record header { message_type = t }) = λ t l.
        record {
          type_fits = omega arith;
          sequence_fits = omega arith;
          timestamp_fits = omega arith;
          symbol_fits = small;
        } in
      if-elim
        (λ (r : List ℕ × SymbolState × Noise). IsTick symbol_id r.0 g (record g {
          sequence = u32 (g.sequence + 1);
          symbols = set g.symbols symbol_id r.1;
          noise = r.2;
        }))
        (w.arithmetic.less u (w.arithmetic.literal 3 1))
        (λ t. record {
          message = trade_of _ _;
          encoded = refl;
          fits = (
            (header_fits 1 (omega arith), refl),
            record { price_fits = round_cents-lt _; quantity_fits = omega arith },
          );
          numbered = refl;
          of_symbol = refl;
          counted = refl;
          same_count = refl;
        })
        (λ t. record {
          message = quote_of _ _;
          encoded = refl;
          fits = (
            (header_fits 2 (omega arith), refl),
            record {
              bid_fits = v.bid_fits;
              bid_quantity_fits = omega (arith, change_quantity-IsLot w s.bid_quantity _);
              ask_fits = v.ask_fits;
              ask_quantity_fits = omega (arith, change_quantity-IsLot w s.ask_quantity _);
            },
          );
          numbered = refl;
          of_symbol = refl;
          counted = refl;
          same_count = refl;
        })

  -- A tick of a symbol that exists.
  generate_tick_for_symbol-IsTick :
      (symbol_id now : ℕ) (g : TickGenerator)
      → IsReliable w
      → symbol_id < g.num_symbols
      → symbol_id < 2 ^ 16
      → (bytes : List ℕ) × (g' : TickGenerator) × (generate_tick_for_symbol w symbol_id now g
          ≡ some (bytes, g'))
        × IsTick symbol_id bytes g g'
  generate_tick_for_symbol-IsTick symbol_id now g rel inside small =
      let s0 = get_or g.symbols symbol_id empty_symbol in
      let (z, s, k, e, m, c) = update_price-IsMoved w g.dt s0 g.noise rel in
      let t =
        write_tick-IsTick symbol_id now s (record g { noise = k }) small
          (moved-HasPrices g.dt z s0 s m) in
      (
        _,
        _,
        tick_for_inside w symbol_id now g s k inside e,
        record {
          message = t.message;
          encoded = t.encoded;
          fits = t.fits;
          numbered = t.numbered;
          of_symbol = t.of_symbol;
          counted = t.counted;
          same_count = t.same_count;
        },
      )

  -- With a random source that draws a positive number in one of the next rounds and symbols up to
  -- the largest asked for, with quotients that are 64-bit patterns, and from 1 to 65536 symbols,
  -- `generate_tick` has a result: the bytes of one message on an existing symbol whose fields all
  -- fit, with the next sequence number.
  pub generate_tick-IsTick :
      (now : ℕ) (g : TickGenerator)
      → IsReliable w
      → HasSymbols w
      → 0 < g.num_symbols
      → g.num_symbols ≤ 2 ^ 16
      → (symbol_id : ℕ) × (bytes : List ℕ) × (g' : TickGenerator) × (generate_tick w now g
          ≡ some (symbol_id, bytes, g'))
        × (symbol_id < g.num_symbols)
        × IsTick symbol_id bytes g g'
  unfolding generate_tick
  generate_tick-IsTick now g rel syms some_symbols few =
      let (id, k) = draw (w.any_symbol (u16 (g.num_symbols + 65535))) g.noise in
      let inside : id < g.num_symbols =
        omega (arith, syms (u16 (g.num_symbols + 65535)) g.noise.draws) in
      let (bytes, g', e, t) =
        generate_tick_for_symbol-IsTick id now (record g { noise = k }) rel inside (omega arith) in
      (
        id,
        bytes,
        g',
        >>=-some _ e,
        inside,
        record {
          message = t.message;
          encoded = t.encoded;
          fits = t.fits;
          numbered = t.numbered;
          of_symbol = t.of_symbol;
          counted = t.counted;
          same_count = t.same_count;
        },
      )

-- A heartbeat takes a number of the same row.
pub generate_heartbeat-IsTick :
    (now : ℕ) (g : TickGenerator) → let r = generate_heartbeat now g in IsTick 0 r.0 g r.1
unfolding generate_heartbeat from_message_type
generate_heartbeat-IsTick now g = record {
  message = heartbeat_of _;
  encoded = refl;
  fits = (
    record {
      type_fits = omega arith;
      sequence_fits = omega arith;
      timestamp_fits = omega arith;
      symbol_fits = omega arith;
    },
    refl,
  );
  numbered = refl;
  of_symbol = refl;
  counted = refl;
  same_count = refl;
}
