-- ===== src/Exchange/Rounds.antt =====
-- src/server/exchange_simulator.cpp: the rounds of the main loop get through.
use qode.Base.{
  ℕ, zero, suc, ◌+◌, ◌-◌, ◌^◌, ◌≤◌, ◌<◌, ◌≡◌, refl, sym, ◌∙◌, subst, ◌&&◌, Option, some, List, [],
  ◌∷◌, length, if◌then◌else◌, ltb, leb, arith, if-elim, >>=-some,
}
use qode.Clients.Steps.{Reachable, next, broadcasted}
use qode.Clients.{client_count, get_all_client_fds}
use qode.Generator.{Machine, generate_heartbeat}
use qode.Generator.Price.{IsReliable}
use qode.Parser.RoundTrip.{header_of}
use qode.Generator.Symbols.{Reachable as IsGenerator, beat}
use qode.Generator.Ticks.{HasDoubles, HasSymbols}
use qode.Exchange.Simulator.{
  Startup, Round, Loop, run_ticks, run_heartbeat, run_events, end_round, run_round, run_loop, run,
  stop, start as start_up, init_server_socket, init_event_system,
}
use qode.Exchange.Ticks.{
  ExchangeSimulator, Turn, generate_and_broadcast_tick, generate_ticks, send_heartbeat,
  tick_interval, ticks_to_generate,
}
use qode.Exchange.Faults.{generate_and_broadcast_tick-IsBroadcastTick}
use qode.Exchange.Steps.{IsSound, tick-IsGenerator, handle_events-Reachable, send_to_all-Reachable}

module _ (w : Machine) (rel : IsReliable w) (double : HasDoubles w) (syms : HasSymbols w)
    (d : ℕ) where
  tick-IsSound :
      (t : Turn) (x : ExchangeSimulator)
      → IsSound w d x
      → (bytes : List ℕ) × (x' : ExchangeSimulator) × (generate_and_broadcast_tick w t x
          ≡ some (bytes, x'))
        × IsSound w d x'
  tick-IsSound t x h =
      let g = h.generator in
      let (bytes, x', e, b) = generate_and_broadcast_tick-IsBroadcastTick w rel double syms t x g in
      (
        bytes,
        x',
        e,
        record {
          clients = subst Reachable (sym b.clients) (
              next h.clients
                (broadcasted (length bytes) (header_of b.message).symbol_id t.send_time t.replies));
          ticks = tick-IsGenerator w d t x x' bytes h.ticks e;
          generator = record {
            some_symbols = omega (arith, b.same_symbols, g.some_symbols);
            few_symbols = omega (arith, b.same_symbols, g.few_symbols);
            sequence_fits = omega (arith, b.numbers);
          };
        },
      )

  generate_ticks-IsSound :
      (turns : ℕ → Turn) (n i : ℕ) (x : ExchangeSimulator)
      → IsSound w d x
      → (x' : ExchangeSimulator) × (generate_ticks w turns n i x ≡ some x') × IsSound w d x'
  unfolding generate_ticks
  generate_ticks-IsSound turns zero i x h = (x, refl, h)
  generate_ticks-IsSound turns (suc n) i x h =
      let (bytes, x1, e1, h1) = tick-IsSound (turns i) x h in
      let (x2, e2, h2) = generate_ticks-IsSound turns n (i + 1) x1 h1 in
      if-elim
        (λ (o : Option ExchangeSimulator).
          (x' : ExchangeSimulator) × (o ≡ some x') × IsSound w d x')
        (ltb 0 (client_count x.client_mgr)) (λ _. (x2, >>=-some _ e1 ∙ e2, h2)) (λ _. (x, refl, h))

  run_ticks-IsSound :
      (interval : ℕ) (r : Round) (l : Loop)
      → IsSound w d l.simulator
      → (l' : Loop) × (run_ticks w interval r l ≡ some l') × IsSound w d l'.simulator
  unfolding run_ticks
  run_ticks-IsSound interval r l h =
      let elapsed = r.now - l.last_tick in
      let (x, e, h') =
        generate_ticks-IsSound r.turns (ticks_to_generate elapsed interval) 0 l.simulator h in
      if-elim (λ (o : Option Loop). (l' : Loop) × (o ≡ some l') × IsSound w d l'.simulator)
        (leb interval elapsed)
        (λ _. (record l { simulator = x; last_tick = r.now }, >>=-some _ e, h')) (λ _. (l, refl, h))

  run_heartbeat-IsSound :
      (r : Round) (l : Loop) → IsSound w d l.simulator → IsSound w d (run_heartbeat r l).simulator
  unfolding run_heartbeat send_heartbeat generate_heartbeat
  run_heartbeat-IsSound r l h =
      let g = h.generator in
      if-elim (λ (l' : Loop). IsSound w d l'.simulator) (leb 1000000000 (r.now - l.last_heartbeat))
        (λ _. record {
          clients =
              send_to_all-Reachable (get_all_client_fds l.simulator.client_mgr)
                (length (generate_heartbeat r.heartbeat_time l.simulator.tick_gen).0)
                r.heartbeat_replies l.simulator.client_mgr h.clients;
          ticks = beat r.heartbeat_time h.ticks;
          generator = record {
            some_symbols = g.some_symbols;
            few_symbols = g.few_symbols;
            sequence_fits = omega arith;
          };
        })
        (λ _. h)

  same_parts :
      (x x' : ExchangeSimulator)
      → x'.tick_gen ≡ x.tick_gen
      → Reachable x'.client_mgr
      → IsSound w d x
      → IsSound w d x'
  same_parts x x' e r h =
      let g = h.generator in
      record {
        clients = r;
        ticks = subst (IsGenerator w d) (sym e) h.ticks;
        generator = record {
          some_symbols = subst (λ t. 0 < t.num_symbols) (sym e) g.some_symbols;
          few_symbols = subst (λ t. t.num_symbols ≤ 2 ^ 16) (sym e) g.few_symbols;
          sequence_fits = subst (λ t. t.sequence < 2 ^ 32) (sym e) g.sequence_fits;
        };
      }

  pub run_round-IsSound :
      (interval : ℕ) (r : Round) (l : Loop)
      → IsSound w d l.simulator
      → (l' : Loop) × (run_round w interval r l ≡ some l') × IsSound w d l'.simulator
  unfolding run_round run_events end_round stop
  run_round-IsSound interval r l h =
      let x = l.simulator in
      let (l1, e, h1) = run_ticks-IsSound interval r (run_events r l) (
        same_parts x (run_events r l).simulator refl
          (handle_events-Reachable r.events x.client_mgr h.clients) h) in
      let h2 = run_heartbeat-IsSound r l1 h1 in
      let l2 = run_heartbeat r l1 in
      (
        _,
        >>=-some _ e,
        if-elim (λ (l' : Loop). IsSound w d l'.simulator) r.stops
            (λ _. same_parts l2.simulator (stop l2.simulator) refl h2.clients h2) (λ _. h2),
      )

  run_loop-IsSound :
      (interval : ℕ) (rs : List Round) (l : Loop)
      → IsSound w d l.simulator
      → (l' : Loop) × (run_loop w interval rs l ≡ some l') × IsSound w d l'.simulator
  unfolding run_loop
  run_loop-IsSound interval [] l h = (l, refl, h)
  run_loop-IsSound interval (r ∷ rs) l h =
      let (l1, e1, h1) = run_round-IsSound interval r l h in
      let (l2, e2, h2) = run_loop-IsSound interval rs l1 h1 in
      if-elim (λ (o : Option Loop). (l' : Loop) × (o ≡ some l') × IsSound w d l'.simulator)
        l.simulator.running (λ _. (l2, >>=-some _ e1 ∙ e2, h2)) (λ _. (l, refl, h))

  pub start-IsSound :
      (s : Startup) (x : ExchangeSimulator) → IsSound w d x → IsSound w d (start_up s x)
  unfolding start_up init_server_socket init_event_system
  start-IsSound s x h =
      if-elim (IsSound w d) (s.socket_ok && (s.bind_ok && s.listen_ok))
        (λ _.
          if-elim (IsSound w d) (s.create_ok && s.add_ok) (λ _. same_parts x _ refl h.clients h)
            (λ _. same_parts x _ refl h.clients h))
        (λ _. same_parts x _ refl h.clients h)

  pub run-IsSound :
      (s : Startup) (now : ℕ) (rs : List Round) (x : ExchangeSimulator)
      → IsSound w d x
      → (x' : ExchangeSimulator) × (run w s now rs x ≡ some x') × IsSound w d x'
  unfolding run
  run-IsSound s now rs x h =
      let x0 : ExchangeSimulator = if x.running then x else start_up s x in
      let h0 : IsSound w d x0 =
        if-elim (IsSound w d) x.running (λ _. h) (λ _. start-IsSound s x h) in
      let (l, e, h1) =
        run_loop-IsSound (tick_interval x0.tick_rate) rs
          (record { simulator = x0; last_tick = now; last_heartbeat = now }) h0 in
      if-elim
        (λ (o : Option ExchangeSimulator).
          (x' : ExchangeSimulator) × (o ≡ some x') × IsSound w d x')
        x0.running (λ _. (l.simulator, >>=-some _ e, h1)) (λ _. (x0, refl, h0))
