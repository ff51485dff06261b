-- ===== src/Exchange/Loop.antt =====
-- src/server/exchange_simulator.cpp: the main loop as a whole, and its end.
use qode.Base.{
  ℕ, ◌≡◌, refl, ap, ◌∙◌, subst, true, false, some, List, [], ◌∷◌, ◌++◌, if◌then◌else◌, Bool-cases,
  inl, inr, >>=-some, >>=-eq-some, ◌>>=◌,
}
use mathlib.Core.Option.{some-injective}
use qode.Clients.Steps.{Reachable-AllDistinct}
use qode.Clients.{get_all_client_fds}
use qode.Generator.{Machine}
use qode.Generator.Price.{IsReliable}
use qode.Generator.Market.{HasInitial, IsMarket}
use qode.Generator.Symbols.{Reachable-IsMarket}
use qode.Clients.Store.{AllDistinct}
use qode.Generator.Ticks.{HasDoubles, HasSymbols}
use qode.Exchange.Simulator.{
  Startup, Round, Loop, run_ticks, run_heartbeat, run_events, end_round, run_round, run_loop, run,
  stop,
}
use qode.Exchange.Ticks.{ExchangeSimulator}
use qode.Exchange.Steps.{IsSound}
use qode.Exchange.Rounds.{run-IsSound, run_round-IsSound}

-- With a random source that draws a positive number in one of the next rounds and symbols up to the
-- largest asked for, with quotients that are 64-bit patterns, and from 1 to 65536 symbols: `run`
-- from a state that the operations lead to gets through any rounds, whatever the system calls of
-- the start, the sockets and the clients answer and whenever `stop` is called. Afterwards no two
-- clients have one descriptor, and every symbol's price is from 1 to 100000, its quantities are
-- from 100 to 2 ^ 31 - 1 and its drift is as before; for which the initial prices and quantities
-- are to be within the bounds of their distributions.
pub run-IsExchange :
    (w : Machine) (d : ℕ) (s : Startup) (now : ℕ) (rs : List Round) (x : ExchangeSimulator)
    → IsReliable w
    → HasDoubles w
    → HasSymbols w
    → HasInitial w
    → IsSound w d x
    → (x' : ExchangeSimulator) × (run w s now rs x ≡ some x')
      × IsSound w d x'
      × AllDistinct (get_all_client_fds x'.client_mgr)
      × IsMarket w d x'.tick_gen
run-IsExchange w d s now rs x rel double syms init h =
    let (x', e, h') = run-IsSound w rel double syms d s now rs x h in
    (x', e, h', Reachable-AllDistinct h'.clients, Reachable-IsMarket w rel init h'.ticks)

end_round_stops :
    (r : Round) (l : Loop) → r.stops ≡ true → (end_round r l).simulator.running ≡ false
unfolding end_round stop
end_round_stops r l stops = rw stops refl

run_round_stops :
    (w : Machine) (interval : ℕ) (r : Round) (l l' : Loop)
    → r.stops ≡ true
    → run_round w interval r l ≡ some l'
    → l'.simulator.running ≡ false
unfolding run_round
run_round_stops w interval r l l' stops e =
    let (l1, e1, f1) = >>=-eq-some (run_ticks w interval r (run_events r l)) _ e in
    subst (λ k. k.simulator.running ≡ false) (some-injective _ _ f1)
      (end_round_stops r (run_heartbeat r l1) stops)

run_loop_ended :
    (w : Machine) (interval : ℕ) (rs : List Round) (l : Loop)
    → l.simulator.running ≡ false
    → run_loop w interval rs l ≡ some l
unfolding run_loop
run_loop_ended w interval [] l off = refl
run_loop_ended w interval (r ∷ rs) l off = rw off refl

run_loop_step :
    (w : Machine) (interval : ℕ) (r : Round) (rs : List Round) (l l1 : Loop)
    → l.simulator.running ≡ true
    → run_round w interval r l ≡ some l1
    → run_loop w interval (r ∷ rs) l ≡ run_loop w interval rs l1
unfolding run_loop
run_loop_step w interval r rs l l1 on e =
    ap (λ b. if b then (run_round w interval r l >>= λ l'. run_loop w interval rs l') else some l)
      on
    ∙ >>=-some _ e

-- With a random source that draws a positive number in one of the next rounds and symbols up to the
-- largest asked for, and with quotients that are 64-bit patterns: once `stop` is called in a round,
-- the loop of `run` from a state that the operations lead to ends with that round, if not before:
-- it is no longer running, and the rounds that could have followed make no difference.
pub run_loop_stops :
    (w : Machine) (d interval : ℕ) (before : List Round) (r : Round) (rs : List Round) (l : Loop)
    → IsReliable w
    → HasDoubles w
    → HasSymbols w
    → IsSound w d l.simulator
    → r.stops ≡ true
    → (l' : Loop) × (run_loop w interval (before ++ (r ∷ rs)) l ≡ some l')
      × (run_loop w interval (before ++ (r ∷ [])) l ≡ some l')
      × (l'.simulator.running ≡ false)
run_loop_stops w d interval [] r rs l rel double syms h stops =
    let (l1, e, h1) = run_round-IsSound w rel double syms d interval r l h in
    let off = run_round_stops w interval r l l1 stops e in
    elim (Bool-cases l.simulator.running) [
      | inr ended ↦ (
        l,
        run_loop_ended w interval (r ∷ rs) l ended,
        run_loop_ended w interval (r ∷ []) l ended,
        ended,
      )
      | inl on ↦ (
        l1,
        run_loop_step w interval r rs l l1 on e ∙ run_loop_ended w interval rs l1 off,
        run_loop_step w interval r [] l l1 on e ∙ run_loop_ended w interval [] l1 off,
        off,
      )
    ]
run_loop_stops w d interval (b ∷ before) r rs l rel double syms h stops =
    let (l1, e, h1) = run_round-IsSound w rel double syms d interval b l h in
    let (l', e1, e2, off) = run_loop_stops w d interval before r rs l1 rel double syms h1 stops in
    elim (Bool-cases l.simulator.running) [
      | inr ended ↦ (
        l,
        run_loop_ended w interval (b ∷ (before ++ (r ∷ rs))) l ended,
        run_loop_ended w interval (b ∷ (before ++ (r ∷ []))) l ended,
        ended,
      )
      | inl on ↦ (
        l',
        run_loop_step w interval b (before ++ (r ∷ rs)) l l1 on e ∙ e1,
        run_loop_step w interval b (before ++ (r ∷ [])) l l1 on e ∙ e2,
        off,
      )
    ]
