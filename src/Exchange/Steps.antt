-- ===== src/Exchange/Steps.antt =====
-- src/server/exchange_simulator.cpp: its parts are steps of the clients' manager and of the
-- generator.
use qode.Base.{
  ℕ, ◌+◌, ◌%◌, ◌≡◌, ap, subst, Option, none, some, List, [], ◌∷◌, u32, ◌==◌, if-elim, >>=-eq-some,
}
use mathlib.Core.Option.{some-injective}
use qode.Clients.Steps.{Reachable, next, add, remove, subscribed, sent_to}
use qode.Clients.{ClientManager}
use qode.Clients.Entries.{Reply}
use qode.Socket.{RecvResult, received, closed, would_block, failed}
use qode.Generator.{Machine, generate_tick}
use qode.Generator.Symbols.{Reachable as IsGenerator, ticked}
use qode.Exchange.{
  handle_client_event, handle_client_disconnect, process_subscription, handle_request,
  parse_subscription,
}
use qode.Exchange.Simulator.{
  SocketEvent, connections, client_event, Arrival, handle_new_connection, handle_events,
}
use qode.Exchange.Ticks.{
  ExchangeSimulator, Turn, inject_fault, generate_and_broadcast_tick, send_to_all,
}
use qode.Exchange.Faults.{HasGenerator}

handle_new_connection-Reachable :
    (arrivals : List Arrival) (m : ClientManager)
    → Reachable m
    → Reachable (handle_new_connection arrivals m)
unfolding handle_new_connection
handle_new_connection-Reachable [] m r = r
handle_new_connection-Reachable (a ∷ arrivals) m r =
    handle_new_connection-Reachable arrivals _ (next r (add a.fd a.address a.port a.time))

handle_request-Reachable :
    (fd : ℕ) (o : Option (List ℕ)) (m : ClientManager)
    → Reachable m
    → Reachable (handle_request fd o m).1
unfolding handle_request
handle_request-Reachable fd none m r = r
handle_request-Reachable fd (some ids) m r = next r (subscribed fd ids)

process_subscription-Reachable :
    (fd : ℕ) (answer : RecvResult) (m : ClientManager)
    → Reachable m
    → Reachable (process_subscription fd answer m).1
unfolding process_subscription handle_client_disconnect
process_subscription-Reachable fd (received bytes) m r =
    handle_request-Reachable fd (parse_subscription bytes) m r
process_subscription-Reachable fd closed m r = next r (remove fd)
process_subscription-Reachable fd would_block m r = r
process_subscription-Reachable fd failed m r = next r (remove fd)

pub handle_events-Reachable :
    (es : List SocketEvent) (m : ClientManager) → Reachable m → Reachable (handle_events es m)
unfolding handle_events handle_client_event handle_client_disconnect
handle_events-Reachable [] m r = r
handle_events-Reachable (connections arrivals ∷ es) m r =
    handle_events-Reachable es _ (handle_new_connection-Reachable arrivals m r)
handle_events-Reachable (client_event fd is_read is_error answer ∷ es) m r =
    handle_events-Reachable es _ (
      if-elim Reachable is_error (λ _. next r (remove fd))
        (λ _.
          if-elim Reachable is_read (λ _. process_subscription-Reachable fd answer m r) (λ _. r)))

pub send_to_all-Reachable :
    (fds : List ℕ) (size : ℕ) (replies : ℕ → Reply) (m : ClientManager)
    → Reachable m
    → Reachable (send_to_all fds size replies m)
unfolding send_to_all
send_to_all-Reachable [] size replies m r = r
send_to_all-Reachable (fd ∷ fds) size replies m r =
    send_to_all-Reachable fds size replies _ (next r (sent_to fd size (replies fd)))

-- The clients and the generator are in states that their operations lead to; no number of symbols
-- or sequence number is out of range.
pub record IsSound (w : Machine) (d : ℕ) (x : ExchangeSimulator) : Type 0 where
  pub clients : Reachable x.client_mgr
  pub ticks : IsGenerator w d x.tick_gen
  pub generator : HasGenerator x

module _ (w : Machine) (d : ℕ) where
  inject_fault-IsGenerator :
      (now : ℕ) (x x' : ExchangeSimulator)
      → IsGenerator w d x.tick_gen
      → inject_fault w now x ≡ some x'
      → IsGenerator w d x'.tick_gen
  unfolding inject_fault
  inject_fault-IsGenerator now x x' h e =
      let same : (y : ExchangeSimulator)
          → IsGenerator w d y.tick_gen
          → some y ≡ some x'
          → IsGenerator w d x'.tick_gen =
        λ y k p. subst (λ z. IsGenerator w d z.tick_gen) (some-injective y x' p) k in
      if-elim (λ (o : Option ExchangeSimulator). o ≡ some x' → IsGenerator w d x'.tick_gen)
        x.fault_injection
        (λ on.
          if-elim (λ (o : Option ExchangeSimulator). o ≡ some x' → IsGenerator w d x'.tick_gen)
            (u32 (x.fault_skip_counter + 1) % 100 == 0)
            (λ hundredth p.
              let (r, e1, e2) = >>=-eq-some (generate_tick w now x.tick_gen) _ p in
              same
                (record x { fault_skip_counter = u32 (x.fault_skip_counter + 1); tick_gen = r.2 })
                (ticked now h e1) e2)
            (λ other p.
              same (record x { fault_skip_counter = u32 (x.fault_skip_counter + 1) }) h p))
        (λ off p. same x h p) e

  pub tick-IsGenerator :
      (t : Turn) (x x' : ExchangeSimulator) (bytes : List ℕ)
      → IsGenerator w d x.tick_gen
      → generate_and_broadcast_tick w t x ≡ some (bytes, x')
      → IsGenerator w d x'.tick_gen
  unfolding generate_and_broadcast_tick
  tick-IsGenerator t x x' bytes h e =
      let (x1, e1, f1) = >>=-eq-some (inject_fault w t.skip_time x) _ e in
      let (r, e2, f2) = >>=-eq-some (generate_tick w t.tick_time x1.tick_gen) _ f1 in
      subst (IsGenerator w d) (ap (λ z. z.1.tick_gen) (some-injective _ _ f2))
        (ticked t.tick_time (inject_fault-IsGenerator t.skip_time x x1 h e1) e2)
