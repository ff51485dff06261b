-- ===== src/Clients/Descriptors.antt =====
-- The descriptors of the clients of src/server/client_manager.cpp: which ones `add_client` takes
-- over, and which ones are closed.
use qode.Base.{
  ℕ, ◌≡◌, refl, sym, ap₂, subst, List, [], ◌∷◌, ◌++◌, Bool, true, if-elim, inl, inr, Option-cases,
  append_assoc, append-nil, ℕ_discrete, eq→==, ne→==, ap, ◌∙◌,
}
use mathlib.Core.List.{Perm, perm_middle}
use mathlib.Core.List.Perm
use qode.Clients.{
  ClientManager, has_client, get_client, is_some, add_client, remove_client, handle_subscription,
  mark_slow_consumer, clear_slow_status, send_to_client, broadcast, destroy, new_manager,
}
use qode.Clients.Entries.{ClientConnection, Reply, erase, find, mark_slow, clear_slow, close_all}
use qode.Clients.Broadcast.{broadcast-IsBroadcast, IsBroadcast}
use qode.Clients.Store.{fds, fds-update, fds-Pairs, find_other}
use qode.Clients.Steps.{
  Step, Reachable, start, next, add, remove, subscribed, marked, cleared, sent_to, broadcasted,
  threshold_set, send_to_client-fds, handle_subscription-fds, send_to_client-found,
  send_to_client_missing,
}
use qode.Clients.Calls.{
  Call, Answer, call, ask, adding, removing, marking, clearing, finding, subscribing, sending,
  broadcasting, limiting, counting, listing, listing_slow, told,
}

-- The manager behind the calls.
unfoldable pub after_calls : List Call → ClientManager → ClientManager
unfolding call
after_calls [] m = m
after_calls (k ∷ ks) m = after_calls ks (call k m).1

-- The descriptor that a call takes over: `add_client` answered that it did.
abbrev pub took : Call → Answer → List ℕ
took (adding fd address port now) (told true) = fd ∷ []
took _ _ = []

abbrev pub taken : List Call → List Answer → List ℕ
taken [] as' = []
taken (k ∷ ks) [] = []
taken (k ∷ ks) (a ∷ as') = took k a ++ taken ks as'

-- The descriptors that are open, and those that are closed.
abbrev held : ClientManager → List ℕ
held m = fds m.clients ++ m.closed

abbrev Balanced : Call → ClientManager → Type 0
Balanced k m = let (a, m') = call k m in Perm (held m') (took k a ++ held m)

same_held :
    (m m' : ClientManager)
    → fds m'.clients ≡ fds m.clients
    → m'.closed ≡ m.closed
    → Perm (held m') (held m)
same_held m m' e e' = subst (λ l. Perm l (held m)) (sym (ap₂ (λ k l. k ++ l) e e')) Perm.rfl

erase-held :
    (fd : ℕ) (cs : List ClientConnection) (closed : List ℕ)
    → is_some (find fd cs) ≡ true
    → Perm (fds (erase fd cs) ++ (fd ∷ closed)) (fds cs ++ closed)
unfolding erase find
erase-held fd [] closed h = cc
erase-held fd (c ∷ cs) closed h = elim (ℕ_discrete c.fd fd) [
  | yes e ↦ rw (eq→== c.fd fd e) (
      subst (λ n. Perm (fds cs ++ (fd ∷ closed)) (n ∷ (fds cs ++ closed))) (sym e)
        (perm_middle (fds cs) closed))
  | no n ↦
      let h' : is_some (find fd cs) ≡ true = ap is_some (sym (find_other fd c cs n)) ∙ h in
      rw (ne→== c.fd fd n) (Perm.cons c.fd (erase-held fd cs closed h'))
]

module _ (m : ClientManager) where
  adding-Balanced :
      (fd : ℕ) (address : List ℕ) (port now : ℕ) → Balanced (adding fd address port now) m
  unfolding call add_client
  adding-Balanced fd address port now =
      if-elim {A = Bool × ClientManager}
        (λ r. Perm (held r.1) (took (adding fd address port now) (told r.0) ++ held m))
        (has_client fd m) (λ _. Perm.rfl) (λ _. Perm.rfl)

  removing-Balanced : (fd : ℕ) → Balanced (removing fd) m
  unfolding call remove_client has_client get_client
  removing-Balanced fd =
      if-elim {A = ClientManager} (λ n. Perm (held n) (held m)) (has_client fd m)
        (λ h. erase-held fd m.clients m.closed h) (λ _. Perm.rfl)

  subscribing-Balanced : (fd : ℕ) (ids : List ℕ) → Balanced (subscribing fd ids) m
  unfolding call handle_subscription
  subscribing-Balanced fd ids =
      same_held m (handle_subscription fd ids m).1 (handle_subscription-fds fd ids m) (
        if-elim {A = Bool × ClientManager} (λ r. r.1.closed ≡ m.closed) (has_client fd m)
          (λ _. refl) (λ _. refl))

  send_to_client-closed :
      (fd len : ℕ) (reply : Reply) → (send_to_client fd len reply m).1.closed ≡ m.closed
  send_to_client-closed fd len reply = elim (Option-cases (find fd m.clients)) [
    | inl e ↦ ap (λ r. r.1.closed) (send_to_client_missing fd len reply m e)
    | inr (c, e) ↦ ap (λ r. r.1.closed) (send_to_client-found fd len reply m c e)
  ]

  broadcast-fds :
      (len symbol_id now : ℕ) (net : ℕ → Reply)
      → fds (broadcast len symbol_id now net m).1.clients ≡ fds m.clients
  unfolding IsBroadcast
  broadcast-fds len symbol_id now net =
      fds-Pairs (λ c c' r. r.same_fd) (broadcast-IsBroadcast len symbol_id now net m).0.1

  call-Balanced : (k : Call) → Balanced k m
  unfolding call mark_slow_consumer clear_slow_status broadcast
  call-Balanced (adding fd address port now) = adding-Balanced fd address port now
  call-Balanced (removing fd) = removing-Balanced fd
  call-Balanced (marking fd) =
      same_held m (mark_slow_consumer fd m)
        (fds-update mark_slow (unfold mark_slow in λ c. refl) fd m.clients) refl
  call-Balanced (clearing fd) =
      same_held m (clear_slow_status fd m)
        (fds-update clear_slow (unfold clear_slow in λ c. refl) fd m.clients) refl
  call-Balanced (finding fd) = Perm.rfl
  call-Balanced (subscribing fd ids) = subscribing-Balanced fd ids
  call-Balanced (sending fd len reply) =
      same_held m (send_to_client fd len reply m).1 (send_to_client-fds fd len reply m)
        (send_to_client-closed fd len reply)
  call-Balanced (broadcasting len symbol_id now net) =
      same_held m (broadcast len symbol_id now net m).1 (broadcast-fds len symbol_id now net) refl
  call-Balanced (limiting bytes) = Perm.rfl
  call-Balanced counting = Perm.rfl
  call-Balanced listing = Perm.rfl
  call-Balanced listing_slow = Perm.rfl

append_comm : (xs ys : List ℕ) → Perm (xs ++ ys) (ys ++ xs)
append_comm [] ys = subst (Perm ys) (sym (append-nil ys)) Perm.rfl
append_comm (x ∷ xs) ys =
    Perm.trans (Perm.cons x (append_comm xs ys)) (Perm.symm (perm_middle ys xs))

after_calls-Balanced :
    (ks : List Call) (m : ClientManager)
    → Perm (held (after_calls ks m)) (taken ks (ask ks m) ++ held m)
unfolding after_calls ask
after_calls-Balanced [] m = Perm.rfl
after_calls-Balanced (k ∷ ks) m =
    let (a, m') = call k m in
    let rest = taken ks (ask ks m') in
    let e : rest ++ (took k a ++ held m) ≡ (rest ++ took k a) ++ held m =
      sym (append_assoc rest (took k a) (held m)) in
    Perm.trans (after_calls-Balanced ks m') (
      Perm.trans (Perm.append_left rest (call-Balanced m k)) (
        subst (λ l. Perm l ((took k a ++ rest) ++ held m)) (sym e)
          (Perm.append_right (held m) (append_comm rest (took k a)))))

close_all-held :
    (cs : List ClientConnection) (closed : List ℕ) → Perm (close_all cs closed) (fds cs ++ closed)
unfolding close_all
close_all-held [] closed = Perm.rfl
close_all-held (c ∷ cs) closed =
    Perm.trans (close_all-held cs (c.fd ∷ closed)) (perm_middle (fds cs) closed)

-- Whatever calls are made on a new manager, with any answers of the kernel: once the manager is
-- destroyed, it has closed each descriptor as many times as `add_client` took it over, and no other
-- descriptor, so that none is leaked and none is closed twice.
pub destroy-closed :
    (ks : List Call)
    → Perm (destroy (after_calls ks new_manager)).closed (taken ks (ask ks new_manager))
unfolding destroy
destroy-closed ks =
    let m = after_calls ks new_manager in
    Perm.trans (close_all-held m.clients m.closed) (
      subst (Perm (held m)) (append-nil (taken ks (ask ks new_manager)))
        (after_calls-Balanced ks new_manager))

-- A step is a call.
step_call : {m m' : ClientManager} → Step m m' → (k : Call) × ((call k m).1 ≡ m')
unfolding call
step_call (add fd address port now) = (adding fd address port now, refl)
step_call (remove fd) = (removing fd, refl)
step_call (subscribed fd ids) = (subscribing fd ids, refl)
step_call (marked fd) = (marking fd, refl)
step_call (cleared fd) = (clearing fd, refl)
step_call (sent_to fd len reply) = (sending fd len reply, refl)
step_call (broadcasted len symbol_id now net) = (broadcasting len symbol_id now net, refl)
step_call (threshold_set bytes) = (limiting bytes, refl)

after_calls-append :
    (ks ls : List Call) (m : ClientManager)
    → after_calls (ks ++ ls) m ≡ after_calls ls (after_calls ks m)
unfolding after_calls
after_calls-append [] ls m = refl
after_calls-append (k ∷ ks) ls m = after_calls-append ks ls (call k m).1

Reachable-calls :
    {m : ClientManager} → Reachable m → (ks : List Call) × (after_calls ks new_manager ≡ m)
unfolding after_calls
Reachable-calls start = ([], refl)
Reachable-calls (next r s) =
    let (ks, e) = Reachable-calls r in
    let (k, e') = step_call s in
    (ks ++ (k ∷ []), after_calls-append ks (k ∷ []) new_manager ∙ ap (λ m. (call k m).1) e ∙ e')

-- The calls that lead to `m` took over the descriptors that its destructor leaves closed.
pub data Released (m : ClientManager) : Type 0 where
  released :
      (ks : List Call)
      → after_calls ks new_manager ≡ m
      → Perm (destroy m).closed (taken ks (ask ks new_manager))
      → Released m

pub Reachable-Released : {m : ClientManager} → Reachable m → Released m
Reachable-Released {m} r =
    let (ks, e) = Reachable-calls r in
    released ks e
      (subst (λ n. Perm (destroy n).closed (taken ks (ask ks new_manager))) e (destroy-closed ks))
