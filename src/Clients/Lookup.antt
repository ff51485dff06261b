-- ===== src/Clients/Lookup.antt =====
-- What a lookup finds after adding a client and after a subscription.
use qode.Base.{
  ℕ, ◌≡◌, ◌≢◌, refl, sym, ap, ◌∙◌, subst, List, [], ◌∷◌, length, true, false, not, ◌&&◌, ◌||◌, some,
  ◌==◌, arith, ℕ_discrete, eq→==, Bool-cases, inl, inr,
}
use qode.Clients.{
  ClientManager, has_client, get_client, add_client, remove_client, handle_subscription,
}
use qode.Clients.Entries.{
  ClientConnection, find, update, erase, member, insert, insert_all, subscribe, new_connection,
  is_receiver,
}
use qode.Clients.Store.{find_self, find_other, find-update_self, find-update_other}
use qode.Clients.Steps.{has_client-some}

module _ (fd : ℕ) (address : List ℕ) (port now : ℕ) (m : ClientManager) where
  abbrev added : ClientManager
  added = record m { clients = new_connection fd address port now ∷ m.clients }

  add_client_new : has_client fd m ≡ false → add_client fd address port now m ≡ (true, added)
  unfolding add_client
  add_client_new e = rw e refl

  add_client_taken : has_client fd m ≡ true → add_client fd address port now m ≡ (false, m)
  unfolding add_client
  add_client_taken e = rw e refl

  remove_client-added : remove_client fd added ≡ record m { closed = fd ∷ m.closed }
  unfolding remove_client erase has_client get_client find
  remove_client-added = rw (eq→== fd fd refl) refl

-- A client that was added is found and no other lookup changes; removing it gives the manager back
-- but for the descriptor, which is closed. A descriptor that is in use is refused.
add_client_lem :
    (fd : ℕ) (address : List ℕ) (port now : ℕ) (m : ClientManager)
    → let r = add_client fd address port now m in
      (r.0 ≡ not (has_client fd m))
      × (has_client fd r.1 ≡ true)
      × ((fd' : ℕ) → fd ≢ fd' → get_client fd' r.1 ≡ get_client fd' m)
      × (has_client fd m ≡ false → remove_client fd r.1 ≡ record m { closed = fd ∷ m.closed })
      × (has_client fd m ≡ true → r.1 ≡ m)
unfolding get_client
add_client_lem fd address port now m = elim (Bool-cases (has_client fd m)) [
  | inl e ↦ rw (add_client_taken fd address port now m e) (
    ap not (sym e),
    e,
    λ fd' h. refl,
    λ n. absurd (let f : true ≡ false = sym e ∙ n in cc),
    λ _. refl,
  )
  | inr e ↦ rw (add_client_new fd address port now m e) (
    ap not (sym e),
    has_client-some fd (added fd address port now m) _
        (find_self fd (new_connection fd address port now) m.clients refl),
    λ fd' h. find_other fd' (new_connection fd address port now) m.clients h,
    λ _. remove_client-added fd address port now m,
    λ n. absurd (let f : true ≡ false = sym n ∙ e in cc),
  )
]

-- Inserting into a set.
insert_same :
    (x y : ℕ) (ys : List ℕ)
    → x ≡ y
    → member y ys ≡ true
    → member x (insert y ys) ≡ (x == y || member x ys)
unfolding insert
insert_same x y ys p old = ground (arith, old, p, subst (λ k. member k ys ≡ true) (sym p) old)

member-insert : (x y : ℕ) (ys : List ℕ) → member x (insert y ys) ≡ (x == y || member x ys)
unfolding insert member
member-insert x y ys = elim (Bool-cases (member y ys)) [
  | inl old ↦ elim (ℕ_discrete x y) [
    | yes p ↦ insert_same x y ys p old
    | no q ↦ ground (arith, old, q)
  ]
  | inr new ↦ ground (arith, new)
]

member-insert_all :
    (x : ℕ) (xs set : List ℕ) → member x (insert_all xs set) ≡ (member x xs || member x set)
unfolding insert_all
member-insert_all x [] set = unfold member in refl
member-insert_all x (y ∷ ys) set =
    unfold member in ground (arith, member-insert_all x ys (insert y set), member-insert x y set)

handle_subscription_found :
    (fd : ℕ) (ids : List ℕ) (m : ClientManager) (c : ClientConnection)
    → find fd m.clients ≡ some c
    → handle_subscription fd ids m
      ≡ (true, record m { clients = update fd (subscribe ids) m.clients })
unfolding handle_subscription
handle_subscription_found fd ids m c e = rw (has_client-some fd m c e) refl

subscribe-is_receiver :
    (ids : List ℕ) (c : ClientConnection) (id : ℕ)
    → is_receiver id (subscribe ids c) ≡ (not c.is_slow && (length ids == 0 || member id ids))
unfolding is_receiver member
subscribe-is_receiver ids c id = ground (arith, member-insert_all id ids [])

-- After a subscription a client that is not slow receives the symbols it named, and all symbols if
-- it named none, and no other lookup changes.
pub handle_subscription_lem :
    (fd : ℕ) (ids : List ℕ) (m : ClientManager) (c : ClientConnection)
    → get_client fd m ≡ some c
    → let r = handle_subscription fd ids m in
      (r.0 ≡ true)
      × ((c' : ClientConnection) × (get_client fd r.1 ≡ some c')
          × ((id : ℕ) → is_receiver id c' ≡ (not c.is_slow && (length ids == 0 || member id ids))))
      × ((fd' : ℕ) → fd ≢ fd' → get_client fd' r.1 ≡ get_client fd' m)
unfolding get_client
handle_subscription_lem fd ids m c found = rw (handle_subscription_found fd ids m c found) (
  refl,
  (
    subscribe ids c,
    find-update_self (subscribe ids) (λ d. refl) fd m.clients c found,
    subscribe-is_receiver ids c,
  ),
  λ fd' h. find-update_other (subscribe ids) (λ d. refl) fd fd' m.clients h,
)
