-- ===== src/Clients/Store.antt =====
-- The map of the clients: every operation keeps one entry for a descriptor, and what a lookup
-- finds afterwards.
use qode.Base.{
  ℕ, ◌≡◌, ◌≢◌, refl, sym, ap, ap₂, ◌∙◌, List, [], ◌∷◌, map, false, none, some, ◌==◌, arith,
  ℕ_discrete, eq→==, ne→==, if-elim,
}
use qode.Clients.Entries.{ClientConnection, find, update, erase, member}
use qode.Clients.Broadcast.{Pairs, end, pair}

abbrev pub fds : List ClientConnection → List ℕ
fds cs = map (λ c. c.fd) cs

-- No number stands twice.
unfoldable pub AllDistinct : List ℕ → Type 0
AllDistinct [] = Unit {0}
AllDistinct (x ∷ xs) = (member x xs ≡ false) × AllDistinct xs

pub find_self :
    (fd : ℕ) (c : ClientConnection) (cs : List ClientConnection)
    → c.fd ≡ fd
    → find fd (c ∷ cs) ≡ some c
unfolding find
find_self fd c cs e = rw (eq→== c.fd fd e) refl

pub find_other :
    (fd : ℕ) (c : ClientConnection) (cs : List ClientConnection)
    → c.fd ≢ fd
    → find fd (c ∷ cs) ≡ find fd cs
unfolding find
find_other fd c cs h = rw (ne→== c.fd fd h) refl

-- A lookup finds an entry of the descriptor.
find-fd :
    (fd : ℕ) (cs : List ClientConnection) (c : ClientConnection) → find fd cs ≡ some c → c.fd ≡ fd
find-fd fd [] c e = absurd (unfold find in let e' : none ≡ some c = e in cc)
find-fd fd (d ∷ cs) c e = elim (ℕ_discrete d.fd fd) [
  | yes p ↦ let e' : some d ≡ some c = sym (find_self fd d cs p) ∙ e in cc
  | no q ↦ find-fd fd cs c (sym (find_other fd d cs q) ∙ e)
]

-- A descriptor without an entry is not in the list.
pub find-none :
    (fd : ℕ) (cs : List ClientConnection) → find fd cs ≡ none → member fd (fds cs) ≡ false
unfolding member
find-none fd [] e = refl
find-none fd (d ∷ cs) e = elim (ℕ_discrete d.fd fd) [
  | yes p ↦ absurd (let e' : none ≡ some d = sym e ∙ find_self fd d cs p in cc)
  | no q ↦
      let e' : find fd cs ≡ none = sym (find_other fd d cs q) ∙ e in
      ground (arith, find-none fd cs e', q)
]

pub none-find :
    (fd : ℕ) (cs : List ClientConnection) → member fd (fds cs) ≡ false → find fd cs ≡ none
unfolding member find
none-find fd [] e = refl
none-find fd (d ∷ cs) e = ground (arith, e, none-find fd cs)

-- A change of an entry that keeps its descriptor.
module _ (f : ClientConnection → ClientConnection)
    (keeps : (c : ClientConnection) → (f c).fd ≡ c.fd) where
  pub find-update_self :
      (fd : ℕ) (cs : List ClientConnection) (c : ClientConnection)
      → find fd cs ≡ some c
      → find fd (update fd f cs) ≡ some (f c)
  unfolding update
  find-update_self fd [] c e = absurd (unfold find in let e' : none ≡ some c = e in cc)
  find-update_self fd (d ∷ cs) c e = elim (ℕ_discrete d.fd fd) [
    | yes p ↦
        let same : d ≡ c = (let e' : some d ≡ some c = sym (find_self fd d cs p) ∙ e in cc) in
        rw (eq→== d.fd fd p) (find_self fd (f d) cs (keeps d ∙ p) ∙ ap (λ k. some (f k)) same)
    | no q ↦ rw (ne→== d.fd fd q) (
        find_other fd d (update fd f cs) q
        ∙ find-update_self fd cs c (sym (find_other fd d cs q) ∙ e))
  ]

  pub find-update_other :
      (fd fd' : ℕ) (cs : List ClientConnection) → fd ≢ fd' → find fd' (update fd f cs) ≡ find fd' cs
  unfolding find update
  find-update_other fd fd' [] h = refl
  find-update_other fd fd' (d ∷ cs) h = ground (arith, find-update_other fd fd' cs h, keeps d)

  pub fds-update : (fd : ℕ) (cs : List ClientConnection) → fds (update fd f cs) ≡ fds cs
  unfolding update
  fds-update fd [] = refl
  fds-update fd (d ∷ cs) =
      if-elim (λ k. fds k ≡ fds (d ∷ cs)) (d.fd == fd) (λ _. ap (λ k. k ∷ fds cs) (keeps d))
        (λ _. ap (λ k. d.fd ∷ k) (fds-update fd cs))

pub fds-Pairs :
    {R : ClientConnection → ClientConnection → Type 0}
    (keeps : (c c' : ClientConnection) → R c c' → c'.fd ≡ c.fd) {cs cs' : List ClientConnection}
    → Pairs R cs cs'
    → fds cs' ≡ fds cs
fds-Pairs keeps end = refl
fds-Pairs keeps (pair {x} {y} r rs) = ap₂ (λ k l. k ∷ l) (keeps x y r) (fds-Pairs keeps rs)

-- Removing an entry.
member-erase :
    (x fd : ℕ) (cs : List ClientConnection)
    → member x (fds cs) ≡ false
    → member x (fds (erase fd cs)) ≡ false
unfolding member erase
member-erase x fd [] h = refl
member-erase x fd (d ∷ cs) h =
    if-elim (λ k. member x (fds k) ≡ false) (d.fd == fd) (λ _. ground (arith, h))
      (λ _. ground (arith, h, member-erase x fd cs))

pub erase-AllDistinct :
    (fd : ℕ) (cs : List ClientConnection) → AllDistinct (fds cs) → AllDistinct (fds (erase fd cs))
unfolding erase AllDistinct
erase-AllDistinct fd [] h = h
erase-AllDistinct fd (d ∷ cs) h =
    if-elim (λ k. AllDistinct (fds k)) (d.fd == fd) (λ _. h.1)
      (λ _. (member-erase d.fd fd cs h.0, erase-AllDistinct fd cs h.1))
