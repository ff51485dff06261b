-- ===== src/Clients/Reordered.antt =====
-- The clients' map of src/server/client_manager.cpp is unordered: what each operation makes of the
-- entries in another order.
use qode.Base.{
  ℕ, suc, inl, inr, Bool-cases, ◌≡◌, ◌≢◌, refl, sym, ap, ◌∙◌, List, ◌∷◌, some, ◌||◌, if◌then◌else◌,
  length, ◌==◌, ℕ_discrete, eq→==, ne→==, arith,
}
use mathlib.Core.List.{Perm}
use mathlib.Core.List.Perm
use qode.Clients.Entries.{
  slow_fds, ClientConnection, find, update, erase, member, Reply, broadcast_loop,
}
use qode.Clients.Store.{fds, AllDistinct}

-- Neighbours change places, any number of times.
pub data Reordered : List ClientConnection → List ClientConnection → Type 0 where
  same : {cs : List ClientConnection} → Reordered cs cs
  swapped :
      {a b : ClientConnection} {cs : List ClientConnection} → Reordered (a ∷ b ∷ cs) (b ∷ a ∷ cs)
  behind :
      {a : ClientConnection} {cs ds : List ClientConnection}
      → Reordered cs ds
      → Reordered (a ∷ cs) (a ∷ ds)
  further : {cs ds es : List ClientConnection} → Reordered cs ds → Reordered ds es → Reordered cs es

apart :
    (a b : ClientConnection) (cs : List ClientConnection)
    → AllDistinct (fds (a ∷ b ∷ cs))
    → a.fd ≢ b.fd
unfolding AllDistinct member
apart a b cs d e = ground (arith, d.0, e)

member-Reordered :
    {cs ds : List ClientConnection} (x : ℕ)
    → Reordered cs ds
    → member x (fds cs) ≡ member x (fds ds)
unfolding member
member-Reordered x same = refl
member-Reordered x (swapped {a} {b} {cs}) = ground arith
member-Reordered x (behind {a} r) = ap (λ k. x == a.fd || k) (member-Reordered x r)
member-Reordered x (further r s) = member-Reordered x r ∙ member-Reordered x s

AllDistinct-Reordered :
    {cs ds : List ClientConnection} → Reordered cs ds → AllDistinct (fds cs) → AllDistinct (fds ds)
unfolding AllDistinct member
AllDistinct-Reordered same d = d
AllDistinct-Reordered (swapped {a} {b} {cs}) d =
    (ground (arith, d.0, d.1.0), (ground (arith, d.0), d.1.1))
AllDistinct-Reordered (behind {a} r) d =
    (sym (member-Reordered a.fd r) ∙ d.0, AllDistinct-Reordered r d.1)
AllDistinct-Reordered (further r s) d = AllDistinct-Reordered s (AllDistinct-Reordered r d)

pub find-Reordered :
    {cs ds : List ClientConnection} (fd : ℕ)
    → Reordered cs ds
    → AllDistinct (fds cs)
    → find fd cs ≡ find fd ds
unfolding find
find-Reordered fd same d = refl
find-Reordered fd (swapped {a} {b} {cs}) d = ground (arith, apart a b cs d)
find-Reordered fd (behind {a} r) d =
    ap (λ k. if a.fd == fd then some a else k) (find-Reordered fd r (unfold AllDistinct in d.1))
find-Reordered fd (further r s) d =
    find-Reordered fd r d ∙ find-Reordered fd s (AllDistinct-Reordered r d)

-- The descriptors, and those of the slow clients, come in another order too.
pub fds-Reordered : {cs ds : List ClientConnection} → Reordered cs ds → Perm (fds cs) (fds ds)
fds-Reordered same = Perm.rfl
fds-Reordered (swapped {a} {b} {cs}) = Perm.swap b.fd a.fd (fds cs)
fds-Reordered (behind {a} r) = Perm.cons a.fd (fds-Reordered r)
fds-Reordered (further r s) = Perm.trans (fds-Reordered r) (fds-Reordered s)

pub slow_fds-Reordered :
    {cs ds : List ClientConnection} → Reordered cs ds → Perm (slow_fds cs) (slow_fds ds)
unfolding slow_fds
slow_fds-Reordered same = Perm.rfl
slow_fds-Reordered (swapped {a} {b} {cs}) = elim (Bool-cases a.is_slow) [
  | inl p ↦ elim (Bool-cases b.is_slow) [
    | inl q ↦ rw (p, q) (Perm.swap b.fd a.fd (slow_fds cs))
    | inr q ↦ rw (p, q) Perm.rfl
  ]
  | inr p ↦ elim (Bool-cases b.is_slow) [ inl q ↦ rw (p, q) Perm.rfl | inr q ↦ rw (p, q) Perm.rfl ]
]
slow_fds-Reordered (behind {a} r) = elim (Bool-cases a.is_slow) [
  | inl p ↦ rw p (Perm.cons a.fd (slow_fds-Reordered r))
  | inr p ↦ rw p (slow_fds-Reordered r)
]
slow_fds-Reordered (further r s) = Perm.trans (slow_fds-Reordered r) (slow_fds-Reordered s)

pub length-Reordered : {cs ds : List ClientConnection} → Reordered cs ds → length cs ≡ length ds
length-Reordered same = refl
length-Reordered swapped = refl
length-Reordered (behind r) = ap suc (length-Reordered r)
length-Reordered (further r s) = length-Reordered r ∙ length-Reordered s

-- Of two entries one at most is changed, and it keeps its descriptor.
pub update-Reordered :
    {cs ds : List ClientConnection} (fd : ℕ) (f : ClientConnection → ClientConnection)
    → Reordered cs ds
    → AllDistinct (fds cs)
    → Reordered (update fd f cs) (update fd f ds)
unfolding update
update-Reordered fd f same d = same
update-Reordered fd f (swapped {a} {b} {cs}) d = elim (ℕ_discrete a.fd fd) [
  | yes p ↦
      let q : b.fd ≢ fd = λ e. apart a b cs d (p ∙ sym e) in
      rw (eq→== a.fd fd p, ne→== b.fd fd q) swapped
  | no p ↦ elim (ℕ_discrete b.fd fd) [
    | yes q ↦ rw (ne→== a.fd fd p, eq→== b.fd fd q) swapped
    | no q ↦ rw (ne→== a.fd fd p, ne→== b.fd fd q) swapped
  ]
]
update-Reordered fd f (behind {a} r) d = elim (ℕ_discrete a.fd fd) [
  | yes p ↦ rw (eq→== a.fd fd p) (behind r)
  | no p ↦ rw (ne→== a.fd fd p) (behind (update-Reordered fd f r (unfold AllDistinct in d.1)))
]
update-Reordered fd f (further r s) d =
    further (update-Reordered fd f r d) (update-Reordered fd f s (AllDistinct-Reordered r d))

pub erase-Reordered :
    {cs ds : List ClientConnection} (fd : ℕ)
    → Reordered cs ds
    → AllDistinct (fds cs)
    → Reordered (erase fd cs) (erase fd ds)
unfolding erase
erase-Reordered fd same d = same
erase-Reordered fd (swapped {a} {b} {cs}) d = elim (ℕ_discrete a.fd fd) [
  | yes p ↦
      let q : b.fd ≢ fd = λ e. apart a b cs d (p ∙ sym e) in
      rw (eq→== a.fd fd p, ne→== b.fd fd q) same
  | no p ↦ elim (ℕ_discrete b.fd fd) [
    | yes q ↦ rw (ne→== a.fd fd p, eq→== b.fd fd q) same
    | no q ↦ rw (ne→== a.fd fd p, ne→== b.fd fd q) swapped
  ]
]
erase-Reordered fd (behind {a} r) d = elim (ℕ_discrete a.fd fd) [
  | yes p ↦ rw (eq→== a.fd fd p) r
  | no p ↦ rw (ne→== a.fd fd p) (behind (erase-Reordered fd r (unfold AllDistinct in d.1)))
]
erase-Reordered fd (further r s) d =
    further (erase-Reordered fd r d) (erase-Reordered fd s (AllDistinct-Reordered r d))

-- A broadcast reaches as many, and makes the same of each entry.
pub broadcast_loop-Reordered :
    {cs ds : List ClientConnection} (threshold len symbol_id now : ℕ) (net : ℕ → Reply)
    → Reordered cs ds
    → let r = broadcast_loop threshold len symbol_id now net cs in
      let r' = broadcast_loop threshold len symbol_id now net ds in
      (r.0 ≡ r'.0) × Reordered r.1 r'.1
unfolding broadcast_loop
broadcast_loop-Reordered threshold len symbol_id now net same = (refl, same)
broadcast_loop-Reordered threshold len symbol_id now net (swapped {a} {b} {cs}) =
    (omega arith, swapped)
broadcast_loop-Reordered threshold len symbol_id now net (behind {a} r) =
    let (e, q) = broadcast_loop-Reordered threshold len symbol_id now net r in
    (omega (arith, e), behind q)
broadcast_loop-Reordered threshold len symbol_id now net (further r s) =
    let (e, q) = broadcast_loop-Reordered threshold len symbol_id now net r in
    let (e', q') = broadcast_loop-Reordered threshold len symbol_id now net s in
    (e ∙ e', further q q')
