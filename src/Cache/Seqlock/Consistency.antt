-- ===== src/Cache/Seqlock/Consistency.antt =====
-- No torn reads: a snapshot that `get_snapshot` accepts is the last published state.
use qode.Base.{ℕ, ◌+◌, ◌%◌, ◌^◌, ◌<◌, ◌≡◌, refl, subst, ◌∙◌, arith}
use qode.Cache.{MarketState, SymbolEntry, apply_store}
use qode.Cache.Seqlock.{
  Writer, outside, writing, Reader, loading, copying, returned, System, copy_field, aged, bump,
  Step, begin, store, finish, spin, load, copy, accept, retry, Reach, here, next, field_count,
}

-- The first `k` fields of two states agree.
pub record Agree (k : ℕ) (a b : MarketState) : Type 0 where
  pub same_bid : 0 < k → a.best_bid ≡ b.best_bid
  pub same_ask : 1 < k → a.best_ask ≡ b.best_ask
  pub same_bid_quantity : 2 < k → a.bid_quantity ≡ b.bid_quantity
  pub same_ask_quantity : 3 < k → a.ask_quantity ≡ b.ask_quantity
  pub same_price : 4 < k → a.last_traded_price ≡ b.last_traded_price
  pub same_quantity : 5 < k → a.last_traded_quantity ≡ b.last_traded_quantity
  pub same_time : 6 < k → a.last_update_time ≡ b.last_update_time
  pub same_count : 7 < k → a.update_count ≡ b.update_count
  pub same_opening : 8 < k → a.opening_price ≡ b.opening_price

Agree-zero : (a b : MarketState) → Agree 0 a b
Agree-zero a b = record {
  same_bid = λ h. absurd (omega arith);
  same_ask = λ h. absurd (omega arith);
  same_bid_quantity = λ h. absurd (omega arith);
  same_ask_quantity = λ h. absurd (omega arith);
  same_price = λ h. absurd (omega arith);
  same_quantity = λ h. absurd (omega arith);
  same_time = λ h. absurd (omega arith);
  same_count = λ h. absurd (omega arith);
  same_opening = λ h. absurd (omega arith);
}

Agree-copy_field :
    (k : ℕ) (a b : MarketState) → k < 9 → Agree k a b → Agree (k + 1) (copy_field k b a) b
unfolding copy_field
Agree-copy_field k a b h v = record {
  same_bid = λ l. ground (arith, v.same_bid);
  same_ask = λ l. ground (arith, v.same_ask);
  same_bid_quantity = λ l. ground (arith, v.same_bid_quantity);
  same_ask_quantity = λ l. ground (arith, v.same_ask_quantity);
  same_price = λ l. ground (arith, v.same_price);
  same_quantity = λ l. ground (arith, v.same_quantity);
  same_time = λ l. ground (arith, v.same_time);
  same_count = λ l. ground (arith, v.same_count);
  same_opening = λ l. ground (arith, v.same_opening);
}

Agree-full : (a b : MarketState) → Agree 9 a b → a ≡ b
Agree-full a b v = λ i. record {
  best_bid = v.same_bid (omega arith) i;
  best_ask = v.same_ask (omega arith) i;
  bid_quantity = v.same_bid_quantity (omega arith) i;
  ask_quantity = v.same_ask_quantity (omega arith) i;
  last_traded_price = v.same_price (omega arith) i;
  last_traded_quantity = v.same_quantity (omega arith) i;
  last_update_time = v.same_time (omega arith) i;
  update_count = v.same_count (omega arith) i;
  opening_price = v.same_opening (omega arith) i;
}

-- What holds of the writer and the sequence: it is odd just while an update is going on.
abbrev WriterInv : Writer → SymbolEntry → MarketState → Type 0
WriterInv outside e published = (e.sequence % 2 ≡ 0) × (e.state ≡ published)
WriterInv (writing sts) e published = e.sequence % 2 ≡ 1

-- What holds of the reader: while the sequence has not been stored to since its first load, that
-- value is still there and the fields copied so far are those of the state.
abbrev ReaderInv : Reader → SymbolEntry → MarketState → Type 0
ReaderInv loading e published = Unit {0}
ReaderInv (copying seq1 age k snapshot) e published =
    (seq1 % 2 ≡ 0)
    × (seq1 < 2 ^ 64)
    × (e.sequence ≡ (seq1 + age) % 2 ^ 64)
    × (age ≡ 0 → Agree k snapshot e.state)
ReaderInv (returned age snapshot) e published = Unit {0}

record Inv (s : System) : Type 0 where
  bounded : s.entry.sequence < 2 ^ 64
  of_writer : WriterInv s.writer s.entry s.published
  of_reader : ReaderInv s.reader s.entry s.published

-- A store to the sequence makes the reader's copy stale.
ReaderInv-aged :
    (r : Reader) (e : SymbolEntry) (p p' : MarketState)
    → ReaderInv r e p
    → ReaderInv (aged r) (bump e) p'
unfolding aged bump
ReaderInv-aged loading e p p' v = tt
ReaderInv-aged (copying seq1 age k snapshot) e p p' v =
    (v.0, v.1, omega (arith, v.2), λ z. absurd (omega arith))
ReaderInv-aged (returned age snapshot) e p p' v = tt

-- While the sequence is odd, no reader holds a copy that is not stale.
ReaderInv-store :
    (r : Reader) (e : SymbolEntry) (s p p' : MarketState)
    → e.sequence % 2 ≡ 1
    → ReaderInv r e p
    → ReaderInv r (record e { state = s }) p'
ReaderInv-store loading e s p p' odd v = tt
ReaderInv-store (copying seq1 age k snapshot) e s p p' odd v =
    (v.0, v.1, v.2, λ z. absurd (omega (arith, v.0, v.1, v.2)))
ReaderInv-store (returned age snapshot) e s p p' odd v = tt

module _ (s : System) (v : Inv s) where
  writer_at : {w : Writer} → s.writer ≡ w → WriterInv w s.entry s.published
  writer_at e = subst (λ w. WriterInv w s.entry s.published) e v.of_writer

  reader_at : {r : Reader} → s.reader ≡ r → ReaderInv r s.entry s.published
  reader_at e = subst (λ r. ReaderInv r s.entry s.published) e v.of_reader

Step-Inv : {s t : System} → Step s t → Inv s → Inv t
Step-Inv (begin s stores e) v = record {
  bounded = unfold bump in omega arith;
  of_writer = unfold bump in omega (arith, (writer_at s v e).0);
  of_reader = ReaderInv-aged s.reader s.entry s.published s.published v.of_reader;
}
Step-Inv (store s st sts e) v = record {
  bounded = v.bounded;
  of_writer = writer_at s v e;
  of_reader =
      ReaderInv-store s.reader s.entry (apply_store st s.entry.state) s.published s.published
        (writer_at s v e) v.of_reader;
}
Step-Inv (finish s e) v = record {
  bounded = unfold bump in omega arith;
  of_writer = (unfold bump in omega (arith, writer_at s v e), unfold bump in refl);
  of_reader = ReaderInv-aged s.reader s.entry s.published s.entry.state v.of_reader;
}
Step-Inv (spin s e odd) v = v
Step-Inv (load s snapshot e even) v = record {
  bounded = v.bounded;
  of_writer = v.of_writer;
  of_reader =
      (omega arith, v.bounded, omega (arith, v.bounded), λ _. Agree-zero snapshot s.entry.state);
}
Step-Inv (copy s seq1 age k snapshot e l) v =
    let r = reader_at s v e in
    record {
      bounded = v.bounded;
      of_writer = v.of_writer;
      of_reader = (r.0, r.1, r.2, λ z. Agree-copy_field k snapshot s.entry.state l (r.3 z));
    }
Step-Inv (accept s seq1 age snapshot e same) v = record {
  bounded = v.bounded;
  of_writer = v.of_writer;
  of_reader = tt;
}
Step-Inv (retry s seq1 age snapshot e other) v = record {
  bounded = v.bounded;
  of_writer = v.of_writer;
  of_reader = tt;
}

Reach-Inv : {s : System} → Reach s → Inv s
Reach-Inv here = record { bounded = omega arith; of_writer = (refl, refl); of_reader = tt }
Reach-Inv (next r st) = Step-Inv st (Reach-Inv r)

of_outside :
    (w : Writer) (e : SymbolEntry) (p : MarketState)
    → WriterInv w e p
    → e.sequence % 2 ≡ 0
    → (w ≡ outside) × (e.state ≡ p)
of_outside outside e p v even = (refl, v.1)
of_outside (writing sts) e p v even = absurd (omega arith)

-- In every interleaving: when the reader has copied all fields and finds the sequence that it
-- loaded first, then its snapshot is the state that the last completed update left, in all fields,
-- and no update is going on; provided that fewer than 2 ^ 64 stores to the sequence fell between
-- its two loads.
pub accepted-eq-published :
    {s : System} (seq1 age : ℕ) (snapshot : MarketState)
    → Reach s
    → s.reader ≡ copying seq1 age field_count snapshot
    → s.entry.sequence ≡ seq1
    → age < 2 ^ 64
    → (snapshot ≡ s.published) × (s.writer ≡ outside)
accepted-eq-published {s} seq1 age snapshot reach e same few =
    let v = Reach-Inv reach in
    let r = reader_at s v e in
    let fresh : age ≡ 0 = omega (arith, r.2, r.1) in
    let (out, published) =
      of_outside s.writer s.entry s.published v.of_writer (omega (arith, r.0)) in
    (Agree-full snapshot s.entry.state (r.3 fresh) ∙ published, out)
