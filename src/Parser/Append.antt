-- ===== src/Parser/Append.antt =====
-- `append_data`: what the unread bytes are after it, on every path, and when it overruns the
-- buffer.
use qode.Base.{
  ℕ, ◌+◌, ◌-◌, ◌*◌, ◌≤◌, ◌<◌, ◌≡◌, ◌≢◌, refl, sym, ap, ◌∙◌, ◌↔◌, List, ◌++◌, Bool-cases, inl, inr,
  Option, some, none, true, false, ◌∷◌, length, length-append, append-nil, ltb, arith, tests, ◌==◌,
  ==→eq, [],
}
use qode.Parser.{
  Parser, unread, compact_buffer, copy_in, grow_and_copy, append_data, count_malformed,
  max_buffer_size, initial_buffer_size,
}
use qode.Parser.Buffer.{IsWindow, IsCompacted, length-unread, compact_buffer-IsCompacted}
use qode.Parser.Growth.{
  HasCapacity, Appended, taken, refused, overrun, room-Appended, grow_and_copy-Appended,
}

compacted-IsWindow : (p : Parser) → IsWindow p → {q : Parser} → IsCompacted p q → IsWindow q
compacted-IsWindow p v k = record {
  ordered = omega (arith, k.at_start);
  within = omega (arith, k.used, k.same_size, v.within);
}

-- A call on the compacted buffer does for the original one.
Appended-IsCompacted :
    (p q : Parser) (bytes : List ℕ) {r : Option (ℕ × Parser)}
    → IsCompacted p q
    → Appended q bytes r
    → Appended p bytes r
Appended-IsCompacted p q bytes k (taken s e t c) =
    taken s e
      (record {
        window = t.window;
        received = t.received ∙ ap (λ xs. xs ++ bytes) k.same_unread;
        same_tracking = t.same_tracking ∙ k.same_tracking;
        grown = omega (arith, t.grown, k.same_size);
      })
      c
Appended-IsCompacted p q bytes k (refused s e w u t d c l) =
    refused s e w (u ∙ k.same_unread) (t ∙ ap count_malformed k.same_tracking) (d ∙ k.same_size)
      (sym k.same_size ∙ c) (omega (arith, ap length k.same_unread))
Appended-IsCompacted p q bytes k (overrun e c l) =
    overrun e (omega (arith, k.same_size)) (omega (arith, k.same_size, ap length k.same_unread))

append_empty : (xs bytes : List ℕ) → length bytes ≡ 0 → xs ≡ xs ++ bytes
append_empty xs [] e = sym (append-nil xs)
append_empty xs (b ∷ bs) e = absurd (omega arith)

append_data_empty :
    (p : Parser) (bytes : List ℕ) → (length bytes == 0) ≡ true → append_data p bytes ≡ some (0, p)
unfolding append_data
append_data_empty p bytes e = rw e

append_data_room :
    (p : Parser) (bytes : List ℕ)
    → (length bytes == 0) ≡ false
    → ltb (length p.buffer - p.write_pos) (length bytes) ≡ false
    → append_data p bytes ≡ copy_in p bytes
unfolding append_data
append_data_room p bytes e room = rw (e, room)

append_data_tight :
    (p : Parser) (bytes : List ℕ)
    → (length bytes == 0) ≡ false
    → ltb (length p.buffer - p.write_pos) (length bytes) ≡ true
    → append_data p bytes ≡ grow_and_copy (compact_buffer p) bytes
unfolding append_data
append_data_tight p bytes e tight = rw (e, tight)

-- What `append_data` does, on every path. Either the bytes are taken: then they stand behind the
-- unread bytes, also where the buffer was compacted or has doubled, and the counters are as before.
-- Or nothing is taken: the unread bytes are as before, one malformed message is counted, and the
-- buffer had its greatest size and too little room. Or the copy would run past the end of the
-- buffer: then the buffer was below its greatest size and twice its size was too small.
pub append_data-Appended :
    (p : Parser) (bytes : List ℕ)
    → IsWindow p
    → HasCapacity p
    → Appended p bytes (append_data p bytes)
append_data-Appended p bytes v c = elim (Bool-cases (length bytes == 0)) [
  | inl nothing ↦
      let z = ==→eq (length bytes) 0 nothing in
      taken p (append_data_empty p bytes nothing ∙ ap (λ n. some (n, p)) (sym z))
        (record {
          window = v;
          received = append_empty (unread p) bytes z;
          same_tracking = refl;
          grown = inl refl;
        })
        c
  | inr some_bytes ↦ elim (Bool-cases (ltb (length p.buffer - p.write_pos) (length bytes))) [
    | inl tight ↦
        let k = compact_buffer-IsCompacted p v in
        rw (append_data_tight p bytes some_bytes tight) (
          Appended-IsCompacted p (compact_buffer p) bytes k (
            grow_and_copy-Appended (compact_buffer p) bytes (compacted-IsWindow p v k)
              (omega (arith, c, k.same_size)) k.at_start))
    | inr room ↦
        room-Appended p bytes v c (omega (tests, v.within))
          (append_data_room p bytes some_bytes room)
  ]
]

-- With no more bytes than the receive buffer of the feed handler holds, 4 MB, the copy stays within
-- the buffer.
append_data-ne-none :
    (p : Parser) (bytes : List ℕ)
    → IsWindow p
    → HasCapacity p
    → length bytes ≤ initial_buffer_size
    → append_data p bytes ≢ none
append_data-ne-none p bytes v c h e = go (append_data-Appended p bytes v c)
  where
    go : Appended p bytes (append_data p bytes) → ⊥
    go (taken q f t d) = cc
    go (refused q f w u t same d l) = cc
    go (overrun f d l) = omega (arith, c, length-unread p v, v.within)

-- A parser whose buffer can still grow writes past its end exactly when the unread bytes and the
-- new ones exceed twice the buffer: it grows once, whatever the need.
pub append_data-eq-none_iff :
    (p : Parser) (bytes : List ℕ)
    → IsWindow p
    → HasCapacity p
    → length p.buffer < max_buffer_size
    → (append_data p bytes ≡ none) ↔ (2 * length p.buffer < length (unread p) + length bytes)
append_data-eq-none_iff p bytes v c small = go (append_data-Appended p bytes v c)
  where
    go :
        Appended p bytes (append_data p bytes)
        → (append_data p bytes ≡ none) ↔ (2 * length p.buffer < length (unread p) + length bytes)
    go (taken q f t d) = (
      λ e. cc,
      λ h. absurd (
          omega (
            arith,
            ap length t.received,
            length-append (unread p) bytes,
            length-unread q t.window,
            t.window.within,
            t.grown,
          )),
    )
    go (refused q f w u t same d l) = absurd (omega arith)
    go (overrun f d l) = (λ _. l, λ _. f)
