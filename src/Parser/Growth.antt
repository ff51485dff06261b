-- ===== src/Parser/Growth.antt =====
-- `append_data` after compaction: copying in, growing, refusing, overrunning.
use qode.Base.{
  ℕ, ◌+◌, ◌-◌, ◌*◌, ◌≤◌, ◌<◌, ◌≡◌, ◌≢◌, refl, ap, ◌∙◌, ◌⊎◌, List, ◌++◌, Bool-cases, inl, inr, min,
  Option, some, none, dec_le, dec_lt, true, false, length, length-append, length-replicate,
  slice-append, leb, arith, tests, lt→ltb, le→ltb, replicate,
}
use qode.Parser.{
  Parser, unread, overwrite, resize, copy_in, grow_and_copy, count_malformed, max_buffer_size,
  initial_buffer_size,
}
use qode.Parser.Buffer.{IsWindow, length-unread, length-overwrite, slice-overwrite}

-- The sizes that the buffer has: it starts at 4 MB and doubles up to 16 MB.
abbrev pub HasCapacity : Parser → Type 0
HasCapacity p =
    (length p.buffer ≡ initial_buffer_size)
    ⊎ (length p.buffer ≡ 2 * initial_buffer_size)
    ⊎ (length p.buffer ≡ max_buffer_size)

-- `bytes` stand behind the unread bytes of `p`, and nothing else of the state has changed.
pub record IsTaken (p : Parser) (bytes : List ℕ) (q : Parser) : Type 0 where
  pub window : IsWindow q
  pub received : unread q ≡ unread p ++ bytes
  pub same_tracking : q.tracking ≡ p.tracking
  pub grown : (length q.buffer ≡ length p.buffer) ⊎ (length q.buffer ≡ 2 * length p.buffer)

-- How a call can end.
pub data Appended (p : Parser) (bytes : List ℕ) (r : Option (ℕ × Parser)) : Type 0 where
  taken :
      (q : Parser)
      → r ≡ some (length bytes, q)
      → IsTaken p bytes q
      → HasCapacity q
      → Appended p bytes r
  refused :
      (q : Parser)
      → r ≡ some (0, q)
      → IsWindow q
      → unread q ≡ unread p
      → q.tracking ≡ count_malformed p.tracking
      → length q.buffer ≡ length p.buffer
      → length p.buffer ≡ max_buffer_size
      → max_buffer_size < length (unread p) + length bytes
      → Appended p bytes r
  overrun :
      r ≡ none
      → length p.buffer < max_buffer_size
      → 2 * length p.buffer < length (unread p) + length bytes
      → Appended p bytes r

abbrev copied : Parser → List ℕ → Parser
copied p bytes = record p {
  buffer = overwrite p.write_pos bytes p.buffer;
  write_pos = p.write_pos + length bytes;
}

copied-IsTaken :
    (p : Parser) (bytes : List ℕ)
    → IsWindow p
    → p.write_pos + length bytes ≤ length p.buffer
    → IsTaken p bytes (copied p bytes)
copied-IsTaken p bytes v h = record {
  window = record {
    ordered = omega (arith, v.ordered);
    within = omega (arith, length-overwrite p.write_pos bytes p.buffer h);
  };
  received = unfold unread in slice-overwrite p.read_pos p.write_pos bytes p.buffer v.ordered h;
  same_tracking = refl;
  grown = inl (length-overwrite p.write_pos bytes p.buffer h);
}

copy_in_fits :
    (p : Parser) (bytes : List ℕ)
    → p.write_pos + length bytes ≤ length p.buffer
    → copy_in p bytes ≡ some (length bytes, copied p bytes)
unfolding copy_in
copy_in_fits p bytes h = ground arith

copy_in_overrun :
    (p : Parser) (bytes : List ℕ)
    → length p.buffer < p.write_pos + length bytes
    → copy_in p bytes ≡ none
unfolding copy_in
copy_in_overrun p bytes h = ground arith

-- A larger vector holds the same unread bytes.
length-resize : (n : ℕ) (p : Parser) → length p.buffer ≤ n → length (resize n p).buffer ≡ n
unfolding resize
length-resize n p h = omega (
  arith,
  length-append p.buffer (replicate (n - length p.buffer) 0),
  length-replicate (n - length p.buffer) (let z : ℕ = 0 in z),
)

resize-unread : (n : ℕ) (p : Parser) → IsWindow p → unread (resize n p) ≡ unread p
unfolding resize unread
resize-unread n p v =
    slice-append p.read_pos (p.write_pos - p.read_pos) p.buffer _
      (omega (arith, v.ordered, v.within))

resize-write_pos : (n : ℕ) (p : Parser) → (resize n p).write_pos ≡ p.write_pos
unfolding resize
resize-write_pos n p = refl

-- The buffer after growing.
abbrev grown_parser : Parser → Parser
grown_parser p = resize (min (length p.buffer * 2) max_buffer_size) p

module _ (p : Parser) (bytes : List ℕ) (v : IsWindow p) (c : HasCapacity p) where
  doubled : length p.buffer ≢ max_buffer_size → length (grown_parser p).buffer ≡ 2 * length p.buffer
  doubled h = omega (arith, length-resize (min (length p.buffer * 2) max_buffer_size) p)

  grown-IsTaken :
      length p.buffer ≢ max_buffer_size
      → p.write_pos + length bytes ≤ 2 * length p.buffer
      → IsTaken p bytes (copied (grown_parser p) bytes)
  grown-IsTaken h k =
      let q = grown_parser p in
      let same : unread q ≡ unread p = resize-unread _ p v in
      let w : IsWindow q =
        unfold resize in
        record { ordered = v.ordered; within = omega (arith, v.within, doubled h) } in
      let room : q.write_pos + length bytes ≤ length q.buffer =
        omega (arith, doubled h, resize-write_pos (min (length p.buffer * 2) max_buffer_size) p) in
      let t = copied-IsTaken q bytes w room in
      record {
        window = t.window;
        received = t.received ∙ ap (λ xs. xs ++ bytes) same;
        same_tracking = unfold resize in refl;
        grown = inr (length-overwrite q.write_pos bytes q.buffer room ∙ doubled h);
      }

  not_full :
      leb (min (length p.buffer * 2) max_buffer_size) (length p.buffer) ≡ false
      → length p.buffer ≢ max_buffer_size
  not_full grows e = ground arith

  grow_and_copy_grows :
      length p.buffer < p.write_pos + length bytes
      → leb (min (length p.buffer * 2) max_buffer_size) (length p.buffer) ≡ false
      → grow_and_copy p bytes ≡ copy_in (grown_parser p) bytes
  unfolding grow_and_copy
  grow_and_copy_grows full grows =
      rw (lt→ltb (length p.buffer - p.write_pos) (length bytes) (omega (arith, v.within)), grows)

  grow_and_copy_room :
      p.write_pos + length bytes ≤ length p.buffer → grow_and_copy p bytes ≡ copy_in p bytes
  unfolding grow_and_copy
  grow_and_copy_room room =
      rw (le→ltb (length p.buffer - p.write_pos) (length bytes) (omega (arith, v.within)))

  pub room-Appended :
      {r : Option (ℕ × Parser)}
      → p.write_pos + length bytes ≤ length p.buffer
      → r ≡ copy_in p bytes
      → Appended p bytes r
  room-Appended room e =
      let t = copied-IsTaken p bytes v room in
      taken (copied p bytes) (e ∙ copy_in_fits p bytes room) t
        (omega (arith, c, length-overwrite p.write_pos bytes p.buffer room))

  -- From here on the unread bytes stand at the start of the buffer, as after compaction.
  module _ (start : p.read_pos ≡ 0) where
    enlarged-Appended :
        leb (min (length p.buffer * 2) max_buffer_size) (length p.buffer) ≡ false
        → length p.buffer < p.write_pos + length bytes
        → Appended p bytes (grow_and_copy p bytes)
    enlarged-Appended grows full =
        let room = p.write_pos + length bytes in
        let e = grow_and_copy_grows full grows in
        elim (dec_le room (2 * length p.buffer)) [
          | yes fits ↦
              let t = grown-IsTaken (not_full grows) fits in
              taken (copied (grown_parser p) bytes)
                (e
                  ∙ copy_in_fits (grown_parser p) bytes (
                      omega (
                        arith,
                        doubled (not_full grows),
                        resize-write_pos (min (length p.buffer * 2) max_buffer_size) p,
                      )))
                t (omega (arith, t.grown, c, not_full grows))
          | no long ↦
              overrun
                (e
                  ∙ copy_in_overrun (grown_parser p) bytes (
                      omega (
                        arith,
                        doubled (not_full grows),
                        resize-write_pos (min (length p.buffer * 2) max_buffer_size) p,
                      )))
                (omega (arith, c, not_full grows)) (omega (arith, length-unread p v))
        ]

    full-Appended :
        leb (min (length p.buffer * 2) max_buffer_size) (length p.buffer) ≡ true
        → length p.buffer < p.write_pos + length bytes
        → Appended p bytes (grow_and_copy p bytes)
    unfolding grow_and_copy
    full-Appended stuck full =
        refused (record p { tracking = count_malformed p.tracking })
          (rw (
            lt→ltb (length p.buffer - p.write_pos) (length bytes) (omega (arith, v.within)),
            stuck,
          ))
          (record { ordered = v.ordered; within = v.within }) (unfold unread in refl) refl refl
          (omega tests) (omega (tests, length-unread p v))

    pub grow_and_copy-Appended : Appended p bytes (grow_and_copy p bytes)
    grow_and_copy-Appended = elim (dec_lt (length p.buffer) (p.write_pos + length bytes)) [
      | yes full ↦
          elim (Bool-cases (leb (min (length p.buffer * 2) max_buffer_size) (length p.buffer))) [
            | inl stuck ↦ full-Appended stuck full
            | inr grows ↦ enlarged-Appended grows full
          ]
      | no room ↦ room-Appended (omega arith) (grow_and_copy_room (omega arith))
    ]
