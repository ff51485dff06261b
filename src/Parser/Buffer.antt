-- ===== src/Parser/Buffer.antt =====
-- `compact_buffer` and the copies into the receive buffer, seen through the unread bytes.
use qode.Base.{
  ℕ, ◌+◌, ◌-◌, ◌≤◌, ◌≡◌, refl, sym, ap, ◌∙◌, List, ◌++◌, Bool-cases, inl, inr, length, take, drop,
  slice, length-append, length-take, length-drop, take-length, drop-append, drop-take, append_assoc,
  ltb, arith, tests, ◌==◌, ==→eq,
}
use qode.Parser.{Parser, unread, overwrite, compact_buffer}

-- The positions are in order and within the buffer.
pub record IsWindow (p : Parser) : Type 0 where
  pub ordered : p.read_pos ≤ p.write_pos
  pub within : p.write_pos ≤ length p.buffer

pub length-unread : (p : Parser) → IsWindow p → length (unread p) ≡ p.write_pos - p.read_pos
unfolding unread
length-unread p v = omega (
  arith,
  length-take (p.write_pos - p.read_pos) (drop p.read_pos p.buffer),
  length-drop p.read_pos p.buffer,
)

pub length-overwrite :
    (pos : ℕ) (bytes buf : List ℕ)
    → pos + length bytes ≤ length buf
    → length (overwrite pos bytes buf) ≡ length buf
unfolding overwrite
length-overwrite pos bytes buf h = omega (
  arith,
  length-append (take pos buf) (bytes ++ drop (pos + length bytes) buf),
  length-append bytes (drop (pos + length bytes) buf),
  length-take pos buf,
  length-drop (pos + length bytes) buf,
)

-- Bytes written at the end of a window lengthen the window by just these bytes.
pub slice-overwrite :
    (r w : ℕ) (bytes buf : List ℕ)
    → r ≤ w
    → w + length bytes ≤ length buf
    → slice r (w + length bytes - r) (overwrite w bytes buf) ≡ slice r (w - r) buf ++ bytes
unfolding overwrite
slice-overwrite r w bytes buf h k =
    let tail = drop (w + length bytes) buf in
    let n : ℕ = w + length bytes - r in
    let fits : r ≤ length (take w buf) = omega (arith, length-take w buf) in
    let size : length (slice r (w - r) buf ++ bytes) ≡ n = omega (
      arith,
      length-append (slice r (w - r) buf) bytes,
      length-take (w - r) (drop r buf),
      length-drop r buf,
    ) in
    ap (take n) (
      drop-append r (take w buf) (bytes ++ tail) fits
      ∙ ap (λ xs. xs ++ (bytes ++ tail)) (drop-take r (w - r) w buf (omega arith))
      ∙ sym (append_assoc (slice r (w - r) buf) bytes tail))
    ∙ take-length n (slice r (w - r) buf ++ bytes) tail size

-- What compaction keeps: the unread bytes, their order within the buffer, and all the rest.
pub record IsCompacted (p q : Parser) : Type 0 where
  pub same_unread : unread q ≡ unread p
  pub at_start : q.read_pos ≡ 0
  pub used : q.write_pos ≡ p.write_pos - p.read_pos
  pub same_size : length q.buffer ≡ length p.buffer
  pub same_tracking : q.tracking ≡ p.tracking

-- `memmove` to the front, when bytes are unread.
moved-IsCompacted :
    (p : Parser)
    → IsWindow p
    → IsCompacted p (record p {
      buffer = overwrite 0 (unread p) p.buffer;
      read_pos = 0;
      write_pos = p.write_pos - p.read_pos;
    })
moved-IsCompacted p v =
    let size : length (unread p) ≡ p.write_pos - p.read_pos = length-unread p v in
    record {
      same_unread =
          unfold unread in
          ap (λ n. slice 0 n (overwrite 0 (unread p) p.buffer))
            (let e : p.write_pos - p.read_pos - 0 ≡ 0 + length (unread p) - 0 = omega arith in e)
          ∙ slice-overwrite 0 0 (unread p) p.buffer (omega arith) (omega (arith, v.within));
      at_start = refl;
      used = refl;
      same_size = length-overwrite 0 (unread p) p.buffer (omega (arith, v.within));
      same_tracking = refl;
    }

-- Nothing is moved when nothing is unread.
emptied-IsCompacted :
    (p : Parser)
    → p.write_pos - p.read_pos ≡ 0
    → IsCompacted p (record p { read_pos = 0; write_pos = p.write_pos - p.read_pos })
emptied-IsCompacted p e = record {
  same_unread =
      unfold unread in
      ap (λ n. slice 0 n p.buffer) (let z : p.write_pos - p.read_pos - 0 ≡ 0 = omega arith in z)
      ∙ sym (ap (λ n. slice p.read_pos n p.buffer) e);
  at_start = refl;
  used = refl;
  same_size = refl;
  same_tracking = refl;
}

-- Compaction moves the unread bytes to the start of the buffer, in their order, and changes neither
-- the buffer's size nor the rest of the state.
pub compact_buffer-IsCompacted : (p : Parser) → IsWindow p → IsCompacted p (compact_buffer p)
unfolding compact_buffer
compact_buffer-IsCompacted p v = elim (Bool-cases (p.read_pos == 0)) [
  | inl start ↦
      rw (compact_buffer, start)
        (record {
          same_unread = refl;
          at_start = ==→eq p.read_pos 0 start;
          used = omega (arith, ==→eq p.read_pos 0 start);
          same_size = refl;
          same_tracking = refl;
        })
  | inr later ↦ elim (Bool-cases (ltb 0 (p.write_pos - p.read_pos))) [
    | inl some_left ↦ rw (compact_buffer, later, some_left) (moved-IsCompacted p v)
    | inr none_left ↦
        rw (compact_buffer, later, none_left) (emptied-IsCompacted p (omega (tests, none_left)))
  ]
]
