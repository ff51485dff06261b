-- ===== src/Parser/Frames.antt =====
-- The guards of `parse_one` look at nothing but the unread bytes, and what they find does not
-- change when more bytes arrive behind these.
use qode.Base.{
  ℕ, ◌-◌, ◌≤◌, ◌<◌, ◌≡◌, ◌≢◌, refl, sym, ap, ◌∙◌, subst, true, false, List, ◌++◌, ltb, length, take,
  take-take, slice-take, take-append, take_all, length-append, arith, tests, Bool-cases, inl, inr,
}
use qode.Protocol.{
  MessageType, trade, quote, heartbeat, unnamed, to_message_type, get_message_size, read_header,
  quote_msg_size,
}
use qode.Protocol.Layout.{read_header-take}
use qode.Parser.{
  Frame, need_more, malformed, bad_checksum, message, next_frame, validate_checksum, handle_frame,
  stops, Tracking,
}

pub get_message_size-le : (t : MessageType) → get_message_size t ≤ quote_msg_size
unfolding get_message_size
get_message_size-le trade = omega arith
get_message_size-le quote = omega arith
get_message_size-le heartbeat = omega arith
get_message_size-le (unnamed n) = omega arith

validate_checksum-take :
    (size n : ℕ) (bs : List ℕ)
    → size ≤ n
    → validate_checksum (take n bs) size ≡ validate_checksum bs size
unfolding validate_checksum
validate_checksum-take size n bs h = elim (Bool-cases (ltb size 4)) [
  | inl short ↦ rw short
  | inr long ↦
      rw (take-take (size - 4) n bs (omega arith), slice-take (size - 4) 4 n bs (omega tests))
]

abbrev size_at : List ℕ → ℕ
size_at bs = get_message_size (to_message_type (read_header bs).message_type)

-- Only the available bytes are looked at.
pub next_frame-take : (n : ℕ) (bs : List ℕ) → next_frame n (take n bs) ≡ next_frame n bs
unfolding next_frame
next_frame-take n bs = elim (Bool-cases (ltb n 16)) [
  | inl short ↦ rw short
  | inr long ↦
      rw (long, read_header-take n bs (omega tests))
        (elim (Bool-cases (ltb n (size_at bs))) [
          | inl partial ↦ rw partial
          | inr whole ↦ rw (
            validate_checksum-take (size_at bs) n bs (omega tests),
            take-take (size_at bs) n bs (omega tests),
          )
        ])
]

-- A frame that is there stays there when more is available.
next_frame_mono :
    (n n' : ℕ) (bs : List ℕ)
    → n ≤ n'
    → next_frame n bs ≢ need_more
    → next_frame n' bs ≡ next_frame n bs
unfolding next_frame
next_frame_mono n n' bs h found = ground arith

pub next_frame-append :
    (xs ys : List ℕ)
    → next_frame (length xs) xs ≢ need_more
    → next_frame (length (xs ++ ys)) (xs ++ ys) ≡ next_frame (length xs) xs
next_frame-append xs ys found =
    let same : next_frame (length xs) (xs ++ ys) ≡ next_frame (length xs) xs =
      sym (next_frame-take (length xs) (xs ++ ys))
      ∙ ap (next_frame (length xs))
          (take-append (length xs) xs ys (omega arith) ∙ take_all (length xs) xs (omega arith)) in
    next_frame_mono (length xs) (length (xs ++ ys)) (xs ++ ys) (omega (arith, length-append xs ys))
      (λ e. found (sym same ∙ e))
    ∙ same

-- What the guards have made sure of when a frame is found.
abbrev pub Sound : ℕ → List ℕ → Frame → Type 0
Sound n bs need_more = n < quote_msg_size
Sound n bs malformed = 16 ≤ n
Sound n bs bad_checksum = 16 ≤ n
Sound n bs (message header type bytes) =
    (header ≡ read_header bs)
    × (type ≡ to_message_type header.message_type)
    × (bytes ≡ take (get_message_size type) bs)
    × (get_message_size type ≤ n)
    × (0 < get_message_size type)
    × (validate_checksum bs (get_message_size type) ≡ true)

next_frame-Sound : (n : ℕ) (bs : List ℕ) → Sound n bs (next_frame n bs)
unfolding next_frame
next_frame-Sound n bs =
    ground (arith, get_message_size-le (to_message_type (read_header bs).message_type))

-- A round that does not stop the loop moves the read position, and not past the write position.
pub record Advances (n : ℕ) (f : Frame) (t : Tracking) : Type 0 where
  pub at_most : (handle_frame f t).consumed ≤ n
  pub at_least : stops (handle_frame f t).result ≡ false → 1 ≤ (handle_frame f t).consumed
  pub stopped : stops (handle_frame f t).result ≡ true → f ≡ need_more

Sound-Advances : (n : ℕ) (bs : List ℕ) (f : Frame) (t : Tracking) → Sound n bs f → Advances n f t
unfolding handle_frame
Sound-Advances n bs need_more t v = record {
  at_most = omega arith;
  at_least = λ e. cc;
  stopped = λ e. refl;
}
Sound-Advances n bs malformed t v = record {
  at_most = omega arith;
  at_least = λ e. omega arith;
  stopped = λ e. cc;
}
Sound-Advances n bs bad_checksum t v = record {
  at_most = omega arith;
  at_least = λ e. omega arith;
  stopped = λ e. cc;
}
Sound-Advances n bs (message header type bytes) t v = record {
  at_most = v.3;
  at_least = λ e. v.4;
  stopped = λ e. ground arith;
}

pub handle_frame-Advances : (n : ℕ) (bs : List ℕ) (t : Tracking) → Advances n (next_frame n bs) t
handle_frame-Advances n bs t = Sound-Advances n bs (next_frame n bs) t (next_frame-Sound n bs)

-- Less than a quote message is left where no frame is complete.
pub need_more-lt : (n : ℕ) (bs : List ℕ) → next_frame n bs ≡ need_more → n < quote_msg_size
need_more-lt n bs e = subst (Sound n bs) e (next_frame-Sound n bs)
