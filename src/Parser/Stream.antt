-- ===== src/Parser/Stream.antt =====
-- The abstract parser: what a stream of bytes means, with no buffer, no positions and no fuel.
use qode.Base.{
  ℕ, ◌+◌, ◌≡◌, ◌≢◌, refl, sym, ap, ◌∙◌, false, List, [], ◌++◌, length, drop, drop-append,
  append_assoc, arith,
}
use native.Mathlib.Nat.{zero-add, add_assoc}
use qode.Parser.{Event, Tracking, Frame, need_more, next_frame, handle_frame, counts, stops}
use qode.Parser.Frames.{next_frame-append, handle_frame-Advances}

-- The frame at the start of a stream.
abbrev pub frame_of : List ℕ → Frame
frame_of bs = next_frame (length bs) bs

-- From the state `t`, the bytes `bs` hold `count` messages, call `events`, lead to the state `t'`
-- and leave the bytes `rest`, in which no frame is complete.
pub data Decodes (t' : Tracking) (rest : List ℕ) : Tracking → List ℕ → ℕ → List Event → Type 0 where
  stop :
      {t : Tracking} {bs : List ℕ} {c : ℕ} {es : List Event}
      → frame_of bs ≡ need_more
      → t ≡ t'
      → bs ≡ rest
      → c ≡ 0
      → es ≡ []
      → Decodes t' rest t bs c es
  step :
      {t : Tracking} {bs : List ℕ} {c count : ℕ} {es events : List Event}
      → stops (handle_frame (frame_of bs) t).result ≡ false
      → Decodes t' rest
          (handle_frame (frame_of bs) t).tracking
          (drop (handle_frame (frame_of bs) t).consumed bs)
          count
          events
      → c ≡ counts (handle_frame (frame_of bs) t).result + count
      → es ≡ (handle_frame (frame_of bs) t).events ++ events
      → Decodes t' rest t bs c es

frame-ne-need_more :
    (t : Tracking) (f : Frame) → stops (handle_frame f t).result ≡ false → f ≢ need_more
unfolding handle_frame
frame-ne-need_more t f h e = ground arith

-- A round at a frame that is known.
pub step_at :
    {t' t : Tracking} {rest bs : List ℕ} {count c : ℕ} {events es : List Event} (f : Frame)
    → frame_of bs ≡ f
    → stops (handle_frame f t).result ≡ false
    → Decodes t' rest (handle_frame f t).tracking (drop (handle_frame f t).consumed bs) count events
    → c ≡ counts (handle_frame f t).result + count
    → es ≡ (handle_frame f t).events ++ events
    → Decodes t' rest t bs c es
step_at {count} {events} f e go d l m =
    step {count = count} {events = events} (rw e go) (rw e d) (rw e l) (rw e m)

-- How a stream is cut into segments does not matter: decoding a part, and then what it left with
-- the bytes that came later, is decoding all of it.
pub Decodes-append :
    {t' t'' : Tracking} {rest rest' : List ℕ} {t : Tracking} {xs : List ℕ} {c c' : ℕ}
    {es es' : List Event} (ys : List ℕ)
    → Decodes t' rest t xs c es
    → Decodes t'' rest' t' (rest ++ ys) c' es'
    → Decodes t'' rest' t (xs ++ ys) (c + c') (es ++ es')
Decodes-append {c'} {es'} ys (stop h e k l m) d = rw (e, k, l, m, zero-add) d
Decodes-append {t} {xs} ys (step {count = n} {events = evs} go d l m) d' =
    let f = frame_of xs in
    let same : frame_of (xs ++ ys) ≡ f = next_frame-append xs ys (frame-ne-need_more t f go) in
    let r = handle_frame f t in
    rw (l, m, add_assoc (counts r.result) n, append_assoc r.events evs)
      (step_at f same go
        (rw (drop-append r.consumed xs ys (handle_frame-Advances (length xs) xs t).at_most)
          (Decodes-append ys d d'))
        refl refl)

-- Decoding the same bytes from the same state has one outcome: the count, the callbacks, the state
-- and the bytes that are left.
pub Decodes-determined :
    {t' t'' : Tracking} {rest rest' : List ℕ} {t : Tracking} {bs : List ℕ} {c c' : ℕ}
    {es es' : List Event}
    → Decodes t' rest t bs c es
    → Decodes t'' rest' t bs c' es'
    → (c ≡ c') × (es ≡ es') × (t' ≡ t'') × (rest ≡ rest')
Decodes-determined (stop h e k l m) (stop h' e' k' l' m') =
    (l ∙ sym l', m ∙ sym m', sym e ∙ e', sym k ∙ k')
Decodes-determined {t} (stop h e k l m) (step go d l' m') = absurd (frame-ne-need_more t _ go h)
Decodes-determined {t} (step go d l m) (stop h e k l' m') = absurd (frame-ne-need_more t _ go h)
Decodes-determined {t} {bs} (step go d l m) (step go' d' l' m') =
    let (a, b, p, q) = Decodes-determined d d' in
    let r = handle_frame (frame_of bs) t in
    (
      l ∙ ap (λ (n : ℕ). counts r.result + n) a ∙ sym l',
      m ∙ ap (λ (xs : List Event). r.events ++ xs) b ∙ sym m',
      p,
      q,
    )
