-- ===== src/Parser/Loop.antt =====
-- `parse_messages` on the buffer does what the abstract parser does on the unread bytes.
use qode.Base.{
  ℕ, zero, suc, ◌+◌, ◌-◌, ◌≤◌, ◌<◌, ◌≡◌, refl, sym, ap, ap₂, ◌∙◌, true, false, List, [], ◌++◌,
  length, drop, take, arith, subst, drop-take, drop-drop, some, Bool-cases, inl, inr,
}
use qode.Parser.{
  Event, Tracking, Parser, need_more, next_frame, handle_frame, counts, stops, parse_one,
  parse_loop, parse_messages, unread, Run, before, ParseResult, need_more_data,
}
use qode.Parser.Buffer.{IsWindow, length-unread}
use qode.Parser.Frames.{next_frame-take, handle_frame-Advances}
use qode.Parser.Stream.{Decodes, stop, step, frame_of}

-- `parse_one` finds the frame at the start of the unread bytes.
frame-unread :
    (p : Parser)
    → IsWindow p
    → next_frame (p.write_pos - p.read_pos) (drop p.read_pos p.buffer) ≡ frame_of (unread p)
unfolding unread
frame-unread p v =
    sym (next_frame-take (p.write_pos - p.read_pos) (drop p.read_pos p.buffer))
    ∙ ap (λ n. next_frame n (unread p)) (sym (length-unread p v))

-- The parser after a round that moves the read position by `k`.
abbrev advanced : ℕ → Tracking → Parser → Parser
advanced k t p = record p { read_pos = p.read_pos + k; tracking = t }

unread-advanced :
    (k : ℕ) (t : Tracking) (p : Parser)
    → k ≤ p.write_pos - p.read_pos
    → unread (advanced k t p) ≡ drop k (unread p)
unfolding unread
unread-advanced k t p h =
    ap₂ take
      (let e : p.write_pos - (p.read_pos + k) ≡ p.write_pos - p.read_pos - k = omega arith in e)
      (sym (drop-drop k p.read_pos (p.read_pos + k) p.buffer refl))
    ∙ sym (
        drop-take k (p.write_pos - p.read_pos - k) (p.write_pos - p.read_pos)
          (drop p.read_pos p.buffer) (omega arith))

-- A round, told by the frame at the start of the unread bytes.
parse_one_lem :
    (p : Parser)
    → IsWindow p
    → let r = handle_frame (frame_of (unread p)) p.tracking in
      parse_one p ≡ (r.result, r.events, advanced r.consumed r.tracking p)
unfolding parse_one
parse_one_lem p v =
    ap
      (λ f.
        let r = handle_frame f p.tracking in (r.result, r.events, advanced r.consumed r.tracking p))
      (frame-unread p v)

-- What a run of the loop from `p`, with the count `c` so far, has done.
pub record IsRun (p : Parser) (c : ℕ) (run : Run) : Type 0 where
  pub parsed : ℕ
  pub counted : run.count ≡ c + parsed
  pub decoded :
      Decodes run.parser.tracking (unread run.parser) p.tracking (unread p) parsed run.events
  pub window : IsWindow run.parser
  pub same_buffer : run.parser.buffer ≡ p.buffer
  pub same_write_pos : run.parser.write_pos ≡ p.write_pos

module _ (fuel c : ℕ) (p : Parser) {r : ParseResult} {es : List Event} {q : Parser}
    (one : parse_one p ≡ (r, es, q)) where
  parse_loop_stop :
      stops r ≡ true
      → parse_loop (suc fuel) c p ≡ some (record { count = c; events = es; parser = q })
  unfolding parse_loop
  parse_loop_stop s = rw (one, s)

  parse_loop_go :
      stops r ≡ false → parse_loop (suc fuel) c p ≡ before es (parse_loop fuel (c + counts r) q)
  unfolding parse_loop
  parse_loop_go s = rw (one, s)

-- The last round: no frame is complete.
parse_loop-IsRun_stop :
    (fuel c : ℕ) (p : Parser)
    → IsWindow p
    → frame_of (unread p) ≡ need_more
    → (run : Run) × (parse_loop (suc fuel) c p ≡ some run) × IsRun p c run
unfolding handle_frame
parse_loop-IsRun_stop fuel c p v e =
    let q = advanced 0 p.tracking p in
    let one : parse_one p ≡ (need_more_data, [], q) =
      parse_one_lem p v
      ∙ ap
          (λ f.
            let r = handle_frame f p.tracking in
            (r.result, r.events, advanced r.consumed r.tracking p))
          e in
    (
      record { count = c; events = []; parser = q },
      parse_loop_stop fuel c p one refl,
      record {
        parsed = 0;
        counted = omega arith;
        decoded = stop e refl (sym (unread-advanced 0 p.tracking p (omega arith))) refl refl;
        window = record { ordered = omega (arith, v.ordered); within = v.within };
        same_buffer = refl;
        same_write_pos = refl;
      },
    )

parse_loop-IsRun :
    (fuel c : ℕ) (p : Parser)
    → IsWindow p
    → p.write_pos - p.read_pos < fuel
    → (run : Run) × (parse_loop fuel c p ≡ some run) × IsRun p c run
parse_loop-IsRun zero c p v h = absurd (omega arith)
parse_loop-IsRun (suc fuel) c p v h =
    let t = p.tracking in
    let r = handle_frame (frame_of (unread p)) t in
    let a = handle_frame-Advances (length (unread p)) (unread p) t in
    let room : r.consumed ≤ p.write_pos - p.read_pos =
      omega (arith, a.at_most, length-unread p v) in
    let q = advanced r.consumed r.tracking p in
    elim (Bool-cases (stops r.result)) [
      | inl s ↦ parse_loop-IsRun_stop fuel c p v (a.stopped s)
      | inr go ↦
          let w : IsWindow q = record { ordered = omega (arith, v.ordered); within = v.within } in
          let (run, e, i) =
            parse_loop-IsRun fuel (c + counts r.result) q w (omega (arith, a.at_least go)) in
          (
            record run { events = r.events ++ run.events },
            parse_loop_go fuel c p (parse_one_lem p v) go ∙ ap (before r.events) e,
            record {
              parsed = counts r.result + i.parsed;
              counted = omega (arith, i.counted);
              decoded =
                  step go
                    (subst
                      (λ bs.
                        Decodes run.parser.tracking (unread run.parser) r.tracking bs i.parsed
                          run.events)
                      (unread-advanced r.consumed r.tracking p room) i.decoded)
                    refl refl;
              window = i.window;
              same_buffer = i.same_buffer;
              same_write_pos = i.same_write_pos;
            },
          )
    ]

-- `parse_messages` ends, also on bytes that are no messages, and what it returns, the callbacks it
-- makes, the counters and the bytes it leaves unread are those of the abstract parser on the unread
-- bytes. It does not touch the buffer or the write position.
pub parse_messages-IsRun :
    (p : Parser) → IsWindow p → (run : Run) × (parse_messages p ≡ some run) × IsRun p 0 run
unfolding parse_messages
parse_messages-IsRun p v = parse_loop-IsRun (suc (p.write_pos - p.read_pos)) 0 p v (omega arith)
