-- ===== src/Visualizer/Restored.antt =====
-- src/client/visualizer.cpp: the terminal is left as it was found.
use qode.Base.{
  ℕ, ◌*◌, ◌-◌, leb, ◌≡◌, refl, sym, ap, ◌∙◌, Bool, true, false, not, none, some, List, [], ◌∷◌,
  if-elim, Text, ◌==◌, ◌||◌,
}
use mathlib.Core.Bool.{true≢false}
use qode.Visualizer.{
  Visualizer, Terminal, Size, Sources, update_terminal_size, init_terminal, restore_terminal, start,
  stop, set_connected, render_state, update_stats, reset_stats, process_input, refresh_interval_ms,
}
use qode.Visualizer.Calls.{Call, started, stopped, connection, updated, keys, make_call, make_calls}

-- While the display runs the settings found are kept; while it does not, the terminal is as found:
-- `t`, which waits for input and shows its cursor.
pub record IsTidy (t : Terminal) (v : Visualizer) : Type 0 where
  pub initialized : v.terminal_initialized ≡ v.running
  pub kept : v.running ≡ true → v.original_termios ≡ t.settings
  pub untouched : v.running ≡ false → v.terminal ≡ t

-- The parts of the state that matter here.
pub record Same (v v' : Visualizer) : Type 0 where
  pub same_running : v'.running ≡ v.running
  pub same_initialized : v'.terminal_initialized ≡ v.terminal_initialized
  pub same_original : v'.original_termios ≡ v.original_termios
  pub same_terminal : v'.terminal ≡ v.terminal

pub Same-IsTidy : (t : Terminal) (v v' : Visualizer) → Same v v' → IsTidy t v → IsTidy t v'
Same-IsTidy t v v' s h = record {
  initialized = s.same_initialized ∙ h.initialized ∙ sym s.same_running;
  kept = λ on. s.same_original ∙ h.kept (sym s.same_running ∙ on);
  untouched = λ off. s.same_terminal ∙ h.untouched (sym s.same_running ∙ off);
}

Same-self : (v : Visualizer) → Same v v
Same-self v = record {
  same_running = refl;
  same_initialized = refl;
  same_original = refl;
  same_terminal = refl;
}

update_terminal_size-Same : (size : Size) (v : Visualizer) → Same v (update_terminal_size size v)
unfolding update_terminal_size
update_terminal_size-Same none v = Same-self v
update_terminal_size-Same (some (rows, cols)) v = record {
  same_running = refl;
  same_initialized = refl;
  same_original = refl;
  same_terminal = refl;
}

init_terminal_fresh :
    (size : Size) (v : Visualizer)
    → v.terminal_initialized ≡ false
    → let v' = init_terminal size v in
      (v'.terminal_initialized ≡ true) × (v'.original_termios ≡ v.terminal.settings)
unfolding init_terminal
init_terminal_fresh size v off =
    if-elim
      (λ (v' : Visualizer).
        (v'.terminal_initialized ≡ true) × (v'.original_termios ≡ v.terminal.settings))
      v.terminal_initialized (λ on. absurd (true≢false (sym on ∙ off)))
      (λ _. (refl, (update_terminal_size-Same size _).same_original))

pub start-IsTidy :
    (t : Terminal) (size : Size) (now : ℕ) (v : Visualizer)
    → IsTidy t v
    → IsTidy t (start size now v)
unfolding start
start-IsTidy t size now v h =
    if-elim (IsTidy t) v.running (λ on. h)
      (λ off.
        let (on, saved) = init_terminal_fresh size v (h.initialized ∙ off) in
        record {
          initialized = on;
          kept = λ _. saved ∙ ap (λ u. u.settings) (h.untouched off);
          untouched = λ e. absurd (true≢false e);
        })

pub stop-IsTidy :
    (t : Terminal) (v : Visualizer)
    → t.blocking ≡ true
    → t.cursor ≡ true
    → IsTidy t v
    → IsTidy t (stop v) × ((stop v).running ≡ false)
unfolding stop restore_terminal
stop-IsTidy t v waits shown h =
    if-elim (λ (v' : Visualizer). IsTidy t v' × (v'.running ≡ false)) (not v.running)
      (λ off. (h, not-true v.running off))
      (λ on.
        let running = not-false v.running on in
        if-elim (λ (v' : Visualizer). IsTidy t v' × (v'.running ≡ false))
          (not v.terminal_initialized)
          (λ off.
            absurd
              (true≢false (sym running ∙ sym h.initialized ∙ not-true v.terminal_initialized off)))
          (λ _. (
            record {
              initialized = refl;
              kept = λ e. absurd (true≢false (sym e));
              untouched = λ _ i. record {
                settings = h.kept running i;
                blocking = sym waits i;
                cursor = sym shown i;
              };
            },
            refl,
          )))
  where
    not-true : (b : Bool) → not b ≡ true → b ≡ false
    not-true true e = sym e
    not-true false e = refl

    not-false : (b : Bool) → not b ≡ false → b ≡ true
    not-false true e = refl
    not-false false e = sym e

pub set_connected-Same :
    (connected : Bool) (server : Text) (v : Visualizer) → Same v (set_connected connected server v)
unfolding set_connected
set_connected-Same connected server v = record {
  same_running = refl;
  same_initialized = refl;
  same_original = refl;
  same_terminal = refl;
}

pub update_stats-Same :
    (messages bytes gaps : ℕ) (size : Size) (now : ℕ) (v : Visualizer)
    → Same v (update_stats messages bytes gaps size now v).1
unfolding update_stats render_state
update_stats-Same messages bytes gaps size now v =
    let v' : Visualizer = record v {
      messages_received = messages;
      bytes_received = bytes;
      sequence_gaps = gaps;
    } in
    let keep : (u : Visualizer) → Same v' u → Same v (record u { last_update = now }) = λ u s.
      record {
        same_running = s.same_running;
        same_initialized = s.same_initialized;
        same_original = s.same_original;
        same_terminal = s.same_terminal;
      } in
    if-elim (λ (r : Bool × Visualizer). Same v r.1)
      (leb (refresh_interval_ms * 1000000) (now - v.last_update))
      (λ _. keep (render_state size v') (
        if-elim (Same v') (not v.running) (λ _. Same-self v')
          (λ _. update_terminal_size-Same size v')))
      (λ _. record {
        same_running = refl;
        same_initialized = refl;
        same_original = refl;
        same_terminal = refl;
      })

pub process_input-Same :
    (now : ℕ) (typed : List ℕ) (v : Visualizer) (s : Sources)
    → Same v (process_input now typed (v, s)).1
unfolding process_input reset_stats
process_input-Same now [] v s = Same-self v
process_input-Same now (c ∷ cs) v s =
    let (v', s') = reset_stats now (v, s) in
    let later = process_input-Same now cs v' s' in
    if-elim (λ (r : Bool × Visualizer × Sources). Same v r.1) (c == b'q' || c == b'Q')
      (λ _. Same-self v)
      (λ _.
        if-elim (λ (r : Bool × Visualizer × Sources). Same v r.1) (c == b'r' || c == b'R')
          (λ _. record {
            same_running = later.same_running;
            same_initialized = later.same_initialized;
            same_original = later.same_original;
            same_terminal = later.same_terminal;
          })
          (λ _. process_input-Same now cs v s))

make_call-IsTidy :
    (t : Terminal) (s : Sources) (c : Call) (v : Visualizer)
    → t.blocking ≡ true
    → t.cursor ≡ true
    → IsTidy t v
    → IsTidy t (make_call s c v)
unfolding make_call
make_call-IsTidy t s (started size now) v waits shown h = start-IsTidy t size now v h
make_call-IsTidy t s stopped v waits shown h = (stop-IsTidy t v waits shown h).0
make_call-IsTidy t s (connection connected server) v waits shown h =
    Same-IsTidy t v _ (set_connected-Same connected server v) h
make_call-IsTidy t s (updated messages bytes gaps size now) v waits shown h =
    Same-IsTidy t v _ (update_stats-Same messages bytes gaps size now v) h
make_call-IsTidy t s (keys now typed) v waits shown h =
    Same-IsTidy t v _ (process_input-Same now typed v s) h

-- A terminal that waits for input and shows its cursor is left as it was found: whatever calls of
-- the visualizer there are, `start` any number of times among them, after a `stop` the terminal is
-- the one before them.
pub stop-restored :
    (t : Terminal) (s : Sources) (cs : List Call) (v : Visualizer)
    → t.blocking ≡ true
    → t.cursor ≡ true
    → IsTidy t v
    → (stop (make_calls s cs v)).terminal ≡ t
unfolding make_calls
stop-restored t s [] v waits shown h =
    let (tidy, off) = stop-IsTidy t v waits shown h in tidy.untouched off
stop-restored t s (c ∷ cs) v waits shown h =
    stop-restored t s cs (make_call s c v) waits shown (make_call-IsTidy t s c v waits shown h)
