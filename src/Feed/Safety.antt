-- ===== src/Feed/Safety.antt =====
-- src/client/feed_handler.cpp: the handler as a whole never writes past the parser's buffer, and it
-- leaves the terminal as it found it.
use qode.Base.{
  if◌then◌else◌, ◌≡◌, refl, sym, ◌∙◌, Bool, true, false, ◌||◌, Option, some, List, [], ◌∷◌, if-elim,
  >>=-some,
}
use mathlib.Core.Bool.{true≢false}
use qode.Socket.{Waited, lost, idle, ready, wait_for_data, connect, send_subscription}
use qode.Visualizer.{is_empty, Terminal, set_connected}
use qode.Visualizer.Restored.{IsTidy, Same-IsTidy, start-IsTidy, set_connected-Same}
use qode.Feed.Process.{process_data-Processed}
use qode.Feed.Rounds.{processed}
use qode.Feed.Answers.{Fits}
use qode.Feed.Handler.{
  FeedHandler, Round, Startup, with_socket, stop, start, check_input, handle_lost, show_stats,
  handle_wait, end_round, run_round, run_loop, run, is_nil, address_of,
}
use qode.Feed.Handled.{
  IsHandled, with_feed, with_socket-IsHandled, stop-IsHandled, check_input-IsHandled,
  handle_lost-IsHandled, show_stats-IsHandled,
}

-- In every round `recv` writes no more than its buffer holds.
abbrev pub AllFit : List Round → Type 0
AllFit [] = Unit {0}
AllFit (r ∷ rs) = Fits r.world × AllFit rs

module _ (t : Terminal) (waits : t.blocking ≡ true) (shown : t.cursor ≡ true) where
  handle_wait-IsHandled :
      (r : Round) (waited : Waited) (h : FeedHandler)
      → Fits r.world
      → IsHandled t h
      → (h' : FeedHandler) × (handle_wait r waited h ≡ some h') × IsHandled t h'
  unfolding handle_wait
  handle_wait-IsHandled r lost h fits k =
      (handle_lost r h, refl, handle_lost-IsHandled t waits shown r h k)
  handle_wait-IsHandled r idle h fits k =
      (show_stats r h, refl, show_stats-IsHandled t waits shown r h k)
  handle_wait-IsHandled r ready h fits k =
      elim (process_data-Processed r.world h.feed fits k.parses) [
        | processed n next e goes why v fed ↦ (
          show_stats r (record h { feed = next }),
          >>=-some _ e,
          show_stats-IsHandled t waits shown r (record h { feed = next })
              (with_feed t waits shown h next v k),
        )
      ]

  run_round-IsHandled :
      (r : Round) (h : FeedHandler)
      → Fits r.world
      → IsHandled t h
      → (h' : FeedHandler) × (run_round r h ≡ some h') × IsHandled t h'
  unfolding run_round end_round
  run_round-IsHandled r h fits k =
      let (quit, h1) = check_input r h in
      let k1 = check_input-IsHandled t waits shown r h k in
      let (waited, socket) = wait_for_data r.wait h1.feed.socket in
      let (h2, e, k2) =
        handle_wait-IsHandled r waited (with_socket socket h1) fits
          (with_socket-IsHandled t waits shown socket h1 k1) in
      if-elim (λ (o : Option FeedHandler). (h' : FeedHandler) × (o ≡ some h') × IsHandled t h') quit
        (λ _. (stop h1, refl, stop-IsHandled t waits shown h1 k1))
        (λ _. (
          end_round r h2,
          >>=-some _ e,
          if-elim (IsHandled t) r.interrupted (λ _. stop-IsHandled t waits shown h2 k2) (λ _. k2),
        ))

  start-IsHandled : (s : Startup) (h : FeedHandler) → IsHandled t h → IsHandled t (start s h).1
  unfolding start
  start-IsHandled s h k =
      let (connected, socket) = connect s.events_ok s.dial h.feed.socket in
      let h1 = with_socket socket h in
      let k1 = with_socket-IsHandled t waits shown socket h k in
      let ids = h.config.subscribe_symbols in
      let dumps = if is_empty h.config.dump_file then h.dumping else s.dump_ok in
      let v = set_connected true (address_of h.config) h.visualizer in
      let tidy : IsTidy t v =
        Same-IsTidy t h.visualizer v (set_connected-Same true (address_of h.config) h.visualizer)
          k.tidy in
      if-elim (λ (x : Bool × FeedHandler). IsHandled t x.1) connected
        (λ _.
          if-elim (λ (x : Bool × FeedHandler). IsHandled t x.1)
            (is_nil ids || send_subscription s.subscription ids socket)
            (λ _.
              if-elim
                (λ (x : FeedHandler). IsHandled t (record x { running = true; dumping = dumps }))
                h.config.enable_visualization
                (λ on. record {
                  parses = k1.parses;
                  tidy = start-IsTidy t s.size s.time v tidy;
                  ends = λ off. absurd (true≢false off);
                  hidden = λ off. absurd (true≢false (sym on ∙ off));
                })
                (λ off. record {
                  parses = k1.parses;
                  tidy = k.tidy;
                  ends = λ stopped. absurd (true≢false stopped);
                  hidden = k.hidden;
                }))
            (λ _. k1))
        (λ _. k1)

  run_loop-IsHandled :
      (rs : List Round) (h : FeedHandler)
      → AllFit rs
      → IsHandled t h
      → (h' : FeedHandler) × (run_loop rs h ≡ some h') × IsHandled t h'
  unfolding run_loop
  run_loop-IsHandled [] h fits k = (h, refl, k)
  run_loop-IsHandled (r ∷ rs) h fits k =
      let (h1, e, k1) = run_round-IsHandled r h fits.0 k in
      let (h2, e', k2) = run_loop-IsHandled rs h1 fits.1 k1 in
      if-elim (λ (o : Option FeedHandler). (h' : FeedHandler) × (o ≡ some h') × IsHandled t h')
        h.running (λ _. (h2, >>=-some _ e ∙ e', k2)) (λ _. (h, refl, k))

-- `run` gets through any rounds, whatever the keys, the kernel and the clock give, without a write
-- past the parser's buffer, where `recv` never writes more than its buffer holds. And where it ends
-- not running, the terminal, which waited for input and showed its cursor, is as it was found.
pub run-IsHandled :
    (t : Terminal) (s : Startup) (rs : List Round) (h : FeedHandler)
    → t.blocking ≡ true
    → t.cursor ≡ true
    → AllFit rs
    → IsHandled t h
    → (h' : FeedHandler) × (run s rs h ≡ some h')
      × IsHandled t h'
      × (h'.running ≡ false → h'.visualizer.terminal ≡ t)
unfolding run
run-IsHandled t s rs h waits shown fits k =
    let (ok, h0) = start s h in
    let k0 = start-IsHandled t waits shown s h k in
    let (h1, e1, k1) = run_loop-IsHandled t waits shown rs h fits k in
    let (h2, e2, k2) = run_loop-IsHandled t waits shown rs h0 fits k0 in
    let restored : (x : FeedHandler)
        → IsHandled t x
        → x.running ≡ false
        → x.visualizer.terminal ≡ t =
      λ x kx off. kx.tidy.untouched (kx.ends off) in
    if-elim
      (λ (o : Option FeedHandler).
        (h' : FeedHandler) × (o ≡ some h')
        × IsHandled t h'
        × (h'.running ≡ false → h'.visualizer.terminal ≡ t))
      h.running (λ _. (h1, e1, k1, restored h1 k1))
      (λ _.
        if-elim
          (λ (o : Option FeedHandler).
            (h' : FeedHandler) × (o ≡ some h')
            × IsHandled t h'
            × (h'.running ≡ false → h'.visualizer.terminal ≡ t))
          ok (λ _. (h2, e2, k2, restored h2 k2)) (λ _. (h0, refl, k0, restored h0 k0)))
