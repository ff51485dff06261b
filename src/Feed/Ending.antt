-- ===== src/Feed/Ending.antt =====
-- src/client/feed_handler.cpp: the main loop ends where the connection is lost for good.
use qode.Base.{
  ℕ, suc, ◌+◌, ◌≤◌, ◌<◌, ◌≡◌, refl, sym, ap, ◌∙◌, subst, ◌⊎◌, inl, inr, Bool, true, false, not,
  ◌||◌, Option, some, List, [], ◌∷◌, length, leb, leb→lt, if◌then◌else◌, if-elim, Bool-cases,
  dec_lt, >>=-some, ◌>>=◌, arith,
}
use qode.Socket.{
  Socket, Dial, WaitResult, Waited, lost, wait_for_data, reconnect, max_retry_count, disconnect,
}
use qode.Socket.Backoff.{succeeds, reconnect_refused, reconnect-tried, tried}
use qode.Visualizer.{Visualizer, Sources, process_input, set_connected}
use qode.Visualizer as Display
use qode.Feed.Handler.{
  FeedHandler, Round, on_display, with_socket, stop, destroy, check_input, after_reconnect,
  handle_lost, handle_wait, end_round, run_round, run_loop,
}

on_display-feed : (g : Visualizer → Visualizer) (h : FeedHandler) → (on_display g h).feed ≡ h.feed
on_display-feed g h =
    if-elim (λ (k : FeedHandler). k.feed ≡ h.feed) h.config.enable_visualization (λ _. refl)
      (λ _. refl)

on_display-running :
    (g : Visualizer → Visualizer) (h : FeedHandler) → (on_display g h).running ≡ h.running
on_display-running g h =
    if-elim (λ (k : FeedHandler). k.running ≡ h.running) h.config.enable_visualization (λ _. refl)
      (λ _. refl)

stop-running : (h : FeedHandler) → (stop h).running ≡ false
unfolding stop
stop-running h = on_display-running Display.stop (record h { running = false })

pub destroy-running : (h : FeedHandler) → (destroy h).running ≡ false
unfolding destroy
destroy-running h = stop-running h

stop-connected : (h : FeedHandler) → (stop h).feed.socket.connected ≡ false
unfolding stop disconnect
stop-connected h = refl

check_input-socket : (r : Round) (h : FeedHandler) → (check_input r h).1.feed.socket ≡ h.feed.socket
unfolding check_input
check_input-socket r h =
    if-elim (λ (k : Bool × FeedHandler). k.1.feed.socket ≡ h.feed.socket)
      h.config.enable_visualization (λ _. refl) (λ _. refl)

-- Stopped and disconnected, or one more attempt was made in vain and another one is left.
abbrev pub EndsOrRetries : ℕ → FeedHandler → Type 0
EndsOrRetries count h =
    (h.feed.socket.connected ≡ false)
    × ((h.running ≡ false)
        ⊎ ((h.feed.socket.reconnect_count ≡ suc count) × (suc count < max_retry_count)))

stopped_ends : (count : ℕ) (h : FeedHandler) → EndsOrRetries count (stop h)
stopped_ends count h = (stop-connected h, inl (stop-running h))

gave_up-EndsOrRetries :
    (n slept : ℕ) (s : Socket) (h : FeedHandler)
    → s.connected ≡ false
    → s.reconnect_count ≤ suc n
    → (s.reconnect_count < max_retry_count → s.reconnect_count ≡ suc n)
    → EndsOrRetries n (after_reconnect (false, slept, s) h)
unfolding after_reconnect
gave_up-EndsOrRetries n slept s h off most next =
    if-elim (EndsOrRetries n) (leb max_retry_count s.reconnect_count)
      (λ _. stopped_ends n (with_socket s h))
      (λ more.
        let few : s.reconnect_count < max_retry_count = leb→lt 5 s.reconnect_count more in
        (off, inr (next few, omega (arith, next few))))

reconnect_fails-EndsOrRetries :
    (n : ℕ) (d : Dial) (s : Socket) (h : FeedHandler)
    → succeeds d ≡ false
    → s.connected ≡ false
    → s.reconnect_count ≡ n
    → EndsOrRetries n (after_reconnect (reconnect d s) h)
reconnect_fails-EndsOrRetries n d s h fails off same =
    elim (dec_lt s.reconnect_count max_retry_count) [
      | no spent ↦
          subst (λ x. EndsOrRetries n (after_reconnect x h))
            (sym (reconnect_refused d s (omega arith)))
            (gave_up-EndsOrRetries n 0 s h off (omega arith) (λ l. absurd (omega arith)))
      | yes left ↦
          subst (λ x. EndsOrRetries n (after_reconnect x h))
            (sym (reconnect-tried d s left ∙ ap (λ b. (b, s.current_backoff_ms, tried b s)) fails))
            (gave_up-EndsOrRetries n s.current_backoff_ms (tried false s) h refl (omega arith)
              (λ _. omega arith))
    ]

handle_lost-EndsOrRetries :
    (r : Round) (h : FeedHandler)
    → succeeds r.dial ≡ false
    → h.feed.socket.connected ≡ false
    → EndsOrRetries h.feed.socket.reconnect_count (handle_lost r h)
unfolding handle_lost
handle_lost-EndsOrRetries r h fails off =
    let h' = on_display (set_connected false []) h in
    let same = on_display-feed (set_connected false []) h in
    let n = h.feed.socket.reconnect_count in
    if-elim (EndsOrRetries n) h.config.auto_reconnect
      (λ _.
        reconnect_fails-EndsOrRetries n r.dial h'.feed.socket h' fails
          (ap (λ k. k.socket.connected) same ∙ off) (ap (λ k. k.socket.reconnect_count) same))
      (λ _. stopped_ends n h')

wait_lost :
    (answer : WaitResult) (s : Socket) → s.connected ≡ false → wait_for_data answer s ≡ (lost, s)
unfolding wait_for_data
wait_lost answer s off =
    if-elim (λ x. x ≡ (lost, s)) (not s.connected || not s.has_fd) (λ _. refl)
      (λ e. absurd (ground (arith, off, e)))

round_lost :
    (r : Round) (h : FeedHandler)
    → h.feed.socket.connected ≡ false
    → succeeds r.dial ≡ false
    → (h' : FeedHandler) × (run_round r h ≡ some h')
      × EndsOrRetries h.feed.socket.reconnect_count h'
unfolding run_round handle_wait end_round
round_lost r h off fails =
    let n = h.feed.socket.reconnect_count in
    let (quit, h1) = check_input r h in
    let same = check_input-socket r h in
    let off1 : h1.feed.socket.connected ≡ false = ap (λ s. s.connected) same ∙ off in
    let h2 = handle_lost r h1 in
    let ends : EndsOrRetries n h2 =
      subst (λ k. EndsOrRetries k h2) (ap (λ s. s.reconnect_count) same)
        (handle_lost-EndsOrRetries r h1 fails off1) in
    let rest : Waited × Socket → Option FeedHandler =
      λ x. handle_wait r x.0 (with_socket x.1 h1) >>= λ h3. some (end_round r h3) in
    if-elim (λ (o : Option FeedHandler). (h' : FeedHandler) × (o ≡ some h') × EndsOrRetries n h')
      quit (λ _. (stop h1, refl, stopped_ends n h1))
      (λ _. (
        end_round r h2,
        ap rest (wait_lost r.wait h1.feed.socket off1),
        if-elim (EndsOrRetries n) r.interrupted (λ _. stopped_ends n h2) (λ _. ends),
      ))

pub run_loop_ended :
    (rs : List Round) (h : FeedHandler) → h.running ≡ false → run_loop rs h ≡ some h
unfolding run_loop
run_loop_ended [] h off = refl
run_loop_ended (r ∷ rs) h off =
    ap (λ b. if b then (run_round r h >>= λ h'. run_loop rs h') else some h) off

pub run_loop_step :
    (r : Round) (rs : List Round) (h h1 : FeedHandler)
    → h.running ≡ true
    → run_round r h ≡ some h1
    → run_loop (r ∷ rs) h ≡ run_loop rs h1
unfolding run_loop
run_loop_step r rs h h1 on e =
    ap (λ b. if b then (run_round r h >>= λ h'. run_loop rs h') else some h) on ∙ >>=-some _ e

-- No attempt to reconnect succeeds.
abbrev pub AllFail : List Round → Type 0
AllFail [] = Unit {0}
AllFail (r ∷ rs) = (succeeds r.dial ≡ false) × AllFail rs

-- Where the connection is lost and no attempt to reconnect succeeds, the main loop ends, stopped
-- and not connected, within five rounds in all, less the attempts that were made before, and one at
-- least, whatever keys are pressed and whatever else the kernel answers.
pub run_loop-ends :
    (rs : List Round) (h : FeedHandler)
    → h.feed.socket.connected ≡ false
    → AllFail rs
    → 1 ≤ length rs
    → max_retry_count ≤ h.feed.socket.reconnect_count + length rs
    → (h' : FeedHandler) × (run_loop rs h ≡ some h')
      × (h'.running ≡ false)
      × (h'.feed.socket.connected ≡ false)
run_loop-ends [] h off fail some_rounds enough = absurd (omega arith)
run_loop-ends (r ∷ rs) h off fail some_rounds enough = elim (Bool-cases h.running) [
  | inr ended ↦ (h, run_loop_ended (r ∷ rs) h ended, ended, off)
  | inl on ↦
      let (h1, e, (off1, next)) = round_lost r h off fail.0 in
      elim next [
        | inl ended ↦ (h1, run_loop_step r rs h h1 on e ∙ run_loop_ended rs h1 ended, ended, off1)
        | inr (one_more, few) ↦
            let (h', e', ended, off') =
              run_loop-ends rs h1 off1 fail.1 (omega arith) (omega arith) in
            (h', run_loop_step r rs h h1 on e ∙ e', ended, off')
      ]
]
