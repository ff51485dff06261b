-- ===== src/Feed/Handled.antt =====
-- src/client/feed_handler.cpp: what holds of the handler between two of its operations.
use qode.Base.{ℕ, ◌≡◌, ◌∙◌, Bool, true, false, [], leb, if-elim}
use qode.Socket.{Socket, reconnect, disconnect, max_retry_count}
use qode.Visualizer.{
  is_empty, Visualizer, Terminal, Sources, set_connected, update_stats, process_input,
}
use qode.Visualizer as Display
use qode.Socket as Connection
use qode.Visualizer.Restored.{
  IsTidy, Same, Same-IsTidy, stop-IsTidy, set_connected-Same, update_stats-Same, process_input-Same,
}
use qode.Feed.{Feed, Market}
use qode.Feed.Chunk.{IsReady}
use qode.Feed.Handler.{
  FeedHandler, Round, on_display, with_socket, with_sources, sources_of, stop, destroy, check_input,
  after_reconnect, handle_lost, show_stats,
}

-- The parser is ready for more bytes, the display is in order, and it runs only while the handler
-- runs with visualization enabled.
pub record IsHandled (t : Terminal) (h : FeedHandler) : Type 0 where
  pub parses : IsReady h.feed
  pub tidy : IsTidy t h.visualizer
  pub ends : h.running ≡ false → h.visualizer.running ≡ false
  pub hidden : h.config.enable_visualization ≡ false → h.visualizer.running ≡ false

-- What does not touch the parser keeps it ready.
same_parser :
    (feed : Feed) (s : Socket) (m : Market)
    → IsReady feed
    → IsReady (record feed { socket = s; market = m })
same_parser feed s m v = record {
  window = v.window;
  capacity = v.capacity;
  no_frame = v.no_frame;
  messages_fit = v.messages_fit;
  bytes_fit = v.bytes_fit;
}

module _ (t : Terminal) (waits : t.blocking ≡ true) (shown : t.cursor ≡ true) where
  pub with_feed :
      (h : FeedHandler) (feed : Feed)
      → IsReady feed
      → IsHandled t h
      → IsHandled t (record h { feed = feed })
  with_feed h feed v k = record { parses = v; tidy = k.tidy; ends = k.ends; hidden = k.hidden }

  pub with_socket-IsHandled :
      (s : Socket) (h : FeedHandler) → IsHandled t h → IsHandled t (with_socket s h)
  with_socket-IsHandled s h k = with_feed h _ (same_parser h.feed s h.feed.market k.parses) k

  with_visualizer :
      (h : FeedHandler) (v : Visualizer)
      → Same h.visualizer v
      → IsHandled t h
      → IsHandled t (record h { visualizer = v })
  with_visualizer h v s k = record {
    parses = k.parses;
    tidy = Same-IsTidy t h.visualizer v s k.tidy;
    ends = λ off. s.same_running ∙ k.ends off;
    hidden = λ off. s.same_running ∙ k.hidden off;
  }

  on_display-IsHandled :
      (g : Visualizer → Visualizer) (h : FeedHandler)
      → Same h.visualizer (g h.visualizer)
      → IsHandled t h
      → IsHandled t (on_display g h)
  on_display-IsHandled g h s k =
      if-elim (IsHandled t) h.config.enable_visualization
        (λ _. with_visualizer h (g h.visualizer) s k) (λ _. k)

  pub stop-IsHandled : (h : FeedHandler) → IsHandled t h → IsHandled t (stop h)
  unfolding stop
  stop-IsHandled h k =
      let (tidy, off) = stop-IsTidy t h.visualizer waits shown k.tidy in
      let h0 : FeedHandler = record h { running = false } in
      with_socket-IsHandled (disconnect (on_display Display.stop h0).feed.socket)
        (on_display Display.stop h0)
        (if-elim (IsHandled t) h.config.enable_visualization
          (λ _. record { parses = k.parses; tidy = tidy; ends = λ _. off; hidden = λ _. off })
          (λ disabled. record {
            parses = k.parses;
            tidy = k.tidy;
            ends = λ _. k.hidden disabled;
            hidden = k.hidden;
          }))

  -- The destructor leaves the terminal as it was found.
  pub destroy-IsHandled :
      (h : FeedHandler)
      → IsHandled t h
      → IsHandled t (destroy h) × ((destroy h).visualizer.terminal ≡ t)
  unfolding destroy
  destroy-IsHandled h k =
      let k' = stop-IsHandled h k in
      let h' = stop h in
      let (tidy, off) = stop-IsTidy t h'.visualizer waits shown k'.tidy in
      (
        record {
          parses = same_parser h'.feed (Connection.destroy h'.feed.socket) h'.feed.market k'.parses;
          tidy = tidy;
          ends = λ _. off;
          hidden = λ _. off;
        },
        tidy.untouched off,
      )

  pub check_input-IsHandled :
      (r : Round) (h : FeedHandler) → IsHandled t h → IsHandled t (check_input r h).1
  unfolding check_input
  check_input-IsHandled r h k =
      let (quit, v, s) = process_input r.key_time r.keys (h.visualizer, sources_of h) in
      let same = process_input-Same r.key_time r.keys h.visualizer (sources_of h) in
      if-elim (λ (x : Bool × FeedHandler). IsHandled t x.1) h.config.enable_visualization
        (λ _.
          with_visualizer (record h { feed = (with_sources (v, s) h).feed }) v same
            (with_feed h _ (same_parser h.feed h.feed.socket _ k.parses) k))
        (λ _. k)

  after_reconnect-IsHandled :
      (ok : Bool) (slept : ℕ) (s : Socket) (h : FeedHandler)
      → IsHandled t h
      → IsHandled t (after_reconnect (ok, slept, s) h)
  unfolding after_reconnect
  after_reconnect-IsHandled ok slept s h k =
      let h' = with_socket s h in
      let k' = with_socket-IsHandled s h k in
      if-elim (IsHandled t) ok
        (λ _.
          on_display-IsHandled (set_connected true []) h' (set_connected-Same true [] h'.visualizer)
            k')
        (λ _.
          if-elim (IsHandled t) (leb max_retry_count s.reconnect_count) (λ _. stop-IsHandled h' k')
            (λ _. k'))

  pub handle_lost-IsHandled :
      (r : Round) (h : FeedHandler) → IsHandled t h → IsHandled t (handle_lost r h)
  unfolding handle_lost
  handle_lost-IsHandled r h k =
      let h' = on_display (set_connected false []) h in
      let k' =
        on_display-IsHandled (set_connected false []) h (set_connected-Same false [] h.visualizer)
          k in
      let (ok, slept, s) = reconnect r.dial h'.feed.socket in
      if-elim (IsHandled t) h.config.auto_reconnect
        (λ _. after_reconnect-IsHandled ok slept s h' k') (λ _. stop-IsHandled h' k')

  pub show_stats-IsHandled :
      (r : Round) (h : FeedHandler) → IsHandled t h → IsHandled t (show_stats r h)
  unfolding show_stats
  show_stats-IsHandled r h k =
      let gaps = h.feed.parser.tracking.sequence_gaps in
      on_display-IsHandled
        (λ v. (update_stats h.feed.messages_received h.feed.bytes_received gaps r.size r.time v).1)
        h
        (update_stats-Same h.feed.messages_received h.feed.bytes_received
          h.feed.parser.tracking.sequence_gaps r.size r.time h.visualizer)
        k
