-- ===== src/Visualizer/Render.antt =====
-- src/client/visualizer.cpp: what `render` writes, as one text.
use qode.Base.{
  ℕ, ◌+◌, ◌-◌, ◌/◌, ◌&&◌, Option, none, some, List, [], ◌∷◌, ◌++◌, ◌==◌, if◌then◌else◌, replicate,
  u32, Text, codes, to_string, pad_left, pad_right, ◌>>=◌,
}
use qode.Base.Double.{Arithmetic}
use qode.Protocol.Names.{get_symbol_name}
use qode.Cache.{SymbolCache, MarketState, get_total_updates}
use qode.Cache.Ranking.{get_top_symbols}
use qode.Latency.{LatencyTracker, get_stats}
use qode.Visualizer.{Visualizer, Sources, max_symbols_display}
use qode.Visualizer.Format.{
  Display, color_green, color_red, color_yellow, color_cyan, color_reset, color_bold, format_number,
  format_price, format_duration, format_rate, format_latency,
}

-- Texts behind one another, as `<<` writes them.
abbrev pub write : List Text → Text
write [] = []
write (t ∷ ts) = t ++ write ts

-- "\033[K\n": the rest of the line is cleared.
abbrev pub end_line : Text
end_line = codes "\u{1b}[K\n"

module _ (d : Display) where
  abbrev f : Arithmetic
  f = d.arithmetic

  -- Messages per second since the start; the elapsed time is in nanoseconds.
  unfoldable pub message_rate : ℕ → Visualizer → ℕ
  message_rate now v =
      let elapsed = f.div (f.of_nat (now - v.start_time)) (f.literal 1000000000 0) in
      if f.less (f.literal 0 0) elapsed
      then f.div (f.of_nat v.messages_received) elapsed
      else f.literal 0 0

  unfoldable pub render_header : ℕ → Visualizer → Text
  unfolding message_rate format_duration format_number format_rate
  render_header now v =
      let rule = replicate 71 (0x2550) ++ codes "\n" in
      write (
        color_bold
        ∷ color_cyan
        ∷ rule
        ∷ (replicate 20 32 ++ codes "NSE Market Data Feed Handler" ++ replicate 24 32 ++ codes "\n")
        ∷ rule
        ∷ color_reset
        ∷ codes "Connected to: "
        ∷ (if v.connected
            then write (color_green ∷ v.server_address ∷ color_reset ∷ [])
            else write (color_red ∷ codes "DISCONNECTED" ∷ color_reset ∷ []))
        ∷ codes "  │  Uptime: "
        ∷ color_yellow
        ∷ format_duration ((now - v.start_time) / 1000000000)
        ∷ color_reset
        ∷ codes "  │  Messages: "
        ∷ color_cyan
        ∷ format_number v.messages_received
        ∷ color_reset
        ∷ codes "  │  Rate: "
        ∷ color_green
        ∷ format_rate d (message_rate now v)
        ∷ color_reset
        ∷ end_line
        ∷ codes "\n"
        ∷ [])

  unfoldable pub percent_change : MarketState → ℕ
  percent_change s =
      let zero_price = f.literal 0 0 in
      if f.less zero_price s.opening_price && f.less zero_price s.last_traded_price
      then f.mul (f.div (f.sub s.last_traded_price s.opening_price) s.opening_price)
          (f.literal 100 0)
      else zero_price

  -- A row of the table; the quantities are added as `uint32_t`.
  unfoldable pub render_row : ℕ × MarketState → Text
  unfolding percent_change format_price format_number
  render_row (symbol_id, s) =
      let change = percent_change s in
      let up = f.less_eq (f.literal 0 0) change in
      if s.update_count == 0
      then []
      else write (
          pad_right 12 (get_symbol_name symbol_id)
          ∷ pad_left 12 32 (format_price d s.best_bid)
          ∷ pad_left 12 32 (format_price d s.best_ask)
          ∷ pad_left 12 32 (format_price d s.last_traded_price)
          ∷ pad_left 12 32 (format_number (u32 (s.bid_quantity + s.ask_quantity)))
          ∷ (if up then color_green else color_red)
          ∷ pad_left 9 32 (if up then codes "+" else [])
          ∷ d.fixed 2 change
          ∷ codes "%"
          ∷ color_reset
          ∷ pad_left 10 32 (format_number s.update_count)
          ∷ end_line
          ∷ [])

  unfoldable pub render_rows : List (ℕ × MarketState) → Text
  unfolding render_row
  render_rows [] = []
  render_rows (r ∷ rs) = render_row r ++ render_rows rs

  unfoldable pub table_header : Text
  table_header = write (
      color_bold
      ∷ pad_right 12 (codes "Symbol")
      ∷ pad_left 12 32 (codes "Bid")
      ∷ pad_left 12 32 (codes "Ask")
      ∷ pad_left 12 32 (codes "LTP")
      ∷ pad_left 12 32 (codes "Volume")
      ∷ pad_left 10 32 (codes "Chg%")
      ∷ pad_left 10 32 (codes "Updates")
      ∷ color_reset
      ∷ end_line
      ∷ replicate 78 b'-'
      ∷ end_line
      ∷ [])

  -- `none` is a read of the cache that spins for ever.
  unfoldable pub render_market_table : Option SymbolCache → Option Text
  unfolding table_header render_rows get_top_symbols
  render_market_table none =
      some (write (color_yellow ∷ codes "No market data available\n" ∷ color_reset ∷ []))
  render_market_table (some c) = get_top_symbols max_symbols_display c >>= λ rows. some (
      write (
        table_header
        ∷ render_rows rows
        ∷ end_line
        ∷ end_line
        ∷ end_line
        ∷ end_line
        ∷ end_line
        ∷ codes "\n"
        ∷ []))

  unfoldable pub render_latency : Option LatencyTracker → Text
  unfolding get_stats format_latency
  render_latency none = []
  render_latency (some t) =
      let stats = get_stats f t in
      write (
        codes "  │  End-to-End Latency: "
        ∷ codes "p50="
        ∷ color_yellow
        ∷ format_latency stats.p50
        ∷ color_reset
        ∷ codes " p99="
        ∷ color_yellow
        ∷ format_latency stats.p99
        ∷ color_reset
        ∷ codes " p999="
        ∷ color_yellow
        ∷ format_latency stats.p999
        ∷ color_reset
        ∷ [])

  unfoldable pub render_updates : Option SymbolCache → Option Text
  unfolding get_total_updates format_number
  render_updates none = some []
  render_updates (some c) = get_total_updates c >>= λ total.
      some
        (write (codes "  │  Cache Updates: " ∷ color_cyan ∷ format_number total ∷ color_reset ∷ []))

  unfoldable pub render_statistics : ℕ → Visualizer → Sources → Option Text
  unfolding message_rate format_rate render_latency render_updates
  render_statistics now v s = render_updates s.cache >>= λ updates. some (
      write (
        color_bold
        ∷ codes "Statistics:"
        ∷ color_reset
        ∷ codes "\n"
        ∷ codes "  Parser Throughput: "
        ∷ color_cyan
        ∷ format_rate d (message_rate now v)
        ∷ color_reset
        ∷ render_latency s.latency_tracker
        ∷ end_line
        ∷ codes "  Sequence Gaps: "
        ∷ color_red
        ∷ to_string v.sequence_gaps
        ∷ color_reset
        ∷ updates
        ∷ end_line
        ∷ codes "\n"
        ∷ []))

  unfoldable pub render_footer : Text
  render_footer =
      write
        (color_yellow ∷ codes "Press 'q' to quit, 'r' to reset stats" ∷ color_reset ∷ end_line ∷ [])

  -- The whole display, where it runs.
  unfoldable pub render : ℕ → Visualizer → Sources → Option Text
  unfolding render_header render_market_table render_statistics render_footer
  render now v s =
      if v.running
      then (render_market_table s.cache >>= λ table. render_statistics now v s >>= λ statistics.
          some (
            write (
              codes "\u{1b}[H\u{1b}[2J"
              ∷ render_header now v
              ∷ table
              ∷ statistics
              ∷ render_footer
              ∷ [])))
      else some []
