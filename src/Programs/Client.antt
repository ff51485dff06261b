-- ===== src/Programs/Client.antt =====
-- src/client/main.cpp: the program as a whole.
use qode.Base.{ℕ, ◌≡◌, refl, sym, ap, ◌∙◌, true, false, some, List, Text, >>=-some, arith}
use mathlib.Core.Bool.{true≢false}
use qode.Visualizer.{Terminal}
use qode.Feed.{all_callbacks}
use qode.Feed.Fresh.{new_parser-IsReady}
use qode.Feed.Handler as Handler
use qode.Feed.Handler.{FeedHandler, FeedHandlerConfig, configure}
use qode.Feed.Handled.{IsHandled, destroy-IsHandled}
use qode.Feed.Ending.{destroy-running}
use qode.Feed.Safety.{AllFit, run-IsHandled}
use qode.Programs.{default_config, new_handler, new_visualizer, watch, client_main}
use qode.Programs.Options.{proceed, read_client_options}

new_handler-IsHandled :
    (t : Terminal) (now : ℕ) (config : FeedHandlerConfig)
    → IsHandled t (configure config (new_handler t now))
unfolding new_handler new_visualizer configure
new_handler-IsHandled t now config = record {
  parses = new_parser-IsReady all_callbacks _ refl (omega arith) (omega arith);
  tidy = record {
    initialized = refl;
    kept = λ on. absurd (true≢false (sym on));
    untouched = λ off. refl;
  };
  ends = λ off. refl;
  hidden = λ off. refl;
}

-- The client's program from its command line on. Where the options are accepted, the terminal waits
-- for input and shows its cursor, and `recv` never writes more than its buffer holds: the program
-- gets through any rounds, without a write past the parser's buffer, and ends with code 0; and
-- however it ended, the terminal is then as it was found, and the display is off.
pub client_main-IsHandled :
    (atoi : Text → ℕ) (opts : List (ℕ × Text)) (config : FeedHandlerConfig) (t : Terminal) (now : ℕ)
    (s : Handler.Startup) (rounds : List Handler.Round)
    → t.blocking ≡ true
    → t.cursor ≡ true
    → AllFit rounds
    → read_client_options atoi opts default_config ≡ proceed config
    → (h : FeedHandler) × (client_main atoi opts t now s rounds ≡ some (0, some h))
      × IsHandled t h
      × (h.visualizer.terminal ≡ t)
      × (h.visualizer.running ≡ false)
unfolding client_main watch
client_main-IsHandled atoi opts config t now s rounds waits shown fits read =
    let (h, e, k, restored) =
      run-IsHandled t s rounds (configure config (new_handler t now)) waits shown fits
        (new_handler-IsHandled t now config) in
    let (k', found) = destroy-IsHandled t waits shown h k in
    (
      Handler.destroy h,
      ap (watch t now s rounds) read ∙ >>=-some _ e,
      k',
      found,
      k'.ends (destroy-running h),
    )
