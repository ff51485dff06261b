-- ===== src/Visualizer/Calls.antt =====
-- The calls of src/client/visualizer.cpp, one after another.
use qode.Base.{ℕ, Bool, List, [], ◌∷◌, Text}
use qode.Visualizer.{
  Visualizer, Size, Sources, start, stop, set_connected, update_stats, process_input,
}

-- A call of the visualizer.
pub data Call : Type 0 where
  started : Size → ℕ → Call
  stopped : Call
  connection : Bool → Text → Call
  updated : ℕ → ℕ → ℕ → Size → ℕ → Call
  keys : ℕ → List ℕ → Call

-- What a call does to the display; the cache and the latencies are `s` throughout.
unfoldable pub make_call : Sources → Call → Visualizer → Visualizer
unfolding start stop set_connected update_stats process_input
make_call s (started size now) v = start size now v
make_call s stopped v = stop v
make_call s (connection connected server) v = set_connected connected server v
make_call s (updated messages bytes gaps size now) v =
    (update_stats messages bytes gaps size now v).1
make_call s (keys now typed) v = (process_input now typed (v, s)).1

unfoldable pub make_calls : Sources → List Call → Visualizer → Visualizer
unfolding make_call
make_calls s [] v = v
make_calls s (c ∷ cs) v = make_calls s cs (make_call s c v)
