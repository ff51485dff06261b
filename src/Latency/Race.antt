-- ===== src/Latency/Race.antt =====
-- `record` of src/common/latency_tracker.cpp when several threads call it at once: each call makes
-- one access to a shared counter at a time, and a schedule says whose turn it is.
pub mod Tallies
pub mod Ongoing
pub mod Outcome
pub mod Progress
use qode.Base.{
  ℕ, zero, suc, ◌+◌, ◌/◌, ◌%◌, List, [], ◌∷◌, map, set, Bool, true, false, not, ◌||◌, ltb, ◌==◌,
  if◌then◌else◌, add64,
}
use qode.Latency.{LatencyTracker, count_bucket, max_tracked_ns, bucket_width_ns, ring_buffer_size}

-- The next access of a call, with the local variables that are live there.
pub data Phase : Type 0 where
  counting summing loading_min : Phase
  lowering : (current_min : ℕ) → Phase  -- the loop over `compare_exchange_weak` of `min_`
  loading_max : Phase
  raising : (current_max : ℕ) → Phase  -- the loop over `compare_exchange_weak` of `max_`
  bucketing indexing : Phase
  storing : (idx : ℕ) → Phase
  finished : Phase

unfoldable pub count_sample : ℕ → LatencyTracker → LatencyTracker
count_sample latency_ns t =
    if ltb latency_ns max_tracked_ns
    then record t { histogram = count_bucket (latency_ns / bucket_width_ns) t.histogram }
    else record t { overflow_count = add64 t.overflow_count 1 }

-- One access of the call for the sample `latency_ns`. A `compare_exchange_weak` fails when the cell
-- has another value than the one expected, and may fail for no reason (`spurious`); it then leaves
-- the value of the cell in the local variable, and the loop goes on.
unfoldable pub advance : (spurious : Bool) → ℕ → Phase → LatencyTracker → Phase × LatencyTracker
advance spurious latency_ns counting t =
    (summing, record t { sample_count = add64 t.sample_count 1 })
advance spurious latency_ns summing t = (loading_min, record t { sum = add64 t.sum latency_ns })
advance spurious latency_ns loading_min t = (lowering t.min, t)
advance spurious latency_ns (lowering current_min) t =
    if ltb latency_ns current_min
    then if spurious || not (t.min == current_min)
      then (lowering t.min, t)
      else (loading_max, record t { min = latency_ns })
    else (loading_max, t)
advance spurious latency_ns loading_max t = (raising t.max, t)
advance spurious latency_ns (raising current_max) t =
    if ltb current_max latency_ns
    then if spurious || not (t.max == current_max)
      then (raising t.max, t)
      else (bucketing, record t { max = latency_ns })
    else (bucketing, t)
advance spurious latency_ns bucketing t = (indexing, count_sample latency_ns t)
advance spurious latency_ns indexing t =
    (storing t.write_index, record t { write_index = add64 t.write_index 1 })
advance spurious latency_ns (storing idx) t =
    (finished, record t { ring_buffer = set t.ring_buffer (idx % ring_buffer_size) latency_ns })
advance spurious latency_ns finished t = (finished, t)

-- A call of `record`, of whichever thread.
pub record Call : Type 0 where
  pub sample : ℕ
  pub phase : Phase

unfoldable pub enter : ℕ → Call
enter latency_ns = record { sample = latency_ns; phase = counting }

-- The call at position `i` makes its next access.
unfoldable pub advance_at : ℕ → Bool → List Call → LatencyTracker → List Call × LatencyTracker
unfolding advance
advance_at i spurious [] t = ([], t)
advance_at zero spurious (c ∷ cs) t =
    let (p, t') = advance spurious c.sample c.phase t in (record c { phase = p } ∷ cs, t')
advance_at (suc i) spurious (c ∷ cs) t = let (cs', t') = advance_at i spurious cs t in (c ∷ cs', t')

-- The calls under a schedule: whose turn it is, and whether its exchange fails for no reason.
unfoldable pub race : List (ℕ × Bool) → List Call → LatencyTracker → List Call × LatencyTracker
unfolding advance_at
race [] cs t = (cs, t)
race ((i, spurious) ∷ turns) cs t = let (cs', t') = advance_at i spurious cs t in race turns cs' t'

-- Every call has ended.
pub data AllFinished : List Call → Type 0 where
  none_left : AllFinished []
  one_more :
      {x : ℕ} {cs : List Call}
      → AllFinished cs
      → AllFinished (record { sample = x; phase = finished } ∷ cs)
