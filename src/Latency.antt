-- ===== src/Latency.antt =====
-- include/latency_tracker.h and src/common/latency_tracker.cpp: counters, a histogram and a ring of
-- the latest samples. Here a call runs alone, so each compare-and-exchange loop takes one round;
-- Latency/Race has the calls of several threads.
pub mod Samples
pub mod Percentile
pub mod Race
use qode.Base.{
  ℕ, zero, suc, ◌+◌, ◌-◌, ◌*◌, ◌/◌, ◌%◌, ◌^◌, List, [], ◌∷◌, ◌++◌, get_or, set, replicate, ltb, leb,
  ◌==◌, if◌then◌else◌, add64,
}
use qode.Base.Double.{Arithmetic}

abbrev pub ring_buffer_size : ℕ
ring_buffer_size = 2 ^ 20

abbrev pub num_buckets : ℕ
num_buckets = 1000

abbrev pub bucket_width_ns : ℕ
bucket_width_ns = 1000

abbrev pub max_tracked_ns : ℕ
max_tracked_ns = num_buckets * bucket_width_ns

abbrev pub uint64_max : ℕ
uint64_max = 2 ^ 64 - 1

pub record LatencyStats : Type 0 where
  pub min : ℕ
  pub max : ℕ
  pub mean : ℕ
  pub p50 : ℕ
  pub p95 : ℕ
  pub p99 : ℕ
  pub p999 : ℕ
  pub sample_count : ℕ

pub record LatencyTracker : Type 0 where
  pub ring_buffer : List ℕ
  pub write_index : ℕ
  pub histogram : List ℕ
  pub overflow_count : ℕ
  pub sample_count : ℕ
  pub sum : ℕ
  pub min : ℕ
  pub max : ℕ

-- `reset`, which the constructor calls; the arrays keep their sizes.
unfoldable pub reset_tracker : LatencyTracker
reset_tracker = record {
  ring_buffer = replicate ring_buffer_size 0;
  write_index = 0;
  histogram = replicate num_buckets 0;
  overflow_count = 0;
  sample_count = 0;
  sum = 0;
  min = uint64_max;
  max = 0;
}

-- `histogram_[bucket].fetch_add(1)`.
unfoldable pub count_bucket : ℕ → List ℕ → List ℕ
count_bucket bucket h = set h bucket (add64 (get_or h bucket 0) 1)

-- `record`.
unfoldable pub record_latency : ℕ → LatencyTracker → LatencyTracker
record_latency latency_ns t =
    let tracked = ltb latency_ns max_tracked_ns in
    let bucket = latency_ns / bucket_width_ns in
    record {
      ring_buffer = set t.ring_buffer (t.write_index % ring_buffer_size) latency_ns;
      write_index = add64 t.write_index 1;
      histogram = if tracked then count_bucket bucket t.histogram else t.histogram;
      overflow_count = if tracked then t.overflow_count else add64 t.overflow_count 1;
      sample_count = add64 t.sample_count 1;
      sum = add64 t.sum latency_ns;
      min = if ltb latency_ns t.min then latency_ns else t.min;
      max = if ltb t.max latency_ns then latency_ns else t.max;
    }

-- The loop over the buckets from bucket `i` on.
unfoldable pub find_bucket : ℕ → ℕ → ℕ → ℕ → List ℕ → ℕ
find_bucket max target cumulative i [] = max
find_bucket max target cumulative i (n ∷ ns) =
    let total = add64 cumulative n in
    let later = find_bucket max target total (i + 1) ns in
    if leb target total then i * bucket_width_ns + bucket_width_ns / 2 else later

-- `percentile_from_histogram` once `target` is computed.
unfoldable pub percentile_at : ℕ → LatencyTracker → ℕ
unfolding find_bucket
percentile_at target t = find_bucket t.max target 0 0 t.histogram

module _ (f : Arithmetic) where
  -- `static_cast<uint64_t>((percentile / 100.0) * total)`.
  unfoldable pub percentile_target : ℕ → ℕ → ℕ
  percentile_target percentile total =
      f.to_nat (f.mul (f.div percentile (f.literal 100 0)) (f.of_nat total))

  unfoldable pub percentile_from_histogram : ℕ → LatencyTracker → ℕ
  unfolding percentile_at percentile_target
  percentile_from_histogram percentile t =
      if t.sample_count == 0
      then 0
      else percentile_at (percentile_target percentile t.sample_count) t

  unfoldable pub get_stats : LatencyTracker → LatencyStats
  unfolding percentile_from_histogram
  get_stats t =
      if t.sample_count == 0
      then record {
        min = 0;
        max = 0;
        mean = 0;
        p50 = 0;
        p95 = 0;
        p99 = 0;
        p999 = 0;
        sample_count = 0;
      }
      else record {
        min = t.min;
        max = t.max;
        mean = t.sum / t.sample_count;
        p50 = percentile_from_histogram (f.literal 50 0) t;
        p95 = percentile_from_histogram (f.literal 95 0) t;
        p99 = percentile_from_histogram (f.literal 99 0) t;
        p999 = percentile_from_histogram (f.literal 999 1) t;
        sample_count = t.sample_count;
      }

-- A line of the exported file; the last one, for the samples past the histogram, has no end.
pub data Row : Type 0 where
  bucket_row : ℕ → ℕ → ℕ → Row
  overflow_row : ℕ → ℕ → Row

-- The lines from bucket `i` on: the buckets that are not empty.
unfoldable pub bucket_rows : ℕ → List ℕ → List Row
bucket_rows i [] = []
bucket_rows i (n ∷ ns) =
    let rest = bucket_rows (i + 1) ns in
    if ltb 0 n then bucket_row (i * bucket_width_ns) ((i + 1) * bucket_width_ns) n ∷ rest else rest

-- The lines that `export_csv` writes below its heading.
unfoldable pub export_rows : LatencyTracker → List Row
unfolding bucket_rows
export_rows t =
    bucket_rows 0 t.histogram
    ++ (if ltb 0 t.overflow_count then overflow_row max_tracked_ns t.overflow_count ∷ [] else [])
