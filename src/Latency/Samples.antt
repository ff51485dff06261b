-- ===== src/Latency/Samples.antt =====
-- The tracker's counters are what a plain list of the recorded samples says.
use qode.Base.{
  ℕ, ◌+◌, ◌/◌, ◌<◌, ◌≡◌, ◌≢◌, refl, List, [], ◌∷◌, get_or, get_or-replicate, length, ltb, ◌==◌,
  if◌then◌else◌, add64, u64, arith, get_or-set_self, get_or-set_ne, length-set, length-replicate,
  dec_lt, ℕ_discrete, min, max,
}
use qode.Latency.{
  LatencyTracker, record_latency, reset_tracker, count_bucket, num_buckets, bucket_width_ns,
  max_tracked_ns, uint64_max,
}

-- The latest sample first.
pub record_all : List ℕ → LatencyTracker
record_all [] = reset_tracker
record_all (x ∷ xs) = record_latency x (record_all xs)

-- How many samples fall into bucket `i`.
abbrev pub in_bucket : ℕ → List ℕ → ℕ
in_bucket i [] = 0
in_bucket i (x ∷ xs) = (if x / bucket_width_ns == i then 1 else 0) + in_bucket i xs

-- How many samples are too large for the histogram.
abbrev pub too_large : List ℕ → ℕ
too_large [] = 0
too_large (x ∷ xs) = (if ltb x max_tracked_ns then 0 else 1) + too_large xs

abbrev pub sum_of : List ℕ → ℕ
sum_of [] = 0
sum_of (x ∷ xs) = x + sum_of xs

abbrev pub least : List ℕ → ℕ
least [] = uint64_max
least (x ∷ xs) = min x (least xs)

abbrev pub greatest : List ℕ → ℕ
greatest [] = 0
greatest (x ∷ xs) = max x (greatest xs)

-- `t` holds the statistics of the samples `xs`; the counters are 64 bits wide.
pub record IsSummary (xs : List ℕ) (t : LatencyTracker) : Type 0 where
  pub counted : t.sample_count ≡ u64 (length xs)
  pub summed : t.sum ≡ u64 (sum_of xs)
  pub smallest : t.min ≡ least xs
  pub largest : t.max ≡ greatest xs
  pub overflowed : t.overflow_count ≡ u64 (too_large xs)
  pub buckets : length t.histogram ≡ num_buckets
  pub bucketed : (i : ℕ) → i < num_buckets → get_or t.histogram i 0 ≡ u64 (in_bucket i xs)

-- One more sample raises its own bucket and no other.
pub count_bucket_self :
    (h : List ℕ) (b : ℕ) → b < length h → get_or (count_bucket b h) b 0 ≡ add64 (get_or h b 0) 1
unfolding count_bucket
count_bucket_self h b k = get_or-set_self h b _ 0 k

pub count_bucket_other :
    (h : List ℕ) (b i : ℕ) → b ≢ i → get_or (count_bucket b h) i 0 ≡ get_or h i 0
unfolding count_bucket
count_bucket_other h b i other = get_or-set_ne h b i _ 0 other

pub length-count_bucket : (h : List ℕ) (b : ℕ) → length (count_bucket b h) ≡ length h
unfolding count_bucket
length-count_bucket h b = length-set h b _

reset_tracker-IsSummary : IsSummary [] reset_tracker
unfolding reset_tracker
reset_tracker-IsSummary = record {
  counted = refl;
  summed = refl;
  smallest = refl;
  largest = refl;
  overflowed = refl;
  buckets = length-replicate num_buckets (let z : ℕ = 0 in z);
  bucketed = λ i h. get_or-replicate num_buckets i 0;
}

module _ (x : ℕ) (xs : List ℕ) (t : LatencyTracker) (v : IsSummary xs t) where
  abbrev b : ℕ
  b = x / bucket_width_ns

  record_latency-bucketed :
      (i : ℕ)
      → i < num_buckets
      → get_or (record_latency x t).histogram i 0 ≡ u64 (in_bucket i (x ∷ xs))
  unfolding record_latency
  record_latency-bucketed i k = elim (dec_lt x max_tracked_ns) [
    | no large ↦ ground (arith, v.bucketed i)
    | yes small ↦ elim (ℕ_discrete b i) [
      | yes same ↦ ground (arith, v.bucketed i, v.buckets, count_bucket_self t.histogram i)
      | no other ↦ ground (arith, v.bucketed i, count_bucket_other t.histogram b i)
    ]
  ]

  record_latency-IsSummary : IsSummary (x ∷ xs) (record_latency x t)
  record_latency-IsSummary = record {
    counted = unfold record_latency in omega (arith, v.counted);
    summed = unfold record_latency in omega (arith, v.summed);
    smallest = unfold record_latency in ground (arith, v.smallest);
    largest = unfold record_latency in ground (arith, v.largest);
    overflowed = unfold record_latency in ground (arith, v.overflowed);
    buckets = unfold record_latency in ground (arith, v.buckets, length-count_bucket t.histogram b);
    bucketed = record_latency-bucketed;
  }

-- After any samples the counters hold their number, sum, least and greatest, the number in each
-- bucket of the histogram and the number past it, each modulo 2 ^ 64 where it is counted or added.
pub record_all-IsSummary : (xs : List ℕ) → IsSummary xs (record_all xs)
unfolding record_all
record_all-IsSummary [] = reset_tracker-IsSummary
record_all-IsSummary (x ∷ xs) =
    record_latency-IsSummary x xs (record_all xs) (record_all-IsSummary xs)
