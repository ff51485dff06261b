-- ===== src/Latency/Race/Tallies.antt =====
-- What the counters of a tracker hold between the accesses of the calls of `record`: each counts
-- the calls that are past their access to it.
use qode.Base.{
  ℕ, ◌+◌, ◌/◌, ◌≤◌, ◌<◌, ◌≡◌, refl, Bool, ltb, ◌==◌, if◌then◌else◌, get_or, length, u64, arith,
  dec_lt, ℕ_discrete, min, max,
}
use qode.Latency.{LatencyTracker, num_buckets, bucket_width_ns, max_tracked_ns, uint64_max}
use qode.Latency.Samples.{count_bucket_self, count_bucket_other, length-count_bucket}
use qode.Latency.Race.{
  Phase, counting, summing, loading_min, lowering, loading_max, raising, bucketing, indexing,
  storing, finished, advance, count_sample,
}

abbrev pub past_counting : Phase → ℕ → ℕ
past_counting counting n = 0
past_counting _ n = n

abbrev pub past_summing : Phase → ℕ → ℕ
past_summing counting n = 0
past_summing summing n = 0
past_summing _ n = n

abbrev pub past_bucketing : Phase → ℕ → ℕ
past_bucketing indexing n = n
past_bucketing (storing idx) n = n
past_bucketing finished n = n
past_bucketing _ n = 0

-- What a call knows of `min_`, and of `max_`: a value that the cell has had, or its own sample.
abbrev pub upper : Phase → ℕ → ℕ
upper counting x = uint64_max
upper summing x = uint64_max
upper loading_min x = uint64_max
upper (lowering current_min) x = current_min
upper _ x = x

abbrev pub lower : Phase → ℕ → ℕ
lower bucketing x = x
lower indexing x = x
lower (storing idx) x = x
lower finished x = x
lower (raising current_max) x = current_max
lower _ x = 0

abbrev pub bucket_weight : ℕ → ℕ → ℕ
bucket_weight i x = if x / bucket_width_ns == i then 1 else 0

abbrev pub overflow_weight : ℕ → ℕ
overflow_weight x = if ltb x max_tracked_ns then 0 else 1

module _ (w : Bool) (x : ℕ) (t : LatencyTracker) (others : ℕ) where
  pub advance-counted :
      (p : Phase)
      → t.sample_count ≡ u64 (others + past_counting p 1)
      → let r = advance w x p t in r.1.sample_count ≡ u64 (others + past_counting r.0 1)
  unfolding advance count_sample
  advance-counted counting h = omega (arith, h)
  advance-counted summing h = h
  advance-counted loading_min h = h
  advance-counted (lowering c) h = ground arith
  advance-counted loading_max h = h
  advance-counted (raising c) h = ground arith
  advance-counted bucketing h = ground arith
  advance-counted indexing h = h
  advance-counted (storing idx) h = h
  advance-counted finished h = h

  pub advance-summed :
      (p : Phase)
      → t.sum ≡ u64 (others + past_summing p x)
      → let r = advance w x p t in r.1.sum ≡ u64 (others + past_summing r.0 x)
  unfolding advance count_sample
  advance-summed counting h = h
  advance-summed summing h = omega (arith, h)
  advance-summed loading_min h = h
  advance-summed (lowering c) h = ground arith
  advance-summed loading_max h = h
  advance-summed (raising c) h = ground arith
  advance-summed bucketing h = ground arith
  advance-summed indexing h = h
  advance-summed (storing idx) h = h
  advance-summed finished h = h

  pub advance-overflowed :
      (p : Phase)
      → t.overflow_count ≡ u64 (others + past_bucketing p (overflow_weight x))
      → let r = advance w x p t in
        r.1.overflow_count ≡ u64 (others + past_bucketing r.0 (overflow_weight x))
  unfolding advance count_sample
  advance-overflowed counting h = h
  advance-overflowed summing h = h
  advance-overflowed loading_min h = h
  advance-overflowed (lowering c) h = ground arith
  advance-overflowed loading_max h = h
  advance-overflowed (raising c) h = ground arith
  advance-overflowed bucketing h = ground (arith, h)
  advance-overflowed indexing h = h
  advance-overflowed (storing idx) h = h
  advance-overflowed finished h = h

  pub advance-bucketed :
      (i : ℕ) (p : Phase)
      → i < num_buckets
      → length t.histogram ≡ num_buckets
      → get_or t.histogram i 0 ≡ u64 (others + past_bucketing p (bucket_weight i x))
      → let r = advance w x p t in
        get_or r.1.histogram i 0 ≡ u64 (others + past_bucketing r.0 (bucket_weight i x))
  unfolding advance count_sample
  advance-bucketed i counting k l h = h
  advance-bucketed i summing k l h = h
  advance-bucketed i loading_min k l h = h
  advance-bucketed i (lowering c) k l h = ground arith
  advance-bucketed i loading_max k l h = h
  advance-bucketed i (raising c) k l h = ground arith
  advance-bucketed i bucketing k l h = elim (dec_lt x max_tracked_ns) [
    | no large ↦ ground (arith, h)
    | yes small ↦ elim (ℕ_discrete (x / bucket_width_ns) i) [
      | yes same ↦ ground (arith, h, l, count_bucket_self t.histogram i)
      | no other ↦ ground (arith, h, count_bucket_other t.histogram (x / bucket_width_ns) i)
    ]
  ]
  advance-bucketed i indexing k l h = h
  advance-bucketed i (storing idx) k l h = h
  advance-bucketed i finished k l h = h

  -- The cells move one way, and never past a sample.
  pub advance-lowered :
      (p : Phase)
      → t.min ≤ min (upper p x) others
      → let r = advance w x p t in r.1.min ≤ min (upper r.0 x) others
  unfolding advance count_sample
  advance-lowered counting h = h
  advance-lowered summing h = h
  advance-lowered loading_min h = omega arith
  advance-lowered (lowering c) h = ground arith
  advance-lowered loading_max h = h
  advance-lowered (raising c) h = ground arith
  advance-lowered bucketing h = ground arith
  advance-lowered indexing h = h
  advance-lowered (storing idx) h = h
  advance-lowered finished h = h

  pub advance-raised :
      (p : Phase)
      → max (lower p x) others ≤ t.max
      → let r = advance w x p t in max (lower r.0 x) others ≤ r.1.max
  unfolding advance count_sample
  advance-raised counting h = h
  advance-raised summing h = h
  advance-raised loading_min h = h
  advance-raised (lowering c) h = ground arith
  advance-raised loading_max h = omega arith
  advance-raised (raising c) h = ground arith
  advance-raised bucketing h = ground arith
  advance-raised indexing h = h
  advance-raised (storing idx) h = h
  advance-raised finished h = h

  pub advance-min : (p : Phase) → min x others ≤ t.min → min x others ≤ (advance w x p t).1.min
  unfolding advance count_sample
  advance-min (lowering c) h = ground arith
  advance-min (raising c) h = ground arith
  advance-min bucketing h = ground arith
  advance-min counting h = h
  advance-min summing h = h
  advance-min loading_min h = h
  advance-min loading_max h = h
  advance-min indexing h = h
  advance-min (storing idx) h = h
  advance-min finished h = h

  pub advance-max : (p : Phase) → t.max ≤ max x others → (advance w x p t).1.max ≤ max x others
  unfolding advance count_sample
  advance-max (lowering c) h = ground arith
  advance-max (raising c) h = ground arith
  advance-max bucketing h = ground arith
  advance-max counting h = h
  advance-max summing h = h
  advance-max loading_min h = h
  advance-max loading_max h = h
  advance-max indexing h = h
  advance-max (storing idx) h = h
  advance-max finished h = h

pub advance-buckets :
    (w : Bool) (x : ℕ) (p : Phase) (t : LatencyTracker)
    → length (advance w x p t).1.histogram ≡ length t.histogram
unfolding advance count_sample
advance-buckets w x (lowering c) t = ground arith
advance-buckets w x (raising c) t = ground arith
advance-buckets w x bucketing t =
    ground (arith, length-count_bucket t.histogram (x / bucket_width_ns))
advance-buckets w x counting t = refl
advance-buckets w x summing t = refl
advance-buckets w x loading_min t = refl
advance-buckets w x loading_max t = refl
advance-buckets w x indexing t = refl
advance-buckets w x (storing idx) t = refl
advance-buckets w x finished t = refl
