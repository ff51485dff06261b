-- ===== src/Latency/Race/Ongoing.antt =====
-- The invariant of the calls of `record` that share a tracker: what the counters hold while some of
-- the calls have made some of their accesses.
use qode.Base.{
  ℕ, zero, suc, ◌+◌, ◌≤◌, ◌<◌, ◌≡◌, List, [], ◌∷◌, Bool, map, get_or, length, u64, arith, min, max,
}
use qode.Latency.{LatencyTracker, num_buckets, uint64_max}
use qode.Latency.Samples.{least, greatest}
use qode.Latency.Race.{Call, Phase, advance, advance_at}
use qode.Latency.Race.Tallies.{
  past_counting, past_summing, past_bucketing, upper, lower, bucket_weight, overflow_weight,
  advance-counted, advance-summed, advance-overflowed, advance-bucketed, advance-lowered,
  advance-raised, advance-min, advance-max, advance-buckets,
}

-- The weights of the calls that are past an access.
abbrev pub total : (Phase → ℕ → ℕ) → (ℕ → ℕ) → List Call → ℕ
total past weight [] = 0
total past weight (c ∷ cs) = past c.phase (weight c.sample) + total past weight cs

abbrev pub one : ℕ → ℕ
one x = 1

abbrev pub itself : ℕ → ℕ
itself x = x

abbrev pub lowest : List Call → ℕ
lowest [] = uint64_max
lowest (c ∷ cs) = min (upper c.phase c.sample) (lowest cs)

abbrev pub highest : List Call → ℕ
highest [] = 0
highest (c ∷ cs) = max (lower c.phase c.sample) (highest cs)

abbrev pub samples : List Call → List ℕ
samples = map (λ c. c.sample)

-- The counters of the calls `before` and `cs`.
pub record IsOngoing (before cs : List Call) (t : LatencyTracker) : Type 0 where
  pub counted : t.sample_count ≡ u64 (total past_counting one before + total past_counting one cs)
  pub summed : t.sum ≡ u64 (total past_summing itself before + total past_summing itself cs)
  pub overflowed :
      t.overflow_count
      ≡ u64 (total past_bucketing overflow_weight before + total past_bucketing overflow_weight cs)
  pub buckets : length t.histogram ≡ num_buckets
  pub bucketed :
      (i : ℕ)
      → i < num_buckets
      → get_or t.histogram i 0
        ≡ u64 (
            total past_bucketing (bucket_weight i) before
            + total past_bucketing (bucket_weight i) cs)
  pub lowered : t.min ≤ min (lowest before) (lowest cs)
  pub raised : max (highest before) (highest cs) ≤ t.max
  pub above : min (least (samples before)) (least (samples cs)) ≤ t.min
  pub below : t.max ≤ max (greatest (samples before)) (greatest (samples cs))

module _ (before cs : List Call) (c : Call) (t : LatencyTracker) where
  advance-IsOngoing :
      (w : Bool)
      → IsOngoing before (c ∷ cs) t
      → let r = advance w c.sample c.phase t in IsOngoing before (record c { phase = r.0 } ∷ cs) r.1
  advance-IsOngoing w v = record {
    counted = omega (
      arith,
      advance-counted w c.sample t (total past_counting one before + total past_counting one cs)
          c.phase (omega (arith, v.counted)),
    );
    summed = omega (
      arith,
      advance-summed w c.sample t (total past_summing itself before + total past_summing itself cs)
          c.phase (omega (arith, v.summed)),
    );
    overflowed = omega (
      arith,
      advance-overflowed w c.sample t
          (total past_bucketing overflow_weight before + total past_bucketing overflow_weight cs)
          c.phase (omega (arith, v.overflowed)),
    );
    buckets = omega (arith, v.buckets, advance-buckets w c.sample c.phase t);
    bucketed = λ i k. omega (
      arith,
      advance-bucketed w c.sample t
          (total past_bucketing (bucket_weight i) before
            + total past_bucketing (bucket_weight i) cs)
          i c.phase k v.buckets (omega (arith, v.bucketed i k)),
    );
    lowered = omega (
      arith,
      advance-lowered w c.sample t (min (lowest before) (lowest cs)) c.phase
          (omega (arith, v.lowered)),
    );
    raised = omega (
      arith,
      advance-raised w c.sample t (max (highest before) (highest cs)) c.phase
          (omega (arith, v.raised)),
    );
    above = omega (
      arith,
      advance-min w c.sample t (min (least (samples before)) (least (samples cs))) c.phase
          (omega (arith, v.above)),
    );
    below = omega (
      arith,
      advance-max w c.sample t (max (greatest (samples before)) (greatest (samples cs))) c.phase
          (omega (arith, v.below)),
    );
  }

  -- A call may stand on either side.
  aside : IsOngoing before (c ∷ cs) t → IsOngoing (c ∷ before) cs t
  aside v = record {
    counted = omega (arith, v.counted);
    summed = omega (arith, v.summed);
    overflowed = omega (arith, v.overflowed);
    buckets = v.buckets;
    bucketed = λ i k. omega (arith, v.bucketed i k);
    lowered = omega (arith, v.lowered);
    raised = omega (arith, v.raised);
    above = omega (arith, v.above);
    below = omega (arith, v.below);
  }

  back : IsOngoing (c ∷ before) cs t → IsOngoing before (c ∷ cs) t
  back v = record {
    counted = omega (arith, v.counted);
    summed = omega (arith, v.summed);
    overflowed = omega (arith, v.overflowed);
    buckets = v.buckets;
    bucketed = λ i k. omega (arith, v.bucketed i k);
    lowered = omega (arith, v.lowered);
    raised = omega (arith, v.raised);
    above = omega (arith, v.above);
    below = omega (arith, v.below);
  }

pub advance_at-IsOngoing :
    (i : ℕ) (w : Bool) (before cs : List Call) (t : LatencyTracker)
    → IsOngoing before cs t
    → let (cs', t') = advance_at i w cs t in IsOngoing before cs' t'
unfolding advance_at
advance_at-IsOngoing i w before [] t v = v
advance_at-IsOngoing zero w before (c ∷ cs) t v = advance-IsOngoing before cs c t w v
advance_at-IsOngoing (suc i) w before (c ∷ cs) t v =
    let (cs', t') = advance_at i w cs t in
    back before cs' c t' (advance_at-IsOngoing i w (c ∷ before) cs t (aside before cs c t v))
