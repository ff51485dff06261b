-- ===== src/Latency/Race/Outcome.antt =====
-- Whatever the schedule: once every call of `record` has ended, the tracker holds the statistics of
-- all the samples.
use qode.Base.{
  ℕ, zero, suc, ◌≤◌, ◌≡◌, refl, subst, ap, ◌∙◌, List, [], ◌∷◌, Bool, map, get_or-replicate, length,
  length-replicate, arith,
}
use qode.Latency.{LatencyTracker, reset_tracker, num_buckets, uint64_max}
use qode.Latency.Samples.{IsSummary, in_bucket, too_large, sum_of, least, greatest}
use qode.Latency.Race.{
  Call, Phase, advance_at, race, enter, counting, AllFinished, none_left, one_more,
}
use qode.Latency.Race.Tallies.{
  past_counting, past_summing, past_bucketing, bucket_weight, overflow_weight,
}
use qode.Latency.Race.Ongoing.{
  IsOngoing, advance_at-IsOngoing, total, one, itself, lowest, highest, samples,
}

-- No call has made an access yet.
module _ (past : Phase → ℕ → ℕ) (weight : ℕ → ℕ) where
  total-enter :
      ((n : ℕ) → past counting n ≡ 0) → (xs : List ℕ) → total past weight (map enter xs) ≡ 0
  unfolding enter
  total-enter h [] = refl
  total-enter h (x ∷ xs) = omega (arith, h (weight x), total-enter h xs)

lowest-enter : (xs : List ℕ) → lowest (map enter xs) ≡ uint64_max
unfolding enter
lowest-enter [] = refl
lowest-enter (x ∷ xs) = omega (arith, lowest-enter xs)

highest-enter : (xs : List ℕ) → highest (map enter xs) ≡ 0
unfolding enter
highest-enter [] = refl
highest-enter (x ∷ xs) = omega (arith, highest-enter xs)

least-bound : (xs : List ℕ) → least xs ≤ uint64_max
least-bound [] = omega arith
least-bound (x ∷ xs) = omega (arith, least-bound xs)

enter-IsOngoing : (xs : List ℕ) → IsOngoing [] (map enter xs) reset_tracker
unfolding reset_tracker
enter-IsOngoing xs = record {
  counted = omega (arith, total-enter past_counting one (λ n. refl) xs);
  summed = omega (arith, total-enter past_summing itself (λ n. refl) xs);
  overflowed = omega (arith, total-enter past_bucketing overflow_weight (λ n. refl) xs);
  buckets = length-replicate num_buckets (let z : ℕ = 0 in z);
  bucketed = λ i k. omega (
    arith,
    get_or-replicate num_buckets i (let z : ℕ = 0 in z),
    total-enter past_bucketing (bucket_weight i) (λ n. refl) xs,
  );
  lowered = omega (arith, lowest-enter xs);
  raised = omega (arith, highest-enter xs);
  above = omega (arith, least-bound (samples (map enter xs)));
  below = omega arith;
}

race-IsOngoing :
    (turns : List (ℕ × Bool)) (cs : List Call) (t : LatencyTracker)
    → IsOngoing [] cs t
    → let (cs', t') = race turns cs t in IsOngoing [] cs' t'
unfolding race
race-IsOngoing [] cs t v = v
race-IsOngoing ((i, w) ∷ turns) cs t v =
    let (cs', t') = advance_at i w cs t in
    race-IsOngoing turns cs' t' (advance_at-IsOngoing i w [] cs t v)

-- A call keeps its sample.
advance_at-samples :
    (i : ℕ) (w : Bool) (cs : List Call) (t : LatencyTracker)
    → samples (advance_at i w cs t).0 ≡ samples cs
unfolding advance_at
advance_at-samples i w [] t = refl
advance_at-samples zero w (c ∷ cs) t = refl
advance_at-samples (suc i) w (c ∷ cs) t = ap (◌∷◌ c.sample) (advance_at-samples i w cs t)

race-samples :
    (turns : List (ℕ × Bool)) (cs : List Call) (t : LatencyTracker)
    → samples (race turns cs t).0 ≡ samples cs
unfolding race
race-samples [] cs t = refl
race-samples ((i, w) ∷ turns) cs t =
    let (cs', t') = advance_at i w cs t in race-samples turns cs' t' ∙ advance_at-samples i w cs t

samples-enter : (xs : List ℕ) → samples (map enter xs) ≡ xs
unfolding enter
samples-enter [] = refl
samples-enter (x ∷ xs) = ap (◌∷◌ x) (samples-enter xs)

-- What the finished calls sum up to.
count_all : {cs : List Call} → AllFinished cs → total past_counting one cs ≡ length (samples cs)
count_all none_left = refl
count_all (one_more f) = omega (arith, count_all f)

sum_all : {cs : List Call} → AllFinished cs → total past_summing itself cs ≡ sum_of (samples cs)
sum_all none_left = refl
sum_all (one_more f) = omega (arith, sum_all f)

overflow_all :
    {cs : List Call}
    → AllFinished cs
    → total past_bucketing overflow_weight cs ≡ too_large (samples cs)
overflow_all none_left = refl
overflow_all (one_more f) = omega (arith, overflow_all f)

bucket_all :
    (i : ℕ) {cs : List Call}
    → AllFinished cs
    → total past_bucketing (bucket_weight i) cs ≡ in_bucket i (samples cs)
bucket_all i none_left = refl
bucket_all i (one_more f) = omega (arith, bucket_all i f)

lowest_all : {cs : List Call} → AllFinished cs → lowest cs ≡ least (samples cs)
lowest_all none_left = refl
lowest_all (one_more f) = omega (arith, lowest_all f)

highest_all : {cs : List Call} → AllFinished cs → highest cs ≡ greatest (samples cs)
highest_all none_left = refl
highest_all (one_more f) = omega (arith, highest_all f)

AllFinished-IsSummary :
    (cs : List Call) (t : LatencyTracker)
    → AllFinished cs
    → IsOngoing [] cs t
    → IsSummary (samples cs) t
AllFinished-IsSummary cs t f v = record {
  counted = omega (arith, v.counted, count_all f);
  summed = omega (arith, v.summed, sum_all f);
  smallest = omega (arith, v.lowered, v.above, lowest_all f, least-bound (samples cs));
  largest = omega (arith, v.raised, v.below, highest_all f);
  overflowed = omega (arith, v.overflowed, overflow_all f);
  buckets = v.buckets;
  bucketed = λ i k. omega (arith, v.bucketed i k, bucket_all i f);
}

-- Any number of calls of `record` run at once, in any order of their accesses and with any failures
-- of the weak exchanges. When all have ended, the tracker holds the number and the sum of the
-- samples and the number in each bucket and past the histogram, each modulo 2 ^ 64, and their least
-- and their greatest value: no update is lost.
pub race-IsSummary :
    (xs : List ℕ) (turns : List (ℕ × Bool))
    → AllFinished (race turns (map enter xs) reset_tracker).0
    → IsSummary xs (race turns (map enter xs) reset_tracker).1
race-IsSummary xs turns f =
    let (cs, t) = race turns (map enter xs) reset_tracker in
    subst (λ ys. IsSummary ys t)
      (race-samples turns (map enter xs) reset_tracker ∙ samples-enter xs)
      (AllFinished-IsSummary cs t f
        (race-IsOngoing turns (map enter xs) reset_tracker (enter-IsOngoing xs)))
