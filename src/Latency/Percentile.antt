-- ===== src/Latency/Percentile.antt =====
-- What a percentile says of the recorded samples.
use qode.Base.{
  ℕ, suc, ◌+◌, ◌*◌, ◌^◌, ◌≤◌, ◌<◌, ◌≡◌, subst, refl, sym, ap, ◌∙◌, ◌⊎◌, inl, inr, List, [], ◌∷◌,
  get_or, length, ltb, leb, if-elim, leb→le, leb→lt, if◌then◌else◌, add64, u64, arith,
}
use qode.Latency.{find_bucket, percentile_at, num_buckets, bucket_width_ns, max_tracked_ns}
use qode.Latency.Samples.{record_all, in_bucket, greatest, IsSummary, record_all-IsSummary}

-- How many samples are below `limit`.
abbrev pub count_below : ℕ → List ℕ → ℕ
count_below limit [] = 0
count_below limit (x ∷ xs) = (if ltb x limit then 1 else 0) + count_below limit xs

count_below-le : (limit : ℕ) (xs : List ℕ) → count_below limit xs ≤ length xs
count_below-le limit [] = omega arith
count_below-le limit (x ∷ xs) = ground (arith, count_below-le limit xs)

in_bucket-le : (i : ℕ) (xs : List ℕ) → in_bucket i xs ≤ length xs
in_bucket-le i [] = omega arith
in_bucket-le i (x ∷ xs) = ground (arith, in_bucket-le i xs)

count_below-zero : (xs : List ℕ) → count_below 0 xs ≡ 0
count_below-zero [] = refl
count_below-zero (x ∷ xs) = ground (arith, count_below-zero xs)

-- The samples below the end of a bucket are those below its start and those in it.
count_below_next :
    (i : ℕ) (xs : List ℕ)
    → count_below ((i + 1) * 1000) xs ≡ count_below (i * 1000) xs + in_bucket i xs
count_below_next i [] = omega arith
count_below_next i (x ∷ xs) = ground (arith, count_below_next i xs)

-- `r` is the middle of the first bucket up to whose end `target` samples lie, or the greatest
-- sample where the whole histogram holds fewer.
pub data IsPercentile (target : ℕ) (xs : List ℕ) (r : ℕ) : Type 0 where
  in_histogram :
      (i : ℕ)
      → i < num_buckets
      → r ≡ i * bucket_width_ns + 500
      → target ≤ count_below ((i + 1) * bucket_width_ns) xs
      → (i ≡ 0) ⊎ (count_below (i * bucket_width_ns) xs < target)
      → IsPercentile target xs r
  past_histogram :
      r ≡ greatest xs → count_below max_tracked_ns xs < target → IsPercentile target xs r

module _ (target : ℕ) (xs : List ℕ) (few : length xs < 2 ^ 64) where
  -- No count wraps around.
  total_lem :
      (cumulative i n : ℕ)
      → cumulative ≡ count_below (i * 1000) xs
      → n ≡ u64 (in_bucket i xs)
      → add64 cumulative n ≡ count_below ((i + 1) * 1000) xs
  total_lem cumulative i n c e = omega (
    arith,
    c,
    e,
    few,
    count_below_next i xs,
    count_below-le ((i + 1) * 1000) xs,
    in_bucket-le i xs,
  )

  find_bucket-IsPercentile :
      (cumulative i : ℕ) (ns : List ℕ)
      → i + length ns ≡ num_buckets
      → cumulative ≡ count_below (i * bucket_width_ns) xs
      → (i ≡ 0) ⊎ (cumulative < target)
      → ((j : ℕ) → j < length ns → get_or ns j 0 ≡ u64 (in_bucket (i + j) xs))
      → IsPercentile target xs (find_bucket (greatest xs) target cumulative i ns)
  unfolding find_bucket
  find_bucket-IsPercentile cumulative i [] e c (inl z) h = absurd (omega arith)
  find_bucket-IsPercentile cumulative i [] e c (inr low) h =
      let i_eq : i ≡ 1000 = omega (arith, e) in
      past_histogram refl
        (subst (λ j. count_below (j * 1000) xs < target) i_eq (subst (λ k. k < target) c low))
  find_bucket-IsPercentile cumulative i (n ∷ ns) e c l h =
      let n_eq : n ≡ u64 (in_bucket i xs) =
        h 0 (omega arith) ∙ ap (λ k. u64 (in_bucket k xs)) (omega arith) in
      let total : add64 cumulative n ≡ count_below ((i + 1) * 1000) xs =
        total_lem cumulative i n c n_eq in
      if-elim (IsPercentile target xs) (leb target (add64 cumulative n))
        (λ t.
          in_histogram i (omega (arith, e)) refl
            (subst (λ k. target ≤ k) total (leb→le target (add64 cumulative n) t))
            (subst (λ k. (i ≡ 0) ⊎ (k < target)) c l))
        (λ t.
          find_bucket-IsPercentile (add64 cumulative n) (i + 1) ns (omega (arith, e)) total
            (inr (omega (arith, leb→lt target (add64 cumulative n) t)))
            (λ j k. h (suc j) (omega arith) ∙ ap (λ k. u64 (in_bucket k xs)) (omega arith)))

-- For fewer than 2 ^ 64 samples, the percentile for a target count is the middle of the first of the
-- 1000 buckets of 1000 ns up to whose end at least that many samples lie, or the greatest sample
-- where fewer than that many lie below 1 ms, the end of the last bucket.
pub percentile_at-IsPercentile :
    (target : ℕ) (xs : List ℕ)
    → length xs < 2 ^ 64
    → IsPercentile target xs (percentile_at target (record_all xs))
unfolding percentile_at
percentile_at-IsPercentile target xs few =
    let v : IsSummary xs (record_all xs) = record_all-IsSummary xs in
    subst (λ m. IsPercentile target xs (find_bucket m target 0 0 (record_all xs).histogram))
      (sym v.largest)
      (find_bucket-IsPercentile target xs few 0 0 (record_all xs).histogram
        (omega (arith, v.buckets)) (sym (count_below-zero xs)) (inl refl)
        (λ j k.
          v.bucketed j (subst (λ n. j < n) v.buckets k)
          ∙ ap (λ i. u64 (in_bucket i xs)) (omega arith)))
