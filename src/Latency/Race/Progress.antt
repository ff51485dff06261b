-- ===== src/Latency/Race/Progress.antt =====
-- Calls of `record` that share a tracker never block each other, and a call that runs alone does
-- what `record_latency` does in one piece.
use qode.Base.{
  ℕ, zero, suc, ◌-◌, ◌/◌, ◌≤◌, ◌≡◌, refl, ap, ◌∙◌, List, [], ◌∷◌, ◌++◌, Bool, false, ◌==◌, ltb,
  if◌then◌else◌, replicate, length, add64, arith, dec_lt,
}
use qode.Latency.{LatencyTracker, record_latency, max_tracked_ns, bucket_width_ns, count_bucket}
use qode.Latency.Race.{
  Call, Phase, advance, advance_at, race, enter, count_sample, counting, summing, loading_min,
  lowering, loading_max, raising, bucketing, indexing, storing, finished,
}

-- How many accesses a call still needs when no other call interferes.
abbrev work : LatencyTracker → Phase → ℕ
work t counting = 9
work t summing = 8
work t loading_min = 7
work t (lowering current_min) = if t.min == current_min then 6 else 7
work t loading_max = 5
work t (raising current_max) = if t.max == current_max then 4 else 5
work t bucketing = 3
work t indexing = 2
work t (storing idx) = 1
work t finished = 0

advance-work :
    (x : ℕ) (p : Phase) (t : LatencyTracker)
    → let r = advance false x p t in work r.1 r.0 ≤ work t p - 1
unfolding advance count_sample
advance-work x counting t = omega arith
advance-work x summing t = omega arith
advance-work x loading_min t = ground arith
advance-work x (lowering c) t = ground arith
advance-work x loading_max t = ground arith
advance-work x (raising c) t = ground arith
advance-work x bucketing t = omega arith
advance-work x indexing t = omega arith
advance-work x (storing idx) t = omega arith
advance-work x finished t = omega arith

no_work : (t : LatencyTracker) (p : Phase) → work t p ≤ 0 → p ≡ finished
no_work t finished h = refl
no_work t counting h = absurd (omega arith)
no_work t summing h = absurd (omega arith)
no_work t loading_min h = absurd (omega arith)
no_work t (lowering c) h = absurd (ground arith)
no_work t loading_max h = absurd (omega arith)
no_work t (raising c) h = absurd (ground arith)
no_work t bucketing h = absurd (omega arith)
no_work t indexing h = absurd (omega arith)
no_work t (storing idx) h = absurd (omega arith)

work-bound : (t : LatencyTracker) (p : Phase) → work t p ≤ 9
work-bound t finished = omega arith
work-bound t counting = omega arith
work-bound t summing = omega arith
work-bound t loading_min = omega arith
work-bound t (lowering c) = ground arith
work-bound t loading_max = omega arith
work-bound t (raising c) = ground arith
work-bound t bucketing = omega arith
work-bound t indexing = omega arith
work-bound t (storing idx) = omega arith

-- The call at position `i` makes its next `n` accesses, and none of its exchanges fails for no
-- reason.
abbrev pub alone : ℕ → ℕ → List (ℕ × Bool)
alone i n = replicate n (i, false)

alone-finishes :
    (n : ℕ) (c : Call) (cs : List Call) (t : LatencyTracker)
    → work t c.phase ≤ n
    → (race (alone 0 n) (c ∷ cs) t).0 ≡ record c { phase = finished } ∷ cs
unfolding race advance_at
alone-finishes zero c cs t h = ap (λ p. record c { phase = p } ∷ cs) (no_work t c.phase h)
alone-finishes (suc n) c cs t h =
    let (p, t') = advance false c.sample c.phase t in
    alone-finishes n (record c { phase = p }) cs t' (omega (arith, advance-work c.sample c.phase t))

-- The calls in front of it do not move.
alone-behind :
    (n i : ℕ) (c : Call) (cs : List Call) (t : LatencyTracker)
    → (race (alone (suc i) n) (c ∷ cs) t).0 ≡ c ∷ (race (alone i n) cs t).0
unfolding race advance_at
alone-behind zero i c cs t = refl
alone-behind (suc n) i c cs t = let (cs', t') = advance_at i false cs t in alone-behind n i c cs' t'

-- No call of `record` waits for another one: whatever all of them have done so far, the next nine
-- accesses of a call, if the others make none meanwhile and no exchange fails for no reason, end
-- it, and leave the other calls where they stand.
pub race-finishes :
    (before behind : List Call) (c : Call) (t : LatencyTracker)
    → (race (alone (length before) 9) (before ++ (c ∷ behind)) t).0
      ≡ before ++ (record c { phase = finished } ∷ behind)
race-finishes [] behind c t = alone-finishes 9 c behind t (work-bound t c.phase)
race-finishes (b ∷ before) behind c t =
    alone-behind 9 (length before) b (before ++ (c ∷ behind)) t
    ∙ ap (◌∷◌ b) (race-finishes before behind c t)

-- The cells that nothing else writes: the exchange succeeds at once.
module _ (x : ℕ) (t : LatencyTracker) where
  advance_lowering :
      advance false x (lowering t.min) t
      ≡ (loading_max, record t { min = if ltb x t.min then x else t.min })
  unfolding advance
  advance_lowering = elim (dec_lt x t.min) [ yes h ↦ ground arith | no h ↦ ground arith ]

  advance_raising :
      advance false x (raising t.max) t
      ≡ (bucketing, record t { max = if ltb t.max x then x else t.max })
  unfolding advance
  advance_raising = elim (dec_lt t.max x) [ yes h ↦ ground arith | no h ↦ ground arith ]

  count_sample_lem :
      let tracked = ltb x max_tracked_ns in
      count_sample x t ≡ record t {
        histogram = if tracked then count_bucket (x / bucket_width_ns) t.histogram else t.histogram;
        overflow_count = if tracked then t.overflow_count else add64 t.overflow_count 1;
      }
  unfolding count_sample
  count_sample_lem = elim (dec_lt x max_tracked_ns) [ yes h ↦ ground arith | no h ↦ ground arith ]

abbrev call_at : ℕ → Phase → Call
call_at x p = record { sample = x; phase = p }

then_alone :
    (n x : ℕ) (p p' : Phase) (t t' : LatencyTracker) {r : List Call × LatencyTracker}
    → advance false x p t ≡ (p', t')
    → race (alone 0 n) (call_at x p' ∷ []) t' ≡ r
    → race (alone 0 (suc n)) (call_at x p ∷ []) t ≡ r
unfolding race advance_at
then_alone n x p p' t t' e k = ap (λ a. race (alone 0 n) (call_at x a.0 ∷ []) a.1) e ∙ k

-- The nine accesses of a call that nothing interrupts.
race-record_latency :
    (x : ℕ) (t : LatencyTracker)
    → race (alone 0 9) (enter x ∷ []) t ≡ (call_at x finished ∷ [], record_latency x t)
unfolding race advance enter record_latency
race-record_latency x t =
    let t2 = record t { sample_count = add64 t.sample_count 1; sum = add64 t.sum x } in
    let t4 = record t2 { min = if ltb x t.min then x else t.min } in
    let t6 = record t4 { max = if ltb t.max x then x else t.max } in
    then_alone 8 x counting summing t (record t { sample_count = add64 t.sample_count 1 }) refl
      (then_alone 7 x summing loading_min _ t2 refl (
        then_alone 6 x loading_min (lowering t2.min) t2 t2 refl (
          then_alone 5 x (lowering t2.min) loading_max t2 t4 (advance_lowering x t2) (
            then_alone 4 x loading_max (raising t4.max) t4 t4 refl (
              then_alone 3 x (raising t4.max) bucketing t4 t6 (advance_raising x t4) (
                then_alone 2 x bucketing indexing t6 _
                  (ap (λ a. (indexing, a)) (count_sample_lem x t6)) refl))))))
