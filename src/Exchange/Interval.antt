-- ===== src/Exchange/Interval.antt =====
-- src/server/exchange_simulator.cpp: how often ticks are generated.
use qode.Base.{ℕ, ◌*◌, ◌/◌, ◌^◌, ◌≤◌, ◌<◌, min, max, arith}
use native.Mathlib.Nat.{le-div_iff_mul-le, div-le_self, div-mul-le_self, mul-le-mul_right, le_trans}
use qode.Exchange.{clamp_tick_rate}
use qode.Exchange.Simulator.{set_tick_rate}
use qode.Exchange.Ticks.{ExchangeSimulator, tick_interval, ticks_to_generate}

tick_interval-bounds :
    (rate : ℕ) (x : ExchangeSimulator)
    → (2000 ≤ tick_interval (set_tick_rate rate x).tick_rate)
      × (tick_interval (set_tick_rate rate x).tick_rate ≤ 1000000000)
unfolding set_tick_rate clamp_tick_rate
tick_interval-bounds rate x =
    let r : ℕ = max 1 (min rate 500000) in
    (
      (le-div_iff_mul-le {k = r} {x = 2000} {y = 1000000000} (omega arith)).1 (omega arith),
      div-le_self 1000000000 r,
    )

-- Whatever rate is set, the time between two ticks is from 2 microseconds to a second, so that the
-- time since the last ticks is never divided by zero. A round generates at most 100 ticks, never
-- more than fit that time; where a whole interval has passed, and fewer than 2 ^ 31, at least one.
pub ticks_to_generate-bounds :
    (rate elapsed : ℕ) (x : ExchangeSimulator)
    → let interval = tick_interval (set_tick_rate rate x).tick_rate in
      let n = ticks_to_generate elapsed interval in
      (2000 ≤ interval)
      × (interval ≤ 1000000000)
      × (n ≤ 100)
      × (n * interval ≤ elapsed)
      × (interval ≤ elapsed → elapsed / interval < 2 ^ 31 → 1 ≤ n)
unfolding ticks_to_generate
ticks_to_generate-bounds rate elapsed x =
    let interval : ℕ = tick_interval (set_tick_rate rate x).tick_rate in
    let (low, high) = tick_interval-bounds rate x in
    let q : ℕ = elapsed / interval in
    let n : ℕ = ticks_to_generate elapsed interval in
    let few : n ≤ q = ground arith in
    (
      low,
      high,
      ground arith,
      le_trans (mul-le-mul_right interval few) (div-mul-le_self elapsed interval),
      λ whole small.
          let one : 1 ≤ q =
            (le-div_iff_mul-le {k = interval} {x = 1} {y = elapsed} (omega arith)).1
              (omega arith) in
          ground arith,
    )
