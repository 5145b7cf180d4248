-- ===== src/Circuit/Consistency.antt =====
-- What holds of the breaker at any time, in any interleaving of calls.
use ahjoor_backend.Common.{
  ℕ, ◌+◌, ◌≤◌, ◌<◌, ◌≡◌, refl, arith, leb, not, true, Option, some, List, [], ◌∷◌, err, unavailable,
  ◌/◌, ◌-◌,
}
use ahjoor_backend.Entities.{is_some}
use ahjoor_backend.Circuit.{
  BreakerConfig, Breaker, admit_call, on_success, on_failure, reset, get_adaptive_timeout,
  ceil_seconds, execute,
}
use ahjoor_backend.Congestion.{Monitor, clean_old_samples}

-- What happens to the breaker: a call arrives, or one that was admitted ends, at a time.
pub data Event : Type 0 where
  arrives fails resets : ℕ → Event
  succeeds : ℕ → ℕ → Event

unfoldable pub step : BreakerConfig → Event → Breaker → Breaker
step cfg (arrives now) b = (admit_call cfg now b).0
step cfg (fails now) b = on_failure cfg now b
step cfg (resets now) b = reset cfg now b
step cfg (succeeds now latency) b = on_success cfg now latency b

unfoldable pub run_events : BreakerConfig → List Event → Breaker → Breaker
unfolding step
run_events cfg [] b = b
run_events cfg (e ∷ es) b = run_events cfg es (step cfg e b)

-- The failures since the last success or reset, where `n` had been before the events.
unfoldable pub failures_after : List Event → ℕ → ℕ
failures_after [] n = n
failures_after (arrives now ∷ es) n = failures_after es n
failures_after (fails now ∷ es) n = failures_after es (n + 1)
failures_after (resets now ∷ es) n = failures_after es 0
failures_after (succeeds now latency ∷ es) n = failures_after es 0

-- The circuit against a number of failures: it is open just when they reach the threshold.
pub record IsConsistent (cfg : BreakerConfig) (failures : ℕ) (b : Breaker) : Type 0 where
  pub counted : b.failures ≡ failures
  pub opened : b.is_open ≡ leb cfg.threshold failures
  pub dated : is_some b.last_failure_at ≡ not (leb failures 0)

-- With a threshold of one failure at least, in any interleaving of calls, ends of calls and
-- resets the circuit counts the failures since the last success or reset, going on from the count
-- that it began with; it is open just when they reach the threshold, and the time of the last
-- failure is there just when there was one.
pub run_events-IsConsistent :
    (cfg : BreakerConfig) (es : List Event) (n : ℕ) (b : Breaker)
    → 1 ≤ cfg.threshold
    → IsConsistent cfg n b
    → IsConsistent cfg (failures_after es n) (run_events cfg es b)
unfolding run_events step failures_after admit_call on_success on_failure reset
run_events-IsConsistent cfg [] n b one c = c
run_events-IsConsistent cfg (arrives now ∷ es) n b one c =
    run_events-IsConsistent cfg es n (step cfg (arrives now) b) one (record {
      counted = ground (arith, c.counted);
      opened = ground (arith, c.opened);
      dated = ground (arith, c.dated);
    })
run_events-IsConsistent cfg (fails now ∷ es) n b one c =
    run_events-IsConsistent cfg es (n + 1) (step cfg (fails now) b) one (record {
      counted = ground (arith, c.counted);
      opened = ground (arith, c.counted, c.opened);
      dated = ground arith;
    })
run_events-IsConsistent cfg (resets now ∷ es) n b one c =
    run_events-IsConsistent cfg es 0 (step cfg (resets now) b) one
      (record { counted = refl; opened = ground arith; dated = ground arith })
run_events-IsConsistent cfg (succeeds now latency ∷ es) n b one c =
    run_events-IsConsistent cfg es 0 (step cfg (succeeds now latency) b) one
      (record { counted = refl; opened = ground arith; dated = ground arith })

adaptive_timeout-bounds :
    (cfg : BreakerConfig) (mon : Monitor)
    → (cfg.base_timeout_ms / 2 ≤ get_adaptive_timeout cfg mon)
      × (get_adaptive_timeout cfg mon ≤ cfg.base_timeout_ms)
unfolding get_adaptive_timeout
adaptive_timeout-bounds cfg mon = ground arith

admit_call-refuses :
    (cfg : BreakerConfig) (now failed_at : ℕ) (b : Breaker)
    → b.is_open ≡ true
    → b.last_failure_at ≡ some failed_at
    → let mon = clean_old_samples cfg.monitor now b.monitor in
      let reopen = failed_at + get_adaptive_timeout cfg mon in
      now < reopen
      → admit_call cfg now b
        ≡ (record b { monitor = mon }, err (unavailable (ceil_seconds (reopen - now))))
unfolding admit_call
admit_call-refuses cfg now failed_at b op at early = ground arith

-- In an open circuit, execute before half the base timeout after the last failure is refused with
-- a wait of one second at least and of the base timeout, rounded up to seconds, at most; no
-- failure is counted and the circuit stays open.
pub execute-open :
    (cfg : BreakerConfig) (now later failed_at : ℕ) (outcome : Option ℕ) (b : Breaker)
    → b.is_open ≡ true
    → b.last_failure_at ≡ some failed_at
    → failed_at ≤ now
    → now < failed_at + cfg.base_timeout_ms / 2
    → (wait : ℕ) × ((execute cfg now later outcome b).1 ≡ err (unavailable wait))
      × (1 ≤ wait)
      × (wait ≤ ceil_seconds cfg.base_timeout_ms)
      × ((execute cfg now later outcome b).0.failures ≡ b.failures)
      × ((execute cfg now later outcome b).0.is_open ≡ true)
unfolding execute
execute-open cfg now later failed_at outcome b op at past soon =
    let mon : Monitor = clean_old_samples cfg.monitor now b.monitor in
    let (low, high) = adaptive_timeout-bounds cfg mon in
    let answer = admit_call-refuses cfg now failed_at b op at (omega (arith, soon, low)) in
    (
      ceil_seconds (failed_at + get_adaptive_timeout cfg mon - now),
      ground (arith, answer),
      omega (arith, soon, low),
      omega (arith, past, high),
      ground (arith, answer),
      ground (arith, answer, op),
    )
