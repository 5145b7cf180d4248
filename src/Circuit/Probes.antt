-- ===== src/Circuit/Probes.antt =====
-- The rate limit of the recovery probes, while other calls end and arrive.
use ahjoor_backend.Common.{
  ℕ, ◌+◌, ◌≤◌, ◌<◌, ◌≡◌, ◌≢◌, arith, leb, ◌&&◌, Bool, true, false, List, [], ◌∷◌, ok,
}
use ahjoor_backend.Circuit.{BreakerConfig, Breaker, admit_call, on_failure, time_of}
use ahjoor_backend.Circuit.Consistency.{Event, arrives, fails, resets, succeeds, step, run_events}

-- Calls that arrive and fail from a time on, without a success or a reset.
abbrev pub is_failing_since : ℕ → Event → Bool
is_failing_since t (arrives now) = leb t now
is_failing_since t (fails now) = leb t now
is_failing_since t _ = false

abbrev pub all_failing_since : ℕ → List Event → Bool
all_failing_since t [] = true
all_failing_since t (e ∷ es) = is_failing_since t e && all_failing_since t es

-- An open circuit whose last probe was at the time or later.
record Probed (t : ℕ) (b : Breaker) : Type 0 where
  open_ : b.is_open ≡ true
  probed : t ≤ time_of b.last_half_open_probe_at

step-Probed :
    (cfg : BreakerConfig) (t : ℕ) (e : Event) (b : Breaker)
    → is_failing_since t e ≡ true
    → Probed t b
    → Probed t (step cfg e b)
unfolding step admit_call on_failure
step-Probed cfg t (arrives now) b h p = record {
  open_ = ground (arith, p.open_);
  probed = ground (arith, p.open_, p.probed);
}
step-Probed cfg t (fails now) b h p = record {
  open_ = ground (arith, p.open_);
  probed = ground (arith, p.open_, p.probed);
}
step-Probed cfg t (resets now) b h p = absurd (ground arith)
step-Probed cfg t (succeeds now latency) b h p = absurd (ground arith)

run_events-Probed :
    (cfg : BreakerConfig) (t : ℕ) (es : List Event) (b : Breaker)
    → all_failing_since t es ≡ true
    → Probed t b
    → Probed t (run_events cfg es b)
unfolding run_events
run_events-Probed cfg t [] b h p = p
run_events-Probed cfg t (e ∷ es) b h p =
    run_events-Probed cfg t es (step cfg e b) (ground arith)
      (step-Probed cfg t e b (ground arith) p)

admitted-Probed :
    (cfg : BreakerConfig) (t : ℕ) (b b' : Breaker)
    → b.is_open ≡ true
    → admit_call cfg t b ≡ (b', ok tt)
    → Probed t b'
unfolding admit_call
admitted-Probed cfg t b b' op e = record { open_ = ground arith; probed = ground arith }

-- After a probe that an open circuit let through at time t, no call goes to the network before t
-- plus the minimum interval, whatever calls arrive and fail from t on in between.
pub probe_interval :
    (cfg : BreakerConfig) (t now : ℕ) (es : List Event) (b b' : Breaker)
    → b.is_open ≡ true
    → admit_call cfg t b ≡ (b', ok tt)
    → all_failing_since t es ≡ true
    → now < t + cfg.min_probe_interval_ms
    → (admit_call cfg now (run_events cfg es b')).1 ≢ ok tt
unfolding admit_call
probe_interval cfg t now es b b' op e h soon refused =
    let p = run_events-Probed cfg t es b' h (admitted-Probed cfg t b b' op e) in
    ground (arith, p.open_, p.probed)
