-- ===== src/Circuit/Tests.antt =====
-- Runs of the breaker with the default settings, its circuit opened by five failures.
use ahjoor_backend.Common.{ℕ, ◌≡◌, ◌≢◌, refl, arith, true, none, some, [], ◌∷◌, ok}
use ahjoor_backend.Congestion.{Monitor, clean_old_samples, is_congestioned}
use ahjoor_backend.Circuit.{BreakerConfig, Breaker, admit_call, get_adaptive_timeout}
use ahjoor_backend.Circuit.Consistency.{
  arrives, fails, succeeds, run_events, failures_after, IsConsistent, run_events-IsConsistent,
}
use ahjoor_backend.Circuit.Probes.{probe_interval}

abbrev defaults : BreakerConfig
defaults = record {
  threshold = 5;
  base_timeout_ms = 60000;
  min_probe_interval_ms = 5000;
  monitor = record {
    window_size_ms = 120000;
    p99_latency_threshold_ms = 5000;
    p95_latency_threshold_ms = 2000;
    rate_num = 1;
    rate_den = 4;
    min_samples = 10;
  };
}

abbrev quiet : Monitor
quiet = record {
  latency_window = [];
  window_start_time = 100000;
  successful_attempts = 0;
  failed_attempts = 5;
}

abbrev opened : Breaker
opened = record {
  failures = 5;
  last_failure_at = some 100000;
  is_open = true;
  last_half_open_probe_at = none;
  monitor = quiet;
}

abbrev probing : Breaker
probing = record opened { last_half_open_probe_at = some 200000 }

opened-IsConsistent : IsConsistent defaults 5 opened
opened-IsConsistent = record { counted = refl; opened = refl; dated = refl }

run_events-IsConsistent_example : IsConsistent defaults 1 (
    run_events defaults
      (arrives 200000 ∷ fails 200100 ∷ succeeds 200200 50 ∷ fails 200300 ∷ [])
      opened)
unfolding failures_after
run_events-IsConsistent_example =
    run_events-IsConsistent defaults
      (arrives 200000 ∷ fails 200100 ∷ succeeds 200200 50 ∷ fails 200300 ∷ []) 5 opened
      (omega arith) opened-IsConsistent

abbrev answer : ℕ
answer = 3

lets_through : admit_call defaults 200000 opened ≡ (probing, ok tt)
unfolding admit_call clean_old_samples get_adaptive_timeout is_congestioned
lets_through = refl

probe_interval_example :
    (admit_call defaults 204000
      (run_events defaults (fails 200500 ∷ arrives 203000 ∷ []) probing)).1
    ≢ ok tt
probe_interval_example =
    probe_interval defaults 200000 204000 (fails 200500 ∷ arrives 203000 ∷ []) opened probing refl
      lets_through refl (omega arith)
