-- ===== src/BalanceMonitor/Tests.antt =====
-- Balances of an issuer's account, and a load that fails.
use ahjoor_backend.Common.{◌≡◌, refl, true, false, none, some, [], ◌∷◌, find}
use ahjoor_backend.Circuit.{BreakerConfig, Breaker}
use ahjoor_backend.BalanceMonitor.{BalanceCheck, recovered, Times, process_balance_results}
use ahjoor_backend.BalanceMonitor.Alerts.{congested_recovery}

abbrev poor : BalanceCheck
poor = record {
  account_id = 8;
  current_balance = 3;
  minimum_required = 5;
  is_low = true;
  timestamp = 1000;
}

congested_recovery_example :
    process_balance_results true (poor ∷ []) (8 ∷ []) ≡ ([], recovered poor ∷ [])
unfolding find
congested_recovery_example = congested_recovery 8 (poor ∷ []) refl refl

abbrev breaker_config : BreakerConfig
breaker_config = record {
  threshold = 5;
  base_timeout_ms = 60000;
  min_probe_interval_ms = 5000;
  monitor = record {
    window_size_ms = 120000;
    p99_latency_threshold_ms = 5000;
    p95_latency_threshold_ms = 2000;
    rate_num = 1;
    rate_den = 4;
    min_samples = 10;
  };
}

abbrev three_failures : Breaker
three_failures = record {
  failures = 3;
  last_failure_at = some 1000;
  is_open = false;
  last_half_open_probe_at = none;
  monitor = record {
    latency_window = [];
    window_start_time = 1000;
    successful_attempts = 0;
    failed_attempts = 3;
  };
}

abbrev times : Times
times = record { outer_start = 2000; inner_start = 2000; inner_end = 2500; outer_end = 2500 }
