-- ===== src/Congestion.antt =====
-- ahjoorxmr/src/stellar/congestion-monitor.service.ts: latencies and failures of the Stellar calls. Times
-- and latencies are milliseconds; ratios are compared by cross-multiplication.
use ahjoor_backend.Common.{
  ℕ, suc, zero, ◌+◌, ◌-◌, ◌*◌, ◌/◌, ltb, leb, if◌then◌else◌, ◌&&◌, Bool, List, [], ◌∷◌, ◌++◌,
  length, max,
}

-- `errorRateThreshold` is `rate_num / rate_den`.
pub record MonitorConfig : Type 0 where
  pub window_size_ms : ℕ
  pub p99_latency_threshold_ms : ℕ
  pub p95_latency_threshold_ms : ℕ
  pub rate_num : ℕ
  pub rate_den : ℕ
  pub min_samples : ℕ

pub record Monitor : Type 0 where
  pub latency_window : List ℕ
  pub window_start_time : ℕ
  pub successful_attempts : ℕ
  pub failed_attempts : ℕ

pub fresh_monitor : ℕ → Monitor
fresh_monitor now = record {
  latency_window = [];
  window_start_time = now;
  successful_attempts = 0;
  failed_attempts = 0;
}

pub drop_rows : ℕ → List ℕ → List ℕ
drop_rows zero xs = xs
drop_rows (suc n) [] = []
drop_rows (suc n) (x ∷ xs) = drop_rows n xs

-- `slice(-500)` where there are more than 1000 samples.
pub trimmed : List ℕ → List ℕ
unfolding drop_rows
trimmed xs = if ltb 1000 (length xs) then drop_rows (length xs - 500) xs else xs

-- `now - windowStartTime` may be negative, and is then not above the limit.
unfoldable pub clean_old_samples : MonitorConfig → ℕ → Monitor → Monitor
unfolding trimmed fresh_monitor
clean_old_samples cfg now mon =
    if ltb (mon.window_start_time + cfg.window_size_ms * 2) now
    then fresh_monitor now
    else record mon { latency_window = trimmed mon.latency_window }

unfoldable pub record_success : MonitorConfig → ℕ → ℕ → Monitor → Monitor
unfolding clean_old_samples
record_success cfg now latency mon =
    let clean = clean_old_samples cfg now mon in
    record clean {
      latency_window = clean.latency_window ++ latency ∷ [];
      successful_attempts = clean.successful_attempts + 1;
    }

unfoldable pub record_failure : MonitorConfig → ℕ → Monitor → Monitor
unfolding clean_old_samples
record_failure cfg now mon =
    let clean = clean_old_samples cfg now mon in
    record clean { failed_attempts = clean.failed_attempts + 1 }

pub insert_latency : ℕ → List ℕ → List ℕ
insert_latency k [] = k ∷ []
insert_latency k (x ∷ xs) = if leb k x then k ∷ x ∷ xs else x ∷ insert_latency k xs

pub sort_latencies : List ℕ → List ℕ
unfolding insert_latency
sort_latencies [] = []
sort_latencies (k ∷ ks) = insert_latency k (sort_latencies ks)

pub at_index : ℕ → List ℕ → ℕ
at_index i [] = 0
at_index zero (x ∷ xs) = x
at_index (suc i) (x ∷ xs) = at_index i xs

-- `sorted[Math.ceil((percent / 100) * len) - 1]`, and 0 where there is no sample.
pub percentile : ℕ → List ℕ → ℕ
unfolding sort_latencies at_index
percentile percent xs = at_index ((percent * length xs + 99) / 100 - 1) (sort_latencies xs)

abbrev pub total_attempts : Monitor → ℕ
total_attempts mon = mon.successful_attempts + mon.failed_attempts

-- `isCongestioned` of `getState`, on the cleaned monitor. Without an attempt the error rate is 0.
unfoldable pub is_congestioned : MonitorConfig → Monitor → Bool
unfolding percentile
is_congestioned cfg mon =
    leb cfg.min_samples (total_attempts mon)
    && leb cfg.p99_latency_threshold_ms (percentile 99 mon.latency_window)
    && leb (mon.failed_attempts * cfg.rate_den) (cfg.rate_num * total_attempts mon)

-- `Math.round(errorRate * 10000) / 10000 > 0.5`.
pub is_likely_outage : Monitor → Bool
is_likely_outage mon =
    ltb 5000 ((20000 * mon.failed_attempts + total_attempts mon) / (2 * max (total_attempts mon) 1))
