-- ===== src/Circuit.antt =====
-- ahjoorxmr/src/stellar/stellar-circuit-breaker.service.ts. A call is two steps, its admission and its
-- end, since other calls run while it awaits the network. Each step reads the clock once.
pub mod Consistency
pub mod Probes
mod Tests
use ahjoor_backend.Common.{
  ℕ, suc, zero, ◌+◌, ◌-◌, ◌*◌, ◌/◌, ltb, leb, if◌then◌else◌, not, ◌&&◌, Bool, true, false, Option,
  none, some, List, [], ◌∷◌, ◌||◌, Result, ok, err, HttpError, unavailable,
}
use ahjoor_backend.Congestion.{
  MonitorConfig, Monitor, fresh_monitor, clean_old_samples, record_success, record_failure,
  is_congestioned, is_likely_outage,
}

pub record BreakerConfig : Type 0 where
  pub threshold : ℕ
  pub base_timeout_ms : ℕ
  pub min_probe_interval_ms : ℕ
  pub monitor : MonitorConfig

pub record Breaker : Type 0 where
  pub failures : ℕ
  pub last_failure_at : Option ℕ
  pub is_open : Bool
  pub last_half_open_probe_at : Option ℕ
  pub monitor : Monitor

abbrev pub time_of : Option ℕ → ℕ
time_of none = 0
time_of (some t) = t

abbrev pub ceil_seconds : ℕ → ℕ
ceil_seconds ms = (ms + 999) / 1000

module _ (cfg : BreakerConfig) where
  pub get_adaptive_timeout : Monitor → ℕ
  get_adaptive_timeout mon =
      if is_congestioned cfg.monitor mon && not (is_likely_outage mon)
      then cfg.base_timeout_ms / 2
      else cfg.base_timeout_ms

  abbrev pub should_attempt_recovery_probe : ℕ → Breaker → Bool
  should_attempt_recovery_probe now b =
      leb (time_of b.last_half_open_probe_at + cfg.min_probe_interval_ms) now

  abbrev pub get_next_probe_delay_ms : ℕ → Breaker → ℕ
  get_next_probe_delay_ms now b =
      time_of b.last_half_open_probe_at + cfg.min_probe_interval_ms - now

  -- The head of `execute`: the call goes to the network, or is refused with its `retryAfter`. Reading
  -- the congestion state cleans the monitor.
  unfoldable pub admit_call : ℕ → Breaker → Breaker × Result (Unit {0})
  admit_call now b =
      let seen = record b { monitor = clean_old_samples cfg.monitor now b.monitor } in
      let reopen = time_of b.last_failure_at + get_adaptive_timeout seen.monitor in
      if not b.is_open
      then (b, ok tt)
      else if ltb now reopen
      then (seen, err (unavailable (ceil_seconds (reopen - now))))
      else if not (should_attempt_recovery_probe now b)
      then (seen, err (unavailable (ceil_seconds (get_next_probe_delay_ms now b))))
      else (record seen { last_half_open_probe_at = some now }, ok tt)

  unfoldable pub on_success : ℕ → ℕ → Breaker → Breaker
  on_success now latency b = record {
    failures = 0;
    last_failure_at = none;
    is_open = false;
    last_half_open_probe_at = none;
    monitor = record_success cfg.monitor now latency b.monitor;
  }

  -- The alert of an opening reads the congestion state, which cleans the monitor again.
  unfoldable pub on_failure : ℕ → Breaker → Breaker
  on_failure now b =
      let recorded = record_failure cfg.monitor now b.monitor in
      let opens = leb cfg.threshold (b.failures + 1) in
      record {
        failures = b.failures + 1;
        last_failure_at = some now;
        is_open = b.is_open || opens;
        last_half_open_probe_at = if b.is_open then some now else b.last_half_open_probe_at;
        monitor =
            if opens && not b.is_open then clean_old_samples cfg.monitor now recorded else recorded;
      }

  pub reset : ℕ → Breaker → Breaker
  reset now b = record {
    failures = 0;
    last_failure_at = none;
    is_open = false;
    last_half_open_probe_at = none;
    monitor = fresh_monitor now;
  }

  -- `execute` on its own: the call starts at `now`, and `outcome` is its value and end, or its failure.
  unfoldable pub execute {ℓ} :
      {A : Type ℓ} → ℕ → ℕ → Option A → Breaker → Breaker × Result (Option A)
  unfolding admit_call on_success on_failure
  execute now later outcome b =
      let (admitted, answer) = admit_call now b in
      elim answer [
        | err e ↦ (admitted, err e)
        | ok _ ↦ elim outcome [
          | none ↦ (on_failure later admitted, ok none)
          | some a ↦ (on_success later (later - now) admitted, ok (some a))
        ]
      ]
