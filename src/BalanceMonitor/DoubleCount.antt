-- ===== src/BalanceMonitor/DoubleCount.antt =====
-- A check runs in the breaker twice, one call within the other.
use ahjoor_backend.Common.{ℕ, ◌+◌, ◌≡◌, arith, leb, false, none}
use ahjoor_backend.Circuit.{BreakerConfig, Breaker, admit_call, on_failure, execute}
use ahjoor_backend.BalanceMonitor.{Times, check_account_balance}

-- One account that cannot be loaded counts as two failures of the network: it opens a closed circuit
-- whose failures are two below the threshold.
pub failed_load_counts_twice :
    (cfg : BreakerConfig) (minimum account : ℕ) (t : Times) (b : Breaker)
    → b.is_open ≡ false
    → let after = (check_account_balance cfg minimum t account none b).0 in
      (after.failures ≡ b.failures + 2) × (after.is_open ≡ leb cfg.threshold (b.failures + 2))
unfolding check_account_balance admit_call on_failure execute
failed_load_counts_twice cfg minimum account t b closed = ground arith
