-- ===== src/FeatureFlags/Outage.antt =====
-- A write of a flag while Redis answers writes, but not the read before them.
use ahjoor_backend.Common.{ℕ, ◌≡◌, ◌≢◌, arith, true, false, none, ok, lookup, [], lookup-set_key}
use ahjoor_backend.FeatureFlags.{
  FeatureFlagConfig, FlagChange, FlagState, changed_flag, set_flag, get_all_flags,
}

-- A setFlag whose read of Redis fails, but not its write, loses every other flag.
pub set_flag-loses :
    (now name other : ℕ) (config : FlagChange) (s s' : FlagState) (flag : FeatureFlagConfig)
    → set_flag false true now name config s ≡ ok (s', flag)
    → other ≢ name
    → lookup other s'.stored ≡ none
unfolding lookup set_flag get_all_flags
set_flag-loses now name other config s s' flag e ne =
    ground (arith, lookup-set_key other name (changed_flag now name config none) [])
