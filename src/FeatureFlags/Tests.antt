-- ===== src/FeatureFlags/Tests.antt =====
-- A rollout, its cache, and an outage of Redis, at concrete flags.
use ahjoor_backend.Common.{
  ℕ, ◌+◌, ◌≡◌, refl, inl, inr, arith, true, some, none, List, [], ◌∷◌, lookup, err, internal_error,
}
use ahjoor_backend.FeatureFlags.{
  enabled_for_all, enabled_for_percentage, pos, FeatureFlagConfig, FlagChange, FlagState,
  changed_flag, get_all_flags, get_flag, validate_flag_config,
}
use ahjoor_backend.FeatureFlags.InFlight.{
  Reader, ReadStep, begins, ends, read_step, read_steps, IsSettling, other_write-seen,
}
use ahjoor_backend.FeatureFlags.Cache.{
  gets, deletes, clears, answer_calls, replay_calls, answer_calls_refines,
}

abbrev rollout : FlagChange
rollout = record {
  description = none;
  enabled = none;
  strategy = some enabled_for_percentage;
  percentage = some (pos 40);
  user_ids = none;
  roles = none;
}

abbrev fx_flag : FeatureFlagConfig
unfolding changed_flag
fx_flag = changed_flag 1000 5 rollout none

abbrev kyc_flag : FeatureFlagConfig
kyc_flag = record fx_flag { name = 6; strategy = enabled_for_all }

abbrev two_flags : FlagState
two_flags = record { stored = (5, fx_flag) ∷ (6, kyc_flag) ∷ []; local_cache = [] }

abbrev cached_flag : FlagState
cached_flag = record two_flags {
  local_cache = (5, record { flag = kyc_flag; expires_at = 31000 }) ∷ [];
}

abbrev hash_of : ℕ → ℕ → ℕ
hash_of name user_id = name + user_id

answer_calls_refines_example :
    answer_calls [] (gets 1000 1000 5 ∷ deletes 5 ∷ gets 1001 1001 5 ∷ clears ∷ []) two_flags
    ≡ replay_calls []
        (gets 1000 1000 5 ∷ deletes 5 ∷ gets 1001 1001 5 ∷ clears ∷ [])
        (λ n. lookup n two_flags.stored)
unfolding lookup
answer_calls_refines_example =
    answer_calls_refines [] (gets 1000 1000 5 ∷ deletes 5 ∷ gets 1001 1001 5 ∷ clears ∷ [])
      two_flags (λ n c e. absurd (ground arith))

-- One read had fetched the old flag at the write, and ends after a newer one has begun.
abbrev reading : Reader
reading = record {
  flags = cached_flag;
  in_flight = record { name = 5; flag = kyc_flag; begun = 900 } ∷ [];
}

abbrev later_reads : List ReadStep
later_reads = begins true 1100 6 ∷ ends 1400 0 ∷ ends 5000 0 ∷ []

reading-IsSettling : IsSettling [] 1000 1500 reading
unfolding lookup
reading-IsSettling = record {
  cached = λ n c e. inr (ground arith);
  flying = (inl (omega arith), tt);
}

other_write-seen_example :
    (get_flag [] true 31500 31500 5 (read_steps [] later_reads reading).flags).1 ≡ some fx_flag
unfolding lookup read_step get_all_flags
other_write-seen_example =
    other_write-seen [] 1000 1500 later_reads 31500 31500 5 reading reading-IsSettling
      (omega arith, (inr (omega arith), (inl (omega arith), tt))) (omega arith)

-- A share of 101 % is refused.
too_much :
    validate_flag_config (record fx_flag { percentage = some (pos 101) }) ≡ err internal_error
unfolding validate_flag_config fx_flag
too_much = refl
