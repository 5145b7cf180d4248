-- ===== src/FeatureFlags.antt =====
-- ahjoorxmr/src/feature-flags/services/feature-flag.service.ts: the flags in Redis, their cache in the
-- process, and what a flag answers for a user. Names, users and texts are numbers, times milliseconds;
-- the user id is none where a request gives none or an empty one. FEATURE_FLAGS is the list of its
-- entries, empty where it is not set or no JSON. A call of Redis that fails is logged and reads nothing.
pub mod Rollout
pub mod Cache
pub mod InFlight
pub mod Outage
mod Tests
use ahjoor_backend.Common.{
  ℕ, ◌+◌, ◌*◌, ◌%◌, ◌==◌, ltb, leb, if◌then◌else◌, not, ◌&&◌, ◌||◌, Bool, true, false, Option, none,
  some, List, [], ◌∷◌, Result, ok, err, not_found, internal_error, ◌>>=◌, ◌>>◌, throw_if, lookup,
  set_key, delete_key,
}
use ahjoor_backend.Stellar.{or_else}
use ahjoor_backend.Entities.{is_some, is_none}

pub data TargetingStrategy : Type 0 where
  enabled_for_all enabled_for_percentage enabled_for_users enabled_for_roles : TargetingStrategy
  disabled : TargetingStrategy

pub data UserRole : Type 0 where
  admin user moderator : UserRole

-- A percentage as it is sent: `negsuc n` is -(n + 1).
pub data ℤ : Type 0 where
  pos negsuc : ℕ → ℤ

pub record FeatureFlagConfig : Type 0 where
  pub name : ℕ
  pub description : Option ℕ
  pub enabled : Bool
  pub strategy : TargetingStrategy
  pub percentage : Option ℤ
  pub user_ids : Option (List ℕ)
  pub roles : Option (List UserRole)
  pub created_at : Option ℕ
  pub updated_at : Option ℕ

-- `Partial<FeatureFlagConfig>`, without the fields that are not read.
pub record FlagChange : Type 0 where
  pub description : Option ℕ
  pub enabled : Option Bool
  pub strategy : Option TargetingStrategy
  pub percentage : Option ℤ
  pub user_ids : Option (List ℕ)
  pub roles : Option (List UserRole)

pub record CachedFlag : Type 0 where
  pub flag : FeatureFlagConfig
  pub expires_at : ℕ

pub record FlagState : Type 0 where
  pub stored : List (ℕ × FeatureFlagConfig)
  pub local_cache : List (ℕ × CachedFlag)

abbrev pub cache_ttl_ms : ℕ
cache_ttl_ms = 30 * 1000

unfoldable pub get_all_flags : Bool → FlagState → List (ℕ × FeatureFlagConfig)
get_all_flags reads s = if reads then s.stored else []

pub cache_flag : ℕ → ℕ → FeatureFlagConfig → FlagState → FlagState
cache_flag now name flag s = record s {
  local_cache =
      set_key name (record { flag = flag; expires_at = now + cache_ttl_ms }) s.local_cache;
}

abbrev pub live : ℕ → Option CachedFlag → Option FeatureFlagConfig
live now none = none
live now (some c) = if ltb now c.expires_at then some c.flag else none

-- How far `getFlag` comes before it waits: it has its answer, or a flag to cache.
pub data FlagReading : Type 0 where
  answered : Option FeatureFlagConfig → FlagReading
  fetched : FeatureFlagConfig → FlagReading

-- The flag is looked for in the cache, in the environment and in Redis.
abbrev pub begin_get : List (ℕ × FeatureFlagConfig) → Bool → ℕ → ℕ → FlagState → FlagReading
begin_get env reads now name s = elim (live now (lookup name s.local_cache)) [
  | some flag ↦ answered (some flag)
  | none ↦ elim (lookup name env) [
    | some flag ↦ fetched flag
    | none ↦ elim (lookup name (get_all_flags reads s)) [
      | some flag ↦ fetched flag
      | none ↦ answered none
    ]
  ]
]

-- The rest of `getFlag`, after the wait for Redis, where other calls may have run in between. The flag of
-- the environment is cached at once: its end follows directly.
abbrev pub end_get : ℕ → ℕ → FlagReading → FlagState → FlagState × Option FeatureFlagConfig
end_get done name (answered flag) s = (s, flag)
end_get done name (fetched flag) s = (cache_flag done name flag s, some flag)

-- `getFlag` with nothing in between; `done` is the time after its reads.
pub get_flag :
    List (ℕ × FeatureFlagConfig)
    → Bool
    → ℕ
    → ℕ
    → ℕ
    → FlagState
    → FlagState × Option FeatureFlagConfig
unfolding get_all_flags cache_flag
get_flag env reads now done name s = end_get done name (begin_get env reads now name s) s

abbrev pub is_share : Option ℤ → Bool
is_share none = false
is_share (some (negsuc n)) = false
is_share (some (pos n)) = leb n 100

abbrev pub is_filled {ℓ} : {A : Type ℓ} → Option (List A) → Bool
is_filled none = false
is_filled (some []) = false
is_filled (some (x ∷ xs)) = true

pub validate_flag_config : FeatureFlagConfig → Result (Unit {0})
validate_flag_config flag = elim flag.strategy [
  | enabled_for_percentage ↦ throw_if (not (is_share flag.percentage)) internal_error
  | enabled_for_users ↦ throw_if (not (is_filled flag.user_ids)) internal_error
  | enabled_for_roles ↦ throw_if (not (is_filled flag.roles)) internal_error
  | enabled_for_all ↦ ok tt
  | disabled ↦ ok tt
]

abbrev pub created_at_of : Option FeatureFlagConfig → Option ℕ
created_at_of none = none
created_at_of (some flag) = flag.created_at

pub changed_flag : ℕ → ℕ → FlagChange → Option FeatureFlagConfig → FeatureFlagConfig
changed_flag now name config existing = record {
  name = name;
  description = config.description;
  enabled = or_else config.enabled true;
  strategy = or_else config.strategy disabled;
  percentage = config.percentage;
  user_ids = config.user_ids;
  roles = config.roles;
  created_at = some (or_else (created_at_of existing) now);
  updated_at = some now;
}

-- The whole object of flags is read, changed and written back.
pub set_flag : Bool → Bool → ℕ → ℕ → FlagChange → FlagState → Result (FlagState × FeatureFlagConfig)
unfolding get_all_flags validate_flag_config changed_flag
set_flag reads writes now name config s = do
  let all_flags = get_all_flags reads s
  let flag = changed_flag now name config (lookup name all_flags)
  validate_flag_config flag
  ok (
    record {
      stored = if writes then set_key name flag all_flags else s.stored;
      local_cache = delete_key name s.local_cache;
    },
    flag,
  )

pub delete_flag : Bool → Bool → ℕ → FlagState → Result FlagState
unfolding get_all_flags
delete_flag reads writes name s = do
  let all_flags = get_all_flags reads s
  throw_if (is_none (lookup name all_flags)) not_found
  ok (record {
    stored = if writes then delete_key name all_flags else s.stored;
    local_cache = delete_key name s.local_cache;
  })

abbrev pub clear_cache : FlagState → FlagState
clear_cache s = record s { local_cache = [] }

abbrev pub change_of : FeatureFlagConfig → FlagChange
change_of flag = record {
  description = flag.description;
  enabled = some flag.enabled;
  strategy = some flag.strategy;
  percentage = flag.percentage;
  user_ids = flag.user_ids;
  roles = flag.roles;
}

-- The flags of the environment are stored one by one; the first that is not valid ends the loop.
pub initialize_from_env : Bool → Bool → ℕ → List (ℕ × FeatureFlagConfig) → FlagState → FlagState
unfolding set_flag
initialize_from_env reads writes now [] s = s
initialize_from_env reads writes now (e ∷ env) s =
    elim (set_flag reads writes now e.0 (change_of e.1) s) [
      | err x ↦ s
      | ok r ↦ initialize_from_env reads writes now env r.0
    ]
