-- ===== src/FeatureFlags/Rollout.antt =====
-- `evaluate`, `isEnabled` and `isInPercentage`: what a flag answers for a user.
use ahjoor_backend.Common.{
  ℕ, ◌+◌, ◌%◌, ◌≤◌, ◌≡◌, arith, leb, if◌then◌else◌, ◌||◌, Bool, true, false, Option, none, some,
  List, [], ◌∷◌, includes,
}
use ahjoor_backend.FeatureFlags.{
  TargetingStrategy, enabled_for_all, enabled_for_percentage, enabled_for_users, enabled_for_roles,
  disabled, UserRole, admin, user, moderator, ℤ, pos, negsuc, FeatureFlagConfig, FlagState,
  get_flag,
}

-- The reasons of an evaluation, without the figures in their texts.
pub data Reason : Type 0 where
  flag_not_found flag_disabled for_all user_required role_required : Reason
  in_rollout not_in_rollout user_in_allowlist user_not_in_allowlist : Reason
  role_in_allowlist role_not_in_allowlist : Reason

pub record FeatureFlagEvaluation : Type 0 where
  pub enabled : Bool
  pub strategy : TargetingStrategy
  pub reason : Reason

abbrev pub same_role : UserRole → UserRole → Bool
same_role admin admin = true
same_role user user = true
same_role moderator moderator = true
same_role _ _ = false

abbrev pub includes_role : UserRole → List UserRole → Bool
includes_role x [] = false
includes_role x (y ∷ ys) = same_role y x || includes_role x ys

-- The first 32 bits of the MD5 of `${flagName}:${userId}` come from node's crypto: a parameter.
module _ (hash_value : ℕ → ℕ → ℕ) where
  -- A missing percentage is 0.
  unfoldable pub is_in_percentage : ℕ → ℕ → Option ℤ → Bool
  is_in_percentage user_id flag_name none = false
  is_in_percentage user_id flag_name (some (negsuc n)) = false
  is_in_percentage user_id flag_name (some (pos p)) =
      if leb p 0
      then false
      else if leb 100 p
      then true
      else leb (hash_value flag_name user_id % 100 + 1) p

  unfoldable pub answer : TargetingStrategy → Bool → Reason → Reason → FeatureFlagEvaluation
  answer strategy on yes_reason no_reason = record {
    enabled = on;
    strategy = strategy;
    reason = if on then yes_reason else no_reason;
  }

  unfoldable pub evaluate_flag :
      ℕ → Option ℕ → Option UserRole → Option FeatureFlagConfig → FeatureFlagEvaluation
  unfolding is_in_percentage answer
  evaluate_flag name user_id role none = record {
    enabled = false;
    strategy = disabled;
    reason = flag_not_found;
  }
  evaluate_flag name user_id role (some flag) =
      if flag.enabled
      then elim flag.strategy [
        | enabled_for_all ↦ record { enabled = true; strategy = enabled_for_all; reason = for_all }
        | enabled_for_percentage ↦ elim user_id [
          | none ↦ record {
            enabled = false;
            strategy = enabled_for_percentage;
            reason = user_required;
          }
          | some u ↦
              answer enabled_for_percentage (is_in_percentage u name flag.percentage) in_rollout
                not_in_rollout
        ]
        | enabled_for_users ↦ elim user_id [
          | none ↦ record { enabled = false; strategy = enabled_for_users; reason = user_required }
          | some u ↦
              answer enabled_for_users
                (elim flag.user_ids [ none ↦ false | some us ↦ includes u us ]) user_in_allowlist
                user_not_in_allowlist
        ]
        | enabled_for_roles ↦ elim role [
          | none ↦ record { enabled = false; strategy = enabled_for_roles; reason = role_required }
          | some r ↦
              answer enabled_for_roles
                (elim flag.roles [ none ↦ false | some rs ↦ includes_role r rs ]) role_in_allowlist
                role_not_in_allowlist
        ]
        | disabled ↦ record { enabled = false; strategy = disabled; reason = flag_disabled }
      ]
      else record { enabled = false; strategy = flag.strategy; reason = flag_disabled }

  pub evaluate :
      List (ℕ × FeatureFlagConfig)
      → Bool
      → ℕ
      → ℕ
      → ℕ
      → Option ℕ
      → Option UserRole
      → FlagState
      → FlagState × FeatureFlagEvaluation
  unfolding evaluate_flag
  evaluate env reads now done name user_id role s =
      let r = get_flag env reads now done name s in (r.0, evaluate_flag name user_id role r.1)

  pub is_enabled :
      List (ℕ × FeatureFlagConfig)
      → Bool
      → ℕ
      → ℕ
      → ℕ
      → Option ℕ
      → Option UserRole
      → FlagState
      → FlagState × Bool
  unfolding evaluate
  is_enabled env reads now done name user_id role s =
      let r = evaluate env reads now done name user_id role s in (r.0, (r.1).enabled)

  -- Raising the percentage of a rollout keeps every user in it.
  pub rollout_grows :
      (name : ℕ) (user_id : Option ℕ) (role : Option UserRole) (flag : FeatureFlagConfig) (p q : ℕ)
      → flag.strategy ≡ enabled_for_percentage
      → p ≤ q
      → (evaluate_flag name user_id role (some (record flag { percentage = some (pos p) }))).enabled
        ≡ true
      → (evaluate_flag name user_id role (some (record flag { percentage = some (pos q) }))).enabled
        ≡ true
  unfolding evaluate_flag is_in_percentage
  rollout_grows name user_id role flag p q e le on = ground arith
