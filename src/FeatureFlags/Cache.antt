-- ===== src/FeatureFlags/Cache.antt =====
-- The cached flags of one process against flags without a cache.
use mathlib.Core.Path.{fun_ext}
use ahjoor_backend.Common.{
  ℕ, ◌+◌, ◌≡◌, refl, sym, ap, subst, ◌⊎◌, inl, inr, arith, ◌==◌, if◌then◌else◌, Bool, true, Option,
  none, some, List, [], ◌∷◌, Result, ok, err, not_found, lookup, lookup-set_key, lookup-delete_key,
  Option-cases,
}
use ahjoor_backend.Entities.{is_none}
use ahjoor_backend.FeatureFlags.{
  FeatureFlagConfig, FlagChange, CachedFlag, FlagState, cache_ttl_ms, get_all_flags, cache_flag,
  live, get_flag, validate_flag_config, changed_flag, set_flag, delete_flag, clear_cache,
}

-- The calls of one process, each done before the next; Redis answers, and no other process writes.
pub data FlagCall : Type 0 where
  gets : ℕ → ℕ → ℕ → FlagCall
  sets : ℕ → ℕ → FlagChange → FlagCall
  deletes : ℕ → FlagCall
  clears : FlagCall

pub data FlagAnswer : Type 0 where
  found : Option FeatureFlagConfig → FlagAnswer
  saved : Result FeatureFlagConfig → FlagAnswer
  deleted : Result (Unit {0}) → FlagAnswer
  cleared : FlagAnswer

-- The environment goes before Redis.
abbrev pub overridden :
    Option FeatureFlagConfig → Option FeatureFlagConfig → Option FeatureFlagConfig
overridden (some flag) stored = some flag
overridden none stored = stored

abbrev pub FlagMap : Type 0
FlagMap = ℕ → Option FeatureFlagConfig

module _ (env : List (ℕ × FeatureFlagConfig)) where
  pub answer_call : FlagCall → FlagState → FlagState × FlagAnswer
  answer_call (gets now done name) s = let r = get_flag env true now done name s in (r.0, found r.1)
  answer_call (sets now name config) s = elim (set_flag true true now name config s) [
    | err x ↦ (s, saved (err x))
    | ok r ↦ (r.0, saved (ok r.1))
  ]
  answer_call (deletes name) s = elim (delete_flag true true name s) [
    | err x ↦ (s, deleted (err x))
    | ok s' ↦ (s', deleted (ok tt))
  ]
  answer_call clears s = (clear_cache s, cleared)

  pub answer_calls : List FlagCall → FlagState → List FlagAnswer
  unfolding answer_call
  answer_calls [] s = []
  answer_calls (c ∷ cs) s = (answer_call c s).1 ∷ answer_calls cs (answer_call c s).0

  -- The same calls on a function from names to flags, with no cache.
  pub replay_call : FlagCall → FlagMap → FlagMap × FlagAnswer
  replay_call (gets now done name) f = (f, found (overridden (lookup name env) (f name)))
  replay_call (sets now name config) f =
      let flag = changed_flag now name config (f name) in
      elim (validate_flag_config flag) [
        | err x ↦ (f, saved (err x))
        | ok u ↦ ((λ n. if name == n then some flag else f n), saved (ok flag))
      ]
  replay_call (deletes name) f =
      if is_none (f name)
      then (f, deleted (err not_found))
      else ((λ n. if name == n then none else f n), deleted (ok tt))
  replay_call clears f = (f, cleared)

  pub replay_calls : List FlagCall → FlagMap → List FlagAnswer
  unfolding replay_call
  replay_calls [] f = []
  replay_calls (c ∷ cs) f = (replay_call c f).1 ∷ replay_calls cs (replay_call c f).0

  abbrev pub effective : FlagState → FlagMap
  effective s name = overridden (lookup name env) (lookup name s.stored)

  -- What is cached is the flag that holds.
  abbrev pub IsCoherent : FlagState → Type 0
  IsCoherent s =
      (name : ℕ) (c : CachedFlag)
      → lookup name s.local_cache ≡ some c
      → effective s name ≡ some c.flag

  get_flag-effective :
      (now done name : ℕ) (s : FlagState)
      → IsCoherent s
      → (get_flag env true now done name s).1 ≡ effective s name
  unfolding get_flag get_all_flags
  get_flag-effective now done name s h = elim (Option-cases (lookup name s.local_cache)) [
    | inl e ↦ ground (arith, e)
    | inr (c, e) ↦ ground (arith, e, h name c)
  ]

  get_flag-stored :
      (reads : Bool) (now done name : ℕ) (s : FlagState)
      → (get_flag env reads now done name s).0.stored ≡ s.stored
  unfolding get_flag cache_flag
  get_flag-stored reads now done name s = ground arith

  -- A read changes nothing, or it caches the flag that holds.
  get_flag-state :
      (now done name : ℕ) (s : FlagState)
      → ((get_flag env true now done name s).0 ≡ s)
        ⊎ ((flag : FeatureFlagConfig) × (effective s name ≡ some flag)
            × ((get_flag env true now done name s).0 ≡ cache_flag done name flag s))
  unfolding get_flag get_all_flags
  get_flag-state now done name s = elim (Option-cases (live now (lookup name s.local_cache))) [
    | inr (f, e) ↦ inl (ground (arith, e))
    | inl e ↦ elim (Option-cases (lookup name env)) [
      | inr (f, g) ↦ inr (f, ground (arith, g), ground (arith, e, g))
      | inl g ↦ elim (Option-cases (lookup name s.stored)) [
        | inr (f, k) ↦ inr (f, ground (arith, g, k), ground (arith, e, g, k))
        | inl k ↦ inl (ground (arith, e, g, k))
      ]
    ]
  ]

  get_flag-IsCoherent :
      (now done name : ℕ) (s : FlagState)
      → IsCoherent s
      → IsCoherent (get_flag env true now done name s).0
  unfolding cache_flag
  get_flag-IsCoherent now done name s h = elim (get_flag-state now done name s) [
    | inl e ↦ subst IsCoherent (sym e) h
    | inr (f, e, g) ↦ subst IsCoherent (sym g) (λ n c k. ground (
      arith,
      lookup-set_key n name (record { flag = f; expires_at = done + cache_ttl_ms }) s.local_cache,
      h n c,
    ))
  ]

  answer_call-IsCoherent :
      (c : FlagCall) (s : FlagState) → IsCoherent s → IsCoherent (answer_call c s).0
  unfolding lookup answer_call set_flag get_all_flags delete_flag
  answer_call-IsCoherent (gets now done name) s h = get_flag-IsCoherent now done name s h
  answer_call-IsCoherent (sets now name config) s h = λ n c e. ground (
    arith,
    h n c,
    lookup-delete_key n name s.local_cache,
    lookup-set_key n name (changed_flag now name config (lookup name s.stored)) s.stored,
  )
  answer_call-IsCoherent (deletes name) s h = λ n c e.
      ground
        (arith, h n c, lookup-delete_key n name s.local_cache, lookup-delete_key n name s.stored)
  answer_call-IsCoherent clears s h = λ n c e. absurd (ground arith)

  answer_call-answer :
      (c : FlagCall) (s : FlagState)
      → IsCoherent s
      → (answer_call c s).1 ≡ (replay_call c (λ n. lookup n s.stored)).1
  unfolding answer_call replay_call set_flag get_all_flags delete_flag
  answer_call-answer (gets now done name) s h = ap found (get_flag-effective now done name s h)
  answer_call-answer (sets now name config) s h = ground arith
  answer_call-answer (deletes name) s h = ground arith
  answer_call-answer clears s h = refl

  answer_call-stored :
      (c : FlagCall) (s : FlagState) (n : ℕ)
      → lookup n (answer_call c s).0.stored ≡ (replay_call c (λ n. lookup n s.stored)).0 n
  unfolding answer_call replay_call set_flag get_all_flags delete_flag
  answer_call-stored (gets now done name) s n =
      ap (λ m. lookup n m) (get_flag-stored true now done name s)
  answer_call-stored (sets now name config) s n =
      ground (
        arith,
        lookup-set_key n name (changed_flag now name config (lookup name s.stored)) s.stored,
      )
  answer_call-stored (deletes name) s n = ground (arith, lookup-delete_key n name s.stored)
  answer_call-stored clears s n = refl

  -- As long as Redis answers and no other process writes the flags, the answers to any calls that
  -- one process makes, each done before the next begins, are those of a store of flags with no
  -- cache, with the flags of the environment before those of the store, if what is cached at
  -- first is the flag that holds.
  pub answer_calls_refines :
      (cs : List FlagCall) (s : FlagState)
      → IsCoherent s
      → answer_calls cs s ≡ replay_calls cs (λ n. lookup n s.stored)
  unfolding answer_calls replay_calls
  answer_calls_refines [] s h = refl
  answer_calls_refines (c ∷ cs) s h =
      let rest = answer_calls_refines cs (answer_call c s).0 (answer_call-IsCoherent c s h) in
      let same = fun_ext (answer_call-stored c s) in rw (answer_call-answer c s h, rest, same) refl
