-- ===== src/FeatureFlags/InFlight.antt =====
-- Reads of one process that overlap, after another process has written the flags.
use ahjoor_backend.Common.{
  ℕ, zero, suc, ◌+◌, ◌≤◌, ◌<◌, ◌≡◌, refl, ap, subst, ◌∙◌, ◌⊎◌, inl, inr, arith, Bool, true, false,
  Option, none, some, List, [], ◌∷◌, ◌++◌, lookup, lookup-set_key, Option-cases, All,
}
use ahjoor_backend.FeatureFlags.{
  FeatureFlagConfig, CachedFlag, FlagState, cache_ttl_ms, get_all_flags, cache_flag, get_flag,
  FlagReading, answered, fetched, begin_get, end_get,
}
use ahjoor_backend.FeatureFlags.Cache.{overridden, effective}

-- A read that has fetched its flag and not cached it yet.
pub record FlagRead : Type 0 where
  pub name : ℕ
  pub flag : FeatureFlagConfig
  pub begun : ℕ

pub record Reader : Type 0 where
  pub flags : FlagState
  pub in_flight : List FlagRead

-- A read begins, where Redis answers or not, or the read at a place of those in flight ends.
pub data ReadStep : Type 0 where
  begins : Bool → (now name : ℕ) → ReadStep
  ends : (done place : ℕ) → ReadStep

abbrev pub read_at : ℕ → List FlagRead → Option FlagRead
read_at n [] = none
read_at zero (r ∷ rs) = some r
read_at (suc n) (r ∷ rs) = read_at n rs

abbrev pub without_read : ℕ → List FlagRead → List FlagRead
without_read n [] = []
without_read zero (r ∷ rs) = rs
without_read (suc n) (r ∷ rs) = r ∷ without_read n rs

All-read_at :
    (P : FlagRead → Type 0) (n : ℕ) (rs : List FlagRead) {r : FlagRead}
    → All P rs
    → read_at n rs ≡ some r
    → P r
All-read_at P n [] h e = absurd (ground (arith, e))
All-read_at P zero (x ∷ rs) h e = subst P (ground (arith, e)) h.0
All-read_at P (suc n) (x ∷ rs) h e = All-read_at P n rs h.1 e

All-without_read :
    (P : FlagRead → Type 0) (n : ℕ) (rs : List FlagRead) → All P rs → All P (without_read n rs)
All-without_read P n [] h = tt
All-without_read P zero (x ∷ rs) h = h.1
All-without_read P (suc n) (x ∷ rs) h = (h.0, All-without_read P n rs h.1)

All-append :
    (P : FlagRead → Type 0) (r : FlagRead) (rs : List FlagRead)
    → All P rs
    → P r
    → All P (rs ++ r ∷ [])
All-append P r [] h k = (k, tt)
All-append P r (x ∷ rs) h k = (h.0, All-append P r rs h.1 k)

module _ (env : List (ℕ × FeatureFlagConfig)) where
  abbrev pub begun_read : ℕ → ℕ → FlagReading → Reader → Reader
  begun_read now name (answered flag) p = p
  begun_read now name (fetched flag) p = record p {
    in_flight = p.in_flight ++ record { name = name; flag = flag; begun = now } ∷ [];
  }

  abbrev pub ended_read : ℕ → ℕ → Option FlagRead → Reader → Reader
  ended_read done place none p = p
  ended_read done place (some r) p = record {
    flags = (end_get done r.name (fetched r.flag) p.flags).0;
    in_flight = without_read place p.in_flight;
  }

  unfoldable pub read_step : ReadStep → Reader → Reader
  read_step (begins reads now name) p = begun_read now name (begin_get env reads now name p.flags) p
  read_step (ends done place) p = ended_read done place (read_at place p.in_flight) p

  unfoldable pub read_steps : List ReadStep → Reader → Reader
  read_steps [] p = p
  read_steps (c ∷ cs) p = read_steps cs (read_step c p)

  module _ (written finish : ℕ) where
    abbrev pub IsOnTime : ℕ → Option FlagRead → Type 0
    IsOnTime done none = Unit
    IsOnTime done (some r) = (written < r.begun) ⊎ (done ≤ finish)

    -- The reads begin after the write; one that had begun before it ends by `finish`.
    abbrev pub AreOnTime : List ReadStep → Reader → Type 0
    AreOnTime [] p = Unit
    AreOnTime (begins reads now name ∷ cs) p =
        (written < now) × AreOnTime cs (read_step (begins reads now name) p)
    AreOnTime (ends done place ∷ cs) p =
        IsOnTime done (read_at place p.in_flight) × AreOnTime cs (read_step (ends done place) p)

    -- What is cached is the flag that holds, or expires 30 seconds after `finish`; what is in flight is
    -- the flag that holds, or was begun before the write.
    pub record IsSettling (p : Reader) : Type 0 where
      pub cached :
          (name : ℕ) (c : CachedFlag)
          → lookup name p.flags.local_cache ≡ some c
          → (effective env p.flags name ≡ some c.flag) ⊎ (c.expires_at ≤ finish + cache_ttl_ms)
      pub flying :
          All (λ r. (r.begun ≤ written) ⊎ (effective env p.flags r.name ≡ some r.flag)) p.in_flight

    begin_get-effective :
        (reads : Bool) (now name : ℕ) (s : FlagState) {flag : FeatureFlagConfig}
        → begin_get env reads now name s ≡ fetched flag
        → effective env s name ≡ some flag
    unfolding get_all_flags lookup
    begin_get-effective true now name s e = ground (arith, e)
    begin_get-effective false now name s e = ground (arith, e)

    read_step-stored : (c : ReadStep) (p : Reader) → (read_step c p).flags.stored ≡ p.flags.stored
    unfolding read_step cache_flag
    read_step-stored (begins reads now name) p = ground arith
    read_step-stored (ends done place) p = elim (Option-cases (read_at place p.in_flight)) [
      | inl absent ↦ ground (arith, absent)
      | inr (r, at) ↦ ground (arith, at)
    ]

    begins-IsSettling :
        (now name : ℕ) (r : FlagReading) (p : Reader)
        → ((flag : FeatureFlagConfig) → r ≡ fetched flag → effective env p.flags name ≡ some flag)
        → IsSettling p
        → IsSettling (begun_read now name r p)
    begins-IsSettling now name (answered flag) p holds h = h
    begins-IsSettling now name (fetched flag) p holds h = record {
      cached = h.cached;
      flying = All-append _ _ p.in_flight h.flying (inr (holds flag refl));
    }

    ends-IsSettling :
        (done place : ℕ) (o : Option FlagRead) (p : Reader)
        → ((r : FlagRead)
            → o ≡ some r
            → (r.begun ≤ written) ⊎ (effective env p.flags r.name ≡ some r.flag))
        → IsOnTime done o
        → IsSettling p
        → IsSettling (ended_read done place o p)
    unfolding cache_flag
    ends-IsSettling done place none p holds on_time h = h
    ends-IsSettling done place (some r) p holds on_time h = record {
      cached = λ n c k. ground (
        arith,
        holds r refl,
        on_time,
        lookup-set_key n r.name (record { flag = r.flag; expires_at = done + cache_ttl_ms })
            p.flags.local_cache,
        h.cached n c,
      );
      flying = All-without_read _ place p.in_flight h.flying;
    }

    read_step-IsSettling :
        (c : ReadStep) (cs : List ReadStep) (p : Reader)
        → AreOnTime (c ∷ cs) p
        → IsSettling p
        → IsSettling (read_step c p) × AreOnTime cs (read_step c p)
    unfolding read_step
    read_step-IsSettling (begins reads now name) cs p on_time h = (
      begins-IsSettling now name (begin_get env reads now name p.flags) p
          (λ flag e. begin_get-effective reads now name p.flags {flag = flag} e) h,
      on_time.1,
    )
    read_step-IsSettling (ends done place) cs p on_time h = (
      ends-IsSettling done place (read_at place p.in_flight) p
          (λ r e. All-read_at _ place p.in_flight {r = r} h.flying e) on_time.0 h,
      on_time.1,
    )

    get_flag-settled :
        (now done name : ℕ) (p : Reader)
        → IsSettling p
        → finish + cache_ttl_ms ≤ now
        → (get_flag env true now done name p.flags).1 ≡ effective env p.flags name
    unfolding get_flag get_all_flags
    get_flag-settled now done name p h le = elim (Option-cases (lookup name p.flags.local_cache)) [
      | inl e ↦ ground (arith, e)
      | inr (c, e) ↦ ground (arith, e, h.cached name c)
    ]

    -- Another process has written the flags, and none is written after. The reads of this process
    -- that had begun by then end by a time, finish; others begin after the write and end in any
    -- order, whether Redis answers them or not. Then a read that begins 30 seconds after finish
    -- or later, and that Redis answers, gives the flag of the environment if there is one, and
    -- otherwise the flag that was written; each flag that was cached at the write is the one that
    -- holds, or expires by then.
    pub other_write-seen :
        (cs : List ReadStep) (now done name : ℕ) (p : Reader)
        → IsSettling p
        → AreOnTime cs p
        → finish + cache_ttl_ms ≤ now
        → (get_flag env true now done name (read_steps cs p).flags).1 ≡ effective env p.flags name
    unfolding read_steps
    other_write-seen [] now done name p h on_time le = get_flag-settled now done name p h le
    other_write-seen (c ∷ cs) now done name p h on_time le =
        let next = read_step-IsSettling c cs p on_time h in
        other_write-seen cs now done name (read_step c p) next.0 next.1 le
        ∙ ap (λ m. overridden (lookup name env) (lookup name m)) (read_step-stored c p)
