-- ===== src/Scheduler/Retry.antt =====
-- `executeWithRetry` and `withLock` (ahjoorxmr/src/scheduler/scheduler.service.ts and
-- services/distributed-lock.service.ts): a job on a state, which ends with a value or an exception.
use ahjoor_backend.Common.{
  ℕ, zero, suc, ◌+◌, ◌*◌, ◌≤◌, ◌≡◌, arith, ltb, if◌then◌else◌, Bool, Option, none, some,
}
use ahjoor_backend.Scheduler.Lock.{Locks, acquire_lock, release_lock}

abbrev pub max_retries : ℕ
max_retries = 3

abbrev pub base_delay : ℕ
base_delay = 1000

-- `Math.pow(2, n)`.
abbrev pub power_of_two : ℕ → ℕ
power_of_two zero = 1
power_of_two (suc n) = 2 * power_of_two n

module _ {S A : Type 0} (run : S → S × Option A) where
  -- The state, the value if there is one, how often the job ran, and the time slept.
  pub record Tried : Type 0 where
    pub state : S
    pub value : Option A
    pub attempts : ℕ
    pub slept : ℕ

  -- `left` attempts after `done` of them.
  unfoldable pub retry_loop : ℕ → ℕ → ℕ → S → Tried
  retry_loop zero done slept s = record { state = s; value = none; attempts = done; slept = slept }
  retry_loop (suc left) done slept s =
      let delay = if ltb (done + 1) max_retries then base_delay * power_of_two done else 0 in
      let again = retry_loop left (done + 1) (slept + delay) (run s).0 in
      elim (run s).1 [
        | some a ↦ record { state = (run s).0; value = some a; attempts = done + 1; slept = slept }
        | none ↦ again
      ]

  pub execute_with_retry : S → Tried
  unfolding retry_loop
  execute_with_retry s = retry_loop max_retries 0 0 s

  -- The lock is released also after an exception.
  pub with_lock : Bool → ℕ → ℕ → ℕ → Locks × S → (Locks × S) × Option A
  with_lock reachable now name ttl_seconds (locks, s) =
      let acquired = acquire_lock reachable now name ttl_seconds locks in
      if acquired.1
      then ((release_lock reachable name acquired.0, (run s).0), (run s).1)
      else ((acquired.0, s), none)

  -- The job runs three times at most, with sleeps of three seconds at most in all; there is no value only
  -- after three exceptions, and then the state is that of three runs.
  pub execute_with_retry-bounded :
      (s : S)
      → ((execute_with_retry s).attempts ≤ 3)
        × ((execute_with_retry s).slept ≤ 3000)
        × ((execute_with_retry s).value ≡ none
            → ((execute_with_retry s).attempts ≡ 3)
              × ((execute_with_retry s).state ≡ (run (run (run s).0).0).0))
  unfolding execute_with_retry
  execute_with_retry-bounded s = (ground arith, ground arith, λ e. ground arith)
