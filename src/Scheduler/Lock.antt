-- ===== src/Scheduler/Lock.antt =====
-- ahjoorxmr/src/scheduler/services/distributed-lock.service.ts: a key of Redis for each lock, with the
-- time at which it expires. RedisService logs its errors: a call that fails writes or reads nothing.
use ahjoor_backend.Common.{
  ℕ, ◌+◌, ◌*◌, ◌<◌, ◌≡◌, arith, ltb, if◌then◌else◌, Bool, true, false, Option, none, some, List,
  lookup, set_key, delete_key, lookup-set_key, lookup-delete_key, ==_refl,
}

abbrev pub Locks : Type 0
Locks = List (ℕ × ℕ)

abbrev pub is_held_at : ℕ → Option ℕ → Bool
is_held_at now none = false
is_held_at now (some expires_at) = ltb now expires_at

-- `exists`.
abbrev pub is_held : ℕ → ℕ → Locks → Bool
is_held now name locks = is_held_at now (lookup name locks)

-- SET with EX, and no NX: a lock that another process holds is overwritten. Milliseconds.
pub acquire_lock : Bool → ℕ → ℕ → ℕ → Locks → Locks × Bool
acquire_lock reachable now name ttl_seconds locks =
    let held = set_key name (now + ttl_seconds * 1000) locks in
    if reachable then (held, is_held now name held) else (locks, false)

pub release_lock : Bool → ℕ → Locks → Locks
release_lock reachable name locks = if reachable then delete_key name locks else locks

-- Where Redis answers and the time to live is not 0, acquireLock gives the lock to whoever asks, also
-- while another process holds it.
pub acquire_lock-always :
    (now later name ttl_seconds ttl' : ℕ) (locks : Locks)
    → 0 < ttl_seconds
    → 0 < ttl'
    → let first = acquire_lock true now name ttl_seconds locks in
      (first.1 ≡ true) × ((acquire_lock true later name ttl' first.0).1 ≡ true)
unfolding acquire_lock
acquire_lock-always now later name ttl_seconds ttl' locks p q =
    let held = set_key name (now + ttl_seconds * 1000) locks in
    (
      ground (arith, lookup-set_key name name (now + ttl_seconds * 1000) locks, ==_refl name),
      ground (arith, lookup-set_key name name (later + ttl' * 1000) held, ==_refl name),
    )

-- The first process that ends releases the lock of the other one.
pub release_lock-others :
    (later name : ℕ) (locks : Locks) → is_held later name (release_lock true name locks) ≡ false
unfolding release_lock
release_lock-others later name locks =
    ground (arith, lookup-delete_key name name locks, ==_refl name)
