-- ===== src/Throttler.antt =====
-- ahjoorxmr/src/throttler/redis-throttler-storage.service.ts: the counts of requests in Redis. Keys and
-- members are numbers, times milliseconds of one clock. A key that has expired is one that is not there.
pub mod Sliding
mod Tests
use ahjoor_backend.Common.{
  ℕ, ◌+◌, ◌-◌, ◌/◌, ◌==◌, ltb, leb, if◌then◌else◌, not, ◌&&◌, Bool, true, false, Option, none, some,
  List, [], length, filter_by, Result, ok, err, unavailable, lookup, set_key,
}
use ahjoor_backend.Entities.{is_none}

pub data Algorithm : Type 0 where
  sliding_window fixed_window : Algorithm

-- A sorted set of members with their scores, with the time it expires at.
pub record Window : Type 0 where
  pub members : List (ℕ × ℕ)
  pub expires_at : ℕ

pub record Counter : Type 0 where
  pub hits : ℕ
  pub expires_at : ℕ

-- The keys `throttle:sw:…`, `throttle:fw:…` and `throttle:block:…`; of a block only its end is read.
pub record Storage : Type 0 where
  pub windows : List (ℕ × Window)
  pub counters : List (ℕ × Counter)
  pub blocks : List (ℕ × ℕ)

pub record ThrottlerStorageRecord : Type 0 where
  pub total_hits : ℕ
  pub time_to_expire : ℕ
  pub is_blocked : Bool
  pub time_to_block_expire : ℕ

-- PTTL, none where it is negative.
abbrev pub pttl : ℕ → Option ℕ → Option ℕ
pttl now none = none
pttl now (some expires_at) = if ltb expires_at now then none else some (expires_at - now)

abbrev pub seconds : ℕ → ℕ
seconds ms = (ms + 999) / 1000

abbrev pub members_of : ℕ → Option Window → List (ℕ × ℕ)
members_of now none = []
members_of now (some w) = if ltb w.expires_at now then [] else w.members

abbrev pub is_recent : ℕ → ℕ → ℕ × ℕ → Bool
is_recent now ttl m = ltb now (m.1 + ttl)

unfoldable pub sliding_window_hit : ℕ → ℕ → ℕ → ℕ → Storage → Storage × ℕ × ℕ
sliding_window_hit now member key ttl s =
    let kept = filter_by (is_recent now ttl) (members_of now (lookup key s.windows)) in
    let members = set_key member now kept in
    (
      record s {
        windows = set_key key (record { members = members; expires_at = now + ttl }) s.windows;
      },
      length members,
      ttl,
    )

abbrev pub counter_of : ℕ → ℕ → Option Counter → Counter
counter_of now ttl none = record { hits = 1; expires_at = now + ttl }
counter_of now ttl (some c) =
    if ltb c.expires_at now
    then record { hits = 1; expires_at = now + ttl }
    else record c { hits = c.hits + 1 }

unfoldable pub fixed_window_hit : ℕ → ℕ → ℕ → Storage → Storage × ℕ × ℕ
fixed_window_hit now key ttl s =
    let c = counter_of now ttl (lookup key s.counters) in
    (record s { counters = set_key key c s.counters }, c.hits, c.expires_at - now)

-- BLOCK_LUA: the end of a block that is there stays.
unfoldable pub block : ℕ → ℕ → ℕ → Storage → Storage × ℕ
block now key block_ms s = elim (pttl now (lookup key s.blocks)) [
  | some ms ↦ (s, ms)
  | none ↦ (record s { blocks = set_key key (now + block_ms) s.blocks }, block_ms)
]

abbrev pub is_positive : Option ℕ → Bool
is_positive none = false
is_positive (some n) = ltb 0 n

abbrev pub or_zero : Option ℕ → ℕ
or_zero none = 0
or_zero (some n) = n

-- The record of a request that was counted.
unfoldable pub answer : ℕ → ℕ → Bool → ℕ → ThrottlerStorageRecord
answer hits expire_ms blocked block_ms = record {
  total_hits = hits;
  time_to_expire = seconds expire_ms;
  is_blocked = blocked;
  time_to_block_expire =
      if not blocked
      then 0
      else if seconds block_ms == 0
      then seconds expire_ms
      else seconds block_ms;
}

unfoldable pub count_hit : Algorithm → ℕ → ℕ → ℕ → ℕ → Storage → Storage × ℕ × ℕ
unfolding sliding_window_hit fixed_window_hit
count_hit sliding_window now member key ttl s = sliding_window_hit now member key ttl s
count_hit fixed_window now member key ttl s = fixed_window_hit now key ttl s

-- `increment`; `member` is the new member of the sorted set, `reachable` whether Redis answers; the 503 has no
-- `retryAfter`, which is the 0.
unfoldable pub increment :
    Algorithm → Bool → ℕ → ℕ → ℕ → ℕ → ℕ → ℕ → Storage → Result (Storage × ThrottlerStorageRecord)
unfolding count_hit block answer
increment algorithm reachable now member key ttl limit block_duration s =
    let existing = pttl now (lookup key s.blocks) in
    let hit = count_hit algorithm now member key ttl s in
    let over = ltb limit hit.1 in
    let blocked = block now key block_duration hit.0 in
    let ends = seconds (or_zero existing) in
    if not reachable
    then err (unavailable 0)
    else if is_positive existing
    then ok (
      s,
      record {
        total_hits = limit + 1;
        time_to_expire = ends;
        is_blocked = true;
        time_to_block_expire = ends;
      },
    )
    else if over && ltb 0 block_duration
    then ok (blocked.0, answer hit.1 hit.2 true blocked.1)
    else ok (hit.0, answer hit.1 hit.2 over 0)
