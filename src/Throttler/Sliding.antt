-- ===== src/Throttler/Sliding.antt =====
-- What the sliding window admits: runs of requests for any keys, at times that do not run backwards.
use ahjoor_backend.Common.{
  ℕ, ◌+◌, ◌≤◌, ◌≡◌, refl, ap, sym, subst, ◌⊎◌, inl, inr, arith, ◌==◌, ltb, if◌then◌else◌, not, ◌&&◌,
  Bool, true, false, none, List, [], ◌∷◌, length, count_by, filter_by, ok, lookup, set_key,
  lookup-set_key, Bool-cases, Option-cases, ==_refl, All,
}
use ahjoor_backend.Throttler.{
  Storage, Window, ThrottlerStorageRecord, sliding_window, is_recent, members_of,
  sliding_window_hit, count_hit, block, answer, increment, pttl,
}

pub record Limit : Type 0 where
  pub ttl : ℕ
  pub limit : ℕ
  pub block_duration : ℕ

abbrev pub window_members : ℕ → ℕ → Storage → List (ℕ × ℕ)
window_members now key s = members_of now (lookup key s.windows)

-- The requests of a key that were let through, with their members and times.
abbrev pub log_request : ℕ → ℕ → ℕ → ℕ → ThrottlerStorageRecord → List (ℕ × ℕ) → List (ℕ × ℕ)
log_request key k member now r log =
    if k == key && not r.is_blocked then (member, now) ∷ log else log

-- A run: the storage after some requests, the log of one key, and the time. A member is not yet in the
-- window that it is added to.
module _ (limits : ℕ → Limit) (key : ℕ) where
  pub data Requests : List (ℕ × ℕ) → Storage → ℕ → Type 0 where
    no_requests : Requests [] (record { windows = []; counters = []; blocks = [] }) 0
    request :
        (log : List (ℕ × ℕ)) (s s' : Storage) (time now member k : ℕ) (r : ThrottlerStorageRecord)
        → Requests log s time
        → time ≤ now
        → lookup member (window_members now k s) ≡ none
        → increment sliding_window true now member k
            (limits k).ttl
            (limits k).limit
            (limits k).block_duration
            s
          ≡ ok (s', r)
        → Requests (log_request key k member now r log) s' now

count-recent-filter :
    (now time ttl : ℕ) (ms : List (ℕ × ℕ))
    → now ≤ time
    → count_by (is_recent time ttl) (filter_by (is_recent now ttl) ms)
      ≡ count_by (is_recent time ttl) ms
unfolding count_by filter_by
count-recent-filter now time ttl [] le = refl
count-recent-filter now time ttl (m ∷ ms) le =
    ground (arith, count-recent-filter now time ttl ms le)

lookup-filter :
    (p : ℕ × ℕ → Bool) (member : ℕ) (ms : List (ℕ × ℕ))
    → lookup member ms ≡ none
    → lookup member (filter_by p ms) ≡ none
unfolding lookup filter_by
lookup-filter p member [] e = refl
lookup-filter p member (m ∷ ms) e = ground (arith, lookup-filter p member ms)

count-set_new :
    (p : ℕ × ℕ → Bool) (member now : ℕ) (ms : List (ℕ × ℕ))
    → lookup member ms ≡ none
    → count_by p (set_key member now ms) ≡ count_by p ms + (if p (member, now) then 1 else 0)
unfolding count_by lookup set_key
count-set_new p member now [] e = ground arith
count-set_new p member now (m ∷ ms) e = ground (arith, count-set_new p member now ms)

count-length : (p : ℕ × ℕ → Bool) (ms : List (ℕ × ℕ)) → count_by p ms ≤ length ms
unfolding count_by
count-length p [] = omega arith
count-length p (m ∷ ms) = ground (arith, count-length p ms)

-- The members of the window of a key, after a request for it was counted.
abbrev pub counted_members : ℕ → ℕ → ℕ → ℕ → Storage → List (ℕ × ℕ)
counted_members now member key ttl s =
    set_key member now (filter_by (is_recent now ttl) (window_members now key s))

-- A request leaves the windows as they are, and is refused, or it is counted, and refused over the limit.
increment-cases :
    (now member key ttl limit block_duration : ℕ) (s s' : Storage) (r : ThrottlerStorageRecord)
    → increment sliding_window true now member key ttl limit block_duration s ≡ ok (s', r)
    → ((s'.windows ≡ s.windows) × (r.is_blocked ≡ true))
      ⊎ ((s'.windows ≡ (sliding_window_hit now member key ttl s).0.windows)
          × (r.is_blocked ≡ ltb limit (length (counted_members now member key ttl s))))
unfolding increment count_hit block answer sliding_window_hit
increment-cases now member key ttl limit block_duration s s' r e =
    elim (Option-cases (pttl now (lookup key s.blocks))) [
      | inl free ↦ inr (ground (arith, e, free))
      | inr (ms, held) ↦ ground (arith, e, held)
    ]

window_members-later :
    (p : ℕ × ℕ → Bool) (now time key : ℕ) (s : Storage)
    → now ≤ time
    → count_by p (window_members time key s) ≤ count_by p (window_members now key s)
unfolding count_by
window_members-later p now time key s le = elim (Option-cases (lookup key s.windows)) [
  | inl absent ↦ ground (arith, absent)
  | inr (w, at) ↦ ground (arith, at)
]

count-counted :
    (now member key ttl time : ℕ) (s : Storage)
    → now ≤ time
    → lookup member (window_members now key s) ≡ none
    → count_by (is_recent time ttl) (counted_members now member key ttl s)
      ≡ count_by (is_recent time ttl) (window_members now key s)
        + (if ltb time (now + ttl) then 1 else 0)
count-counted now member key ttl time s le fresh =
    let ms = window_members now key s in
    rw
      (
        count-set_new (is_recent time ttl) member now (filter_by (is_recent now ttl) ms)
            (lookup-filter (is_recent now ttl) member ms fresh),
        count-recent-filter now time ttl ms le,
      )
      refl

count-after_hit :
    (now member key ttl time : ℕ) (s : Storage)
    → now ≤ time
    → lookup member (window_members now key s) ≡ none
    → count_by
        (is_recent time ttl)
        (window_members time key (sliding_window_hit now member key ttl s).0)
      ≡ (if ltb (now + ttl) time
          then 0
          else count_by (is_recent time ttl) (window_members now key s)
            + (if ltb time (now + ttl) then 1 else 0))
unfolding sliding_window_hit count_by
count-after_hit now member key ttl time s le fresh =
    let kept = filter_by (is_recent now ttl) (window_members now key s) in
    let w : Window = record { members = set_key member now kept; expires_at = now + ttl } in
    let at = lookup-set_key key key w s.windows in
    let more = count-counted now member key ttl time s le fresh in
    rw (at, ==_refl key) (ground (arith, more))

window_members-other :
    (now member key k ttl time : ℕ) (s : Storage)
    → k == key ≡ false
    → window_members time key (sliding_window_hit now member k ttl s).0 ≡ window_members time key s
unfolding sliding_window_hit
window_members-other now member key k ttl time s other =
    let kept = filter_by (is_recent now ttl) (window_members now k s) in
    let w : Window = record { members = set_key member now kept; expires_at = now + ttl } in
    rw (lookup-set_key key k w s.windows, other) refl

-- The log of a key against its window: it has no more recent requests than the window, nor than the limit.
pub record IsLogged (l : Limit) (key : ℕ) (log : List (ℕ × ℕ)) (s : Storage) (time : ℕ)
    : Type 0 where
  pub past : All (λ m. m.1 ≤ time) log
  pub held :
      (t : ℕ)
      → time ≤ t
      → count_by (is_recent t l.ttl) log ≤ count_by (is_recent t l.ttl) (window_members t key s)
  pub bounded : (t : ℕ) → time ≤ t → count_by (is_recent t l.ttl) log ≤ l.limit

past-later :
    (time now : ℕ) (log : List (ℕ × ℕ))
    → time ≤ now
    → All (λ m. m.1 ≤ time) log
    → All (λ m. m.1 ≤ now) log
past-later time now [] le h = tt
past-later time now (m ∷ log) le h = (omega (arith, h.0), past-later time now log le h.1)

past-none_recent :
    (time t ttl : ℕ) (log : List (ℕ × ℕ))
    → time + ttl ≤ t
    → All (λ m. m.1 ≤ time) log
    → count_by (is_recent t ttl) log ≡ 0
unfolding count_by
past-none_recent time t ttl [] le h = refl
past-none_recent time t ttl (m ∷ log) le h =
    ground (arith, h.0, past-none_recent time t ttl log le h.1)

IsLogged-refused :
    (l : Limit) (key : ℕ) (log : List (ℕ × ℕ)) (s s' : Storage) (time now : ℕ)
    → time ≤ now
    → IsLogged l key log s time
    → ((t : ℕ)
        → now ≤ t
        → count_by (is_recent t l.ttl) log ≤ count_by (is_recent t l.ttl) (window_members t key s'))
    → IsLogged l key log s' now
IsLogged-refused l key log s s' time now le h kept = record {
  past = past-later time now log le h.past;
  held = kept;
  bounded = λ t later. h.bounded t (omega (arith, le, later));
}

-- A counted request of the key, whether it is let through or not.
held-counted :
    (l : Limit) (key member : ℕ) (log : List (ℕ × ℕ)) (s s' : Storage) (time now t : ℕ)
    → time ≤ now
    → now ≤ t
    → IsLogged l key log s time
    → lookup member (window_members now key s) ≡ none
    → s'.windows ≡ (sliding_window_hit now member key l.ttl s).0.windows
    → count_by (is_recent t l.ttl) ((member, now) ∷ log)
      ≤ count_by (is_recent t l.ttl) (window_members t key s')
unfolding count_by
held-counted l key member log s s' time now t le later h fresh same =
    let after = count-after_hit now member key l.ttl t s later fresh in
    let here = ap (λ ws. count_by (is_recent t l.ttl) (members_of t (lookup key ws))) same in
    let before = h.held t (omega arith) in
    let wider = window_members-later (is_recent t l.ttl) now t key s later in
    let old = past-none_recent time t l.ttl log in
    elim (Bool-cases (ltb (now + l.ttl) t)) [
      | inl expired ↦ ground (arith, after, here, old (ground arith) h.past)
      | inr lasting ↦ ground (arith, after, here, before, wider)
    ]

bounded-counted :
    (l : Limit) (key member : ℕ) (log : List (ℕ × ℕ)) (s : Storage) (time now t : ℕ)
    → time ≤ now
    → now ≤ t
    → IsLogged l key log s time
    → lookup member (window_members now key s) ≡ none
    → length (counted_members now member key l.ttl s) ≤ l.limit
    → count_by (is_recent t l.ttl) ((member, now) ∷ log) ≤ l.limit
unfolding count_by
bounded-counted l key member log s time now t le later h fresh within =
    let most = count-length (is_recent t l.ttl) (counted_members now member key l.ttl s) in
    let more = count-counted now member key l.ttl t s later fresh in
    let before = h.held t (omega arith) in
    let wider = window_members-later (is_recent t l.ttl) now t key s later in
    let old = past-none_recent time t l.ttl log in
    elim (Bool-cases (ltb t (now + l.ttl))) [
      | inl lasting ↦ ground (arith, most, more, before, wider, within)
      | inr over ↦ ground (arith, old (ground arith) h.past)
    ]

IsLogged-counted :
    (l : Limit) (key member : ℕ) (log : List (ℕ × ℕ)) (s s' : Storage) (time now : ℕ)
    (refused : Bool)
    → time ≤ now
    → IsLogged l key log s time
    → lookup member (window_members now key s) ≡ none
    → s'.windows ≡ (sliding_window_hit now member key l.ttl s).0.windows
    → refused ≡ ltb l.limit (length (counted_members now member key l.ttl s))
    → IsLogged l key (if not refused then (member, now) ∷ log else log) s' now
unfolding count_by
IsLogged-counted l key member log s s' time now true le h fresh hit over =
    IsLogged-refused l key log s s' time now le h (λ t later.
      ground (arith, held-counted l key member log s s' time now t le later h fresh hit))
IsLogged-counted l key member log s s' time now false le h fresh hit over = record {
  past = (omega arith, past-later time now log le h.past);
  held = λ t later. held-counted l key member log s s' time now t le later h fresh hit;
  bounded =
      λ t later. bounded-counted l key member log s time now t le later h fresh (ground arith);
}

Requests-IsLogged :
    (limits : ℕ → Limit) (key : ℕ) {log : List (ℕ × ℕ)} {s : Storage} {time : ℕ}
    → Requests limits key log s time
    → IsLogged (limits key) key log s time
unfolding count_by
Requests-IsLogged limits key no_requests = record {
  past = tt;
  held = λ t le. omega arith;
  bounded = λ t le. omega arith;
}
Requests-IsLogged limits key (request log s s' time now member k r run le fresh e) =
    let l = limits k in
    let h = Requests-IsLogged limits key run in
    elim (increment-cases now member k l.ttl l.limit l.block_duration s s' r e) [
      | inl (same, refused) ↦
          let kept : log_request key k member now r log ≡ log = ground arith in
          rw kept (
            IsLogged-refused (limits key) key log s s' time now le h (λ t later. ground (
              arith,
              h.held t (omega arith),
              ap (λ ws. count_by (is_recent t (limits key).ttl) (members_of t (lookup key ws)))
                  same,
            )))
      | inr (hit, over) ↦ elim (Bool-cases (k == key)) [
        | inl own ↦
            let same : k ≡ key = ground arith in
            subst (λ j. IsLogged (limits j) j (log_request j k member now r log) s' now) same
              (rw (==_refl k) (
                IsLogged-counted l k member log s s' time now r.is_blocked le
                  (subst (λ j. IsLogged (limits j) j log s time) (sym same) h) fresh hit over))
        | inr other ↦ rw other (
            IsLogged-refused (limits key) key log s s' time now le h (λ t later. ground (
              arith,
              h.held t (omega arith),
              ap (λ ws. count_by (is_recent t (limits key).ttl) (members_of t (lookup key ws))) hit,
              window_members-other now member key k l.ttl t s other,
            )))
      ]
    ]

-- In the sliding window no more requests of a key than its limit are let through within any
-- period of its ttl: at whatever time a run of requests for any keys has come to, and later,
-- those let through in the ttl before are within the limit. Redis answers, its clock does not run
-- backwards, and a member of a window is new when it is added.
pub sliding_window-bounded :
    (limits : ℕ → Limit) (key : ℕ) {log : List (ℕ × ℕ)} {s : Storage} {time : ℕ} (t : ℕ)
    → Requests limits key log s time
    → time ≤ t
    → count_by (is_recent t (limits key).ttl) log ≤ (limits key).limit
sliding_window-bounded limits key t run later = (Requests-IsLogged limits key run).bounded t later
