-- ===== src/Sessions/Rotation.antt =====
-- A refresh token is good for one rotation.
use ahjoor_backend.Common.{
  ℕ, ◌≡◌, refl, subst, ◌∙◌, arith, ◌==◌, if◌then◌else◌, ◌&&◌, Bool, true, false, Option, none, some,
  List, [], ◌∷◌, ◌++◌, find, filter_by, count_by, update_where, Result, ok, err, HasUniqueKeys, ap,
  find-holds, lookup, All-unique, All, Bool-cases, Option-cases, Result-cases, inl, inr, ==_refl,
}
use ahjoor_backend.Entities.{is_none, is_some}
use ahjoor_backend.Sessions.{
  RefreshToken, StoreTokenOptions, Sessions, has_token_hash, store_refresh_token, revoke,
  revoke_where, is_live_of, increment_token_version, revoke_all_user_tokens, then_throw, is_token,
  rotate, refresh_tokens, is_session, revoke_session, logout, delete_expired_tokens, list_sessions,
  is_listed,
}

-- A call of the service; `logs_in` is a login or a registration whose credentials were accepted.
pub data AuthCall : Type 0 where
  logs_in : (id user hash : ℕ) → StoreTokenOptions → AuthCall
  refreshes : Bool → (hash id new_hash : ℕ) → StoreTokenOptions → AuthCall
  revokes : (user session : ℕ) → AuthCall
  logs_out : ℕ → Option ℕ → AuthCall
  deletes_expired : AuthCall

abbrev pub kept_or : Sessions → Result Sessions → Sessions
kept_or s (ok t) = t
kept_or s (err e) = s

module _ (absolute_days : ℕ) where
  unfoldable pub answer_auth : ℕ → AuthCall → Sessions → Sessions
  answer_auth now (logs_in id user hash opts) s =
      (store_refresh_token absolute_days now id user hash opts s).0
  answer_auth now (refreshes valid hash id new_hash opts) s =
      (refresh_tokens absolute_days valid now hash id new_hash opts s).0
  answer_auth now (revokes user session) s = kept_or s (revoke_session now user session s)
  answer_auth now (logs_out user token) s = (logout now user token s).0
  answer_auth now deletes_expired s = delete_expired_tokens now s

  -- The calls, each with its time, one after the other.
  unfoldable pub answer_auths : List (ℕ × AuthCall) → Sessions → Sessions
  answer_auths [] s = s
  answer_auths (c ∷ cs) s = answer_auths cs (answer_auth c.0 c.1 s)

abbrev pub is_err : Result (Unit {0}) → Bool
is_err (ok u) = false
is_err (err e) = true

-- The call signs no token with this hash.
abbrev pub IsOther : ℕ → AuthCall → Type 0
IsOther hash (logs_in id user new opts) = new == hash ≡ false
IsOther hash (refreshes valid old id new opts) = new == hash ≡ false
IsOther hash (revokes user session) = Unit
IsOther hash (logs_out user token) = Unit
IsOther hash deletes_expired = Unit

abbrev is_live_hash : ℕ → RefreshToken → Bool
is_live_hash hash t = t.token_hash == hash && is_none t.revoked_at

-- No live row has the hash.
abbrev IsSpent : ℕ → List RefreshToken → Type 0
IsSpent hash ts = count_by (is_live_hash hash) ts ≡ 0

update-IsSpent :
    (hash now : ℕ) (p : RefreshToken → Bool) (ts : List RefreshToken)
    → IsSpent hash ts
    → IsSpent hash (update_where p (revoke now) ts)
unfolding count_by update_where
update-IsSpent hash now p [] h = refl
update-IsSpent hash now p (t ∷ ts) h = ground (arith, h, update-IsSpent hash now p ts)

filter-IsSpent :
    (hash : ℕ) (p : RefreshToken → Bool) (ts : List RefreshToken)
    → IsSpent hash ts
    → IsSpent hash (filter_by p ts)
unfolding count_by filter_by
filter-IsSpent hash p [] h = refl
filter-IsSpent hash p (t ∷ ts) h = ground (arith, h, filter-IsSpent hash p ts)

append-IsSpent :
    (hash : ℕ) (t : RefreshToken) (ts : List RefreshToken)
    → t.token_hash == hash ≡ false
    → IsSpent hash ts
    → IsSpent hash (ts ++ t ∷ [])
unfolding count_by
append-IsSpent hash t [] e h = ground (arith, e)
append-IsSpent hash t (x ∷ ts) e h = ground (arith, e, h, append-IsSpent hash t ts e)

increment_token_version-tokens :
    (user : ℕ) (s : Sessions) → (increment_token_version user s).0.tokens ≡ s.tokens
unfolding increment_token_version
increment_token_version-tokens user s = elim (Option-cases (lookup user s.versions)) [
  | inl missing ↦ ground (arith, missing)
  | inr (v, at) ↦ ground (arith, at)
]

store-IsSpent :
    (days now id user hash new : ℕ) (opts : StoreTokenOptions) (s : Sessions)
    → new == hash ≡ false
    → IsSpent hash s.tokens
    → IsSpent hash (store_refresh_token days now id user new opts s).0.tokens
unfolding store_refresh_token
store-IsSpent days now id user hash new opts s e h =
    elim (Bool-cases (is_some (find (has_token_hash new) s.tokens))) [
      | inl taken ↦ ground (arith, taken, h)
      | inr free ↦ rw free (append-IsSpent hash _ s.tokens e h)
    ]

revoke_all-IsSpent :
    (now user hash : ℕ) (s : Sessions)
    → IsSpent hash s.tokens
    → IsSpent hash (revoke_all_user_tokens now user s).0.tokens
unfolding revoke_all_user_tokens revoke_where
revoke_all-IsSpent now user hash s h =
    rw (increment_token_version-tokens user (revoke_where (is_live_of user) now s))
      (update-IsSpent hash now (is_live_of user) s.tokens h)

then_throw-tokens : (r : Sessions × Result (Unit {0})) → (then_throw r).0 ≡ r.0
then_throw-tokens (s, ok u) = refl
then_throw-tokens (s, err e) = refl

rotate-IsSpent :
    (days now hash id new : ℕ) (opts : StoreTokenOptions) (stored : RefreshToken) (s : Sessions)
    → new == hash ≡ false
    → IsSpent hash (update_where (is_token stored) (revoke now) s.tokens)
    → IsSpent hash (rotate days now id new opts stored s).0.tokens
unfolding rotate revoke_where
rotate-IsSpent days now hash id new opts stored s e h =
    let revoked = revoke_where (is_token stored) now s in
    let counted = increment_token_version stored.user_id revoked in
    let same = increment_token_version-tokens stored.user_id revoked in
    let spent : IsSpent hash counted.0.tokens = rw same h in
    elim (Result-cases counted.1) [
      | inl (x, bad) ↦ ground (arith, bad, spent)
      | inr (u, good) ↦
          let kept =
            store-IsSpent days now id stored.user_id hash new
              (record opts { absolute_expires_at = some stored.absolute_expires_at }) counted.0 e
              spent in
          ground (arith, good, kept)
    ]

refresh-IsSpent :
    (days now hash old id new : ℕ) (valid : Bool) (opts : StoreTokenOptions) (s : Sessions)
    → new == hash ≡ false
    → IsSpent hash s.tokens
    → IsSpent hash (refresh_tokens days valid now old id new opts s).0.tokens
unfolding refresh_tokens revoke_where
refresh-IsSpent days now hash old id new false opts s e h = h
refresh-IsSpent days now hash old id new true opts s e h =
    elim (Option-cases (find (has_token_hash old) s.tokens)) [
      | inl missing ↦ ground (arith, missing, h)
      | inr (stored, at) ↦
          let all = revoke_all-IsSpent now stored.user_id hash s h in
          let thrown = then_throw-tokens (revoke_all_user_tokens now stored.user_id s) in
          let one = update-IsSpent hash now (is_token stored) s.tokens h in
          let rotated = rotate-IsSpent days now hash id new opts stored s e one in
          ground
            (arith, at, ap (λ t. count_by (is_live_hash hash) t.tokens) thrown, all, one, rotated)
    ]

logout-IsSpent :
    (now user hash : ℕ) (token : Option ℕ) (s : Sessions)
    → IsSpent hash s.tokens
    → IsSpent hash (logout now user token s).0.tokens
unfolding logout revoke_where
logout-IsSpent now user hash none s h =
    let revoked = revoke_all_user_tokens now user s in
    let all = revoke_all-IsSpent now user hash s h in
    elim (Result-cases revoked.1) [
      | inl (x, bad) ↦ ground (arith, bad, all)
      | inr (u, good) ↦ ground (
        arith,
        good,
        all,
        ap (count_by (is_live_hash hash)) (increment_token_version-tokens user revoked.0),
      )
    ]
logout-IsSpent now user hash (some old) s h =
    rw (increment_token_version-tokens user (revoke_where (has_token_hash old) now s))
      (update-IsSpent hash now (has_token_hash old) s.tokens h)

answer_auth-IsSpent :
    (days now hash : ℕ) (c : AuthCall) (s : Sessions)
    → IsOther hash c
    → IsSpent hash s.tokens
    → IsSpent hash (answer_auth days now c s).tokens
unfolding answer_auth revoke_session revoke_where delete_expired_tokens
answer_auth-IsSpent days now hash (logs_in id user new opts) s e h =
    store-IsSpent days now id user hash new opts s e h
answer_auth-IsSpent days now hash (refreshes valid old id new opts) s e h =
    refresh-IsSpent days now hash old id new valid opts s e h
answer_auth-IsSpent days now hash (revokes user session) s e h =
    elim (Option-cases (find (is_session session) s.tokens)) [
      | inl missing ↦ ground (arith, missing, h)
      | inr (t, at) ↦ ground (arith, at, h, update-IsSpent hash now (is_token t) s.tokens h)
    ]
answer_auth-IsSpent days now hash (logs_out user token) s e h =
    logout-IsSpent now user hash token s h
answer_auth-IsSpent days now hash deletes_expired s e h = filter-IsSpent hash _ s.tokens h

answer_auths-IsSpent :
    (days hash : ℕ) (cs : List (ℕ × AuthCall)) (s : Sessions)
    → All (λ c. IsOther hash c.1) cs
    → IsSpent hash s.tokens
    → IsSpent hash (answer_auths days cs s).tokens
unfolding answer_auths
answer_auths-IsSpent days hash [] s e h = h
answer_auths-IsSpent days hash (c ∷ cs) s e h =
    answer_auths-IsSpent days hash cs (answer_auth days c.0 c.1 s) e.1
      (answer_auth-IsSpent days c.0 hash c.1 s e.0 h)

-- The row that is revoked by its id is the only one with its hash.
revoked-IsSpent :
    (now hash : ℕ) (stored : RefreshToken) (ts : List RefreshToken)
    → All (λ t. t.token_hash ≡ stored.token_hash → t ≡ stored) ts
    → stored.token_hash ≡ hash
    → IsSpent hash (update_where (is_token stored) (revoke now) ts)
unfolding count_by update_where
revoked-IsSpent now hash stored [] only same = refl
revoked-IsSpent now hash stored (t ∷ ts) only same =
    let rest = revoked-IsSpent now hash stored ts only.1 same in
    elim (Bool-cases (t.token_hash == hash)) [
      | inl here ↦ ground (arith, rest, here, only.0 (ground arith), ==_refl stored.id)
      | inr other ↦ ground (arith, rest, other)
    ]

spent-not_live :
    (hash : ℕ) (ts : List RefreshToken) {t : RefreshToken}
    → find (has_token_hash hash) ts ≡ some t
    → IsSpent hash ts
    → is_some t.revoked_at ≡ true
unfolding find count_by
spent-not_live hash [] e h = ground (arith, e)
spent-not_live hash (x ∷ ts) {t} e h = elim (Bool-cases (x.token_hash == hash)) [
  | inl here ↦
      let same : x ≡ t = ground (arith, e, here) in
      subst (λ (y : RefreshToken). is_some y.revoked_at ≡ true) same
        (elim (Option-cases x.revoked_at) [
          | inl live ↦ absurd (ground (arith, here, live, h))
          | inr (at, revoked) ↦ ground (arith, revoked)
        ])
  | inr other ↦ spent-not_live hash ts {t = t} (ground (arith, e, other)) (ground (arith, h, other))
]

then_throw-err : (r : Sessions × Result (Unit {0})) → is_err (then_throw r).1 ≡ true
then_throw-err (s, ok u) = refl
then_throw-err (s, err e) = refl

refresh-spent :
    (days now hash id new : ℕ) (valid : Bool) (opts : StoreTokenOptions) (s : Sessions)
    → IsSpent hash s.tokens
    → is_err (refresh_tokens days valid now hash id new opts s).1 ≡ true
unfolding refresh_tokens
refresh-spent days now hash id new false opts s h = refl
refresh-spent days now hash id new true opts s h =
    elim (Option-cases (find (has_token_hash hash) s.tokens)) [
      | inl missing ↦ ground (arith, missing)
      | inr (t, at) ↦ ground (
        arith,
        at,
        spent-not_live hash s.tokens at h,
        then_throw-err (revoke_all_user_tokens now t.user_id s),
      )
    ]

refreshed-IsSpent :
    (days now hash id new : ℕ) (opts : StoreTokenOptions) (s : Sessions)
    → HasUniqueKeys (λ (t : RefreshToken). t.token_hash) s.tokens
    → new == hash ≡ false
    → is_err (refresh_tokens days true now hash id new opts s).1 ≡ false
    → IsSpent hash (refresh_tokens days true now hash id new opts s).0.tokens
unfolding refresh_tokens
refreshed-IsSpent days now hash id new opts s unique other good =
    elim (Option-cases (find (has_token_hash hash) s.tokens)) [
      | inl missing ↦ absurd (ground (arith, missing, good))
      | inr (t, at) ↦
          let only =
            All-unique (λ (x : RefreshToken). x.token_hash) (has_token_hash hash) s.tokens at
              unique in
          let owned : t.token_hash ≡ hash =
            ground (arith, find-holds (has_token_hash hash) s.tokens at) in
          let rotated =
            rotate-IsSpent days now hash id new opts t s other
              (revoked-IsSpent now hash t s.tokens only owned) in
          ground (arith, at, good, rotated, then_throw-err (revoke_all_user_tokens now t.user_id s))
    ]

-- A refresh token that was rotated is good for nothing more: after any logins, refreshes,
-- revocations, logouts and deletions, at whatever times, a refresh with it fails. The hashes of
-- the tokens were unique, and no later token has its hash.
pub refresh_once :
    (days now later hash id new id' new' : ℕ) (valid : Bool) (opts opts' : StoreTokenOptions)
    (cs : List (ℕ × AuthCall)) (s : Sessions)
    → HasUniqueKeys (λ (t : RefreshToken). t.token_hash) s.tokens
    → new == hash ≡ false
    → is_err (refresh_tokens days true now hash id new opts s).1 ≡ false
    → All (λ c. IsOther hash c.1) cs
    → let after = answer_auths days cs (refresh_tokens days true now hash id new opts s).0 in
      is_err (refresh_tokens days valid later hash id' new' opts' after).1 ≡ true
refresh_once days now later hash id new id' new' valid opts opts' cs s unique other good others =
    refresh-spent days later hash id' new' valid opts' _ (
      answer_auths-IsSpent days hash cs _ others
        (refreshed-IsSpent days now hash id new opts s unique other good))

listed-revoked :
    (now later user other : ℕ) (ts : List RefreshToken)
    → filter_by (is_listed later other) (update_where (is_live_of user) (revoke now) ts)
      ≡ (if other == user then [] else filter_by (is_listed later other) ts)
unfolding filter_by update_where
listed-revoked now later user other [] = ground arith
listed-revoked now later user other (t ∷ ts) =
    ground (arith, listed-revoked now later user other ts)

-- Where a revoked refresh token is presented whose signature is valid, its user has no session
-- left afterwards, and the sessions of every other user are as they were.
pub reuse_revokes_all :
    (days now later hash id new user : ℕ) (opts : StoreTokenOptions) (t : RefreshToken)
    (s : Sessions)
    → find (has_token_hash hash) s.tokens ≡ some t
    → is_some t.revoked_at ≡ true
    → list_sessions later user (refresh_tokens days true now hash id new opts s).0
      ≡ (if user == t.user_id then [] else list_sessions later user s)
unfolding refresh_tokens revoke_all_user_tokens revoke_where list_sessions
reuse_revokes_all days now later hash id new user opts t s at revoked =
    let all = revoke_where (is_live_of t.user_id) now s in
    let thrown = then_throw-tokens (revoke_all_user_tokens now t.user_id s) in
    let same = increment_token_version-tokens t.user_id all in
    rw (at, revoked)
      (ap (λ r. filter_by (is_listed later user) r.tokens) thrown
        ∙ ap (filter_by (is_listed later user)) same
        ∙ listed-revoked now later t.user_id user s.tokens)
