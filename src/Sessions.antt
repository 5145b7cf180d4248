-- ===== src/Sessions.antt =====
-- ahjoorxmr/src/auth/auth.service.ts: refresh tokens, their rotation and their revocation. A token is the
-- number of its hash; whether the JWT is valid, and the hash of the token that is signed next, are
-- arguments. Times are milliseconds. The alert by mail after a reuse is left out.
pub mod Rotation
mod Tests
use ahjoor_backend.Common.{
  ℕ, ◌+◌, ◌*◌, ◌==◌, ltb, if◌then◌else◌, not, ◌&&◌, Bool, true, false, Option, none, some, List, [],
  ◌∷◌, ◌++◌, find, filter_by, update_where, Result, ok, err, unauthorized, not_found,
  internal_error, lookup, set_key,
}
use ahjoor_backend.Entities.{is_some, is_none}
use ahjoor_backend.Stellar.{or_else}

pub record RefreshToken : Type 0 where
  pub id : ℕ
  pub user_id : ℕ
  pub token_hash : ℕ
  pub expires_at : ℕ
  pub absolute_expires_at : ℕ
  pub revoked_at : Option ℕ
  pub device_id : Option ℕ
  pub device_name : Option ℕ
  pub ip_address : Option ℕ

pub record StoreTokenOptions : Type 0 where
  pub device_id : Option ℕ
  pub device_name : Option ℕ
  pub ip_address : Option ℕ
  pub absolute_expires_at : Option ℕ

-- The table of tokens, and the tokenVersion of each user.
pub record Sessions : Type 0 where
  pub tokens : List RefreshToken
  pub versions : List (ℕ × ℕ)

abbrev pub day_ms : ℕ
day_ms = 24 * 60 * 60 * 1000

abbrev pub has_token_hash : ℕ → RefreshToken → Bool
has_token_hash hash t = t.token_hash == hash

-- A new row, with the id that the database makes; the hash is a unique column.
unfoldable pub store_refresh_token :
    ℕ → ℕ → ℕ → ℕ → ℕ → StoreTokenOptions → Sessions → Sessions × Result (Unit {0})
store_refresh_token absolute_days now id user hash opts s =
    if is_some (find (has_token_hash hash) s.tokens) then (s, err internal_error) else (
      record s {
        tokens =
            s.tokens
            ++ record {
              id = id;
              user_id = user;
              token_hash = hash;
              expires_at = now + 7 * day_ms;
              absolute_expires_at = or_else opts.absolute_expires_at (now + absolute_days * day_ms);
              revoked_at = none;
              device_id = opts.device_id;
              device_name = opts.device_name;
              ip_address = opts.ip_address;
            }
              ∷ [];
      },
      ok tt,
    )

abbrev pub revoke : ℕ → RefreshToken → RefreshToken
revoke now t = record t { revoked_at = some now }

unfoldable pub revoke_where : (RefreshToken → Bool) → ℕ → Sessions → Sessions
revoke_where p now s = record s { tokens = update_where p (revoke now) s.tokens }

abbrev pub is_live_of : ℕ → RefreshToken → Bool
is_live_of user t = t.user_id == user && is_none t.revoked_at

-- `usersService.incrementTokenVersion`, and `revokeAllSessions`, which changes the version alike.
unfoldable pub increment_token_version : ℕ → Sessions → Sessions × Result (Unit {0})
increment_token_version user s = elim (lookup user s.versions) [
  | none ↦ (s, err not_found)
  | some version ↦ (record s { versions = set_key user (version + 1) s.versions }, ok tt)
]

unfoldable pub revoke_all_user_tokens : ℕ → ℕ → Sessions → Sessions × Result (Unit {0})
unfolding revoke_where increment_token_version
revoke_all_user_tokens now user s =
    increment_token_version user (revoke_where (is_live_of user) now s)

-- What is thrown after a step that may itself have thrown.
abbrev pub then_throw : Sessions × Result (Unit {0}) → Sessions × Result (Unit {0})
then_throw (s, err e) = (s, err e)
then_throw (s, ok u) = (s, err unauthorized)

abbrev pub carried : RefreshToken → StoreTokenOptions → StoreTokenOptions
carried stored opts = record opts { absolute_expires_at = some stored.absolute_expires_at }

abbrev pub is_token : RefreshToken → RefreshToken → Bool
is_token stored t = t.id == stored.id

-- The rotation of a token that is live: revoked, then the version, then the new token.
unfoldable pub rotate :
    ℕ → ℕ → ℕ → ℕ → StoreTokenOptions → RefreshToken → Sessions → Sessions × Result (Unit {0})
unfolding revoke_where increment_token_version store_refresh_token
rotate absolute_days now id new_hash opts stored s =
    let counted = increment_token_version stored.user_id (revoke_where (is_token stored) now s) in
    elim counted.1 [
      | err e ↦ (counted.0, err e)
      | ok u ↦
          store_refresh_token absolute_days now id stored.user_id new_hash (carried stored opts)
            counted.0
    ]

unfoldable pub refresh_tokens :
    ℕ → Bool → ℕ → ℕ → ℕ → ℕ → StoreTokenOptions → Sessions → Sessions × Result (Unit {0})
unfolding revoke_all_user_tokens revoke_where rotate
refresh_tokens absolute_days valid now hash id new_hash opts s =
    if not valid then (s, err unauthorized) else elim (find (has_token_hash hash) s.tokens) [
      | none ↦ (s, err unauthorized)
      | some stored ↦
          if is_some stored.revoked_at
          then then_throw (revoke_all_user_tokens now stored.user_id s)
          else if ltb stored.expires_at now
          then then_throw (revoke_all_user_tokens now stored.user_id s)
          else if ltb stored.absolute_expires_at now
          then (revoke_where (is_token stored) now s, err unauthorized)
          else rotate absolute_days now id new_hash opts stored s
    ]

abbrev pub is_listed : ℕ → ℕ → RefreshToken → Bool
is_listed now user t = is_live_of user t && ltb now t.expires_at && ltb now t.absolute_expires_at

-- The sessions in the order of the table; the source lists the last used first.
unfoldable pub list_sessions : ℕ → ℕ → Sessions → List RefreshToken
list_sessions now user s =
    filter_by (λ t. is_live_of user t && ltb now t.expires_at && ltb now t.absolute_expires_at)
      s.tokens

abbrev pub is_session : ℕ → RefreshToken → Bool
is_session session t = t.id == session

unfoldable pub revoke_session : ℕ → ℕ → ℕ → Sessions → Result Sessions
unfolding revoke_where
revoke_session now user session s = elim (find (is_session session) s.tokens) [
  | none ↦ err not_found
  | some t ↦ if not (t.user_id == user) then err not_found else ok (revoke_where (is_token t) now s)
]

unfoldable pub logout : ℕ → ℕ → Option ℕ → Sessions → Sessions × Result (Unit {0})
unfolding revoke_all_user_tokens revoke_where increment_token_version
logout now user none s =
    let revoked = revoke_all_user_tokens now user s in
    elim revoked.1 [ err e ↦ (revoked.0, err e) | ok u ↦ increment_token_version user revoked.0 ]
logout now user (some hash) s =
    increment_token_version user (revoke_where (has_token_hash hash) now s)

unfoldable pub delete_expired_tokens : ℕ → Sessions → Sessions
delete_expired_tokens now s = record s {
  tokens = filter_by (λ t. not (ltb t.expires_at now)) s.tokens;
}
