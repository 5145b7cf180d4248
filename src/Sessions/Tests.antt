-- ===== src/Sessions/Tests.antt =====
-- A token that is rotated, and then presented again.
use ahjoor_backend.Common.{
  ℕ, ◌≡◌, refl, arith, true, none, some, [], ◌∷◌, List, find, count_by, update_where, lookup,
  set_key,
}
use ahjoor_backend.Sessions.{
  RefreshToken, StoreTokenOptions, Sessions, refresh_tokens, revoke_where, rotate,
  increment_token_version, store_refresh_token, list_sessions,
}
use ahjoor_backend.Sessions.Rotation.{
  AuthCall, logs_in, deletes_expired, answer_auths, is_err, refresh_once, reuse_revokes_all,
}

abbrev no_device : StoreTokenOptions
no_device = record {
  device_id = none;
  device_name = none;
  ip_address = none;
  absolute_expires_at = none;
}

abbrev phone : RefreshToken
phone = record {
  id = 1;
  user_id = 11;
  token_hash = 500;
  expires_at = 604800000;
  absolute_expires_at = 2592000000;
  revoked_at = none;
  device_id = none;
  device_name = none;
  ip_address = none;
}

abbrev laptop : RefreshToken
laptop = record phone { id = 2; token_hash = 600 }

abbrev old_phone : RefreshToken
old_phone = record phone { revoked_at = some 4000 }

abbrev two_devices : Sessions
two_devices = record { tokens = phone ∷ laptop ∷ []; versions = (11, 0) ∷ [] }

abbrev after_rotation : Sessions
after_rotation = record { tokens = old_phone ∷ laptop ∷ []; versions = (11, 1) ∷ [] }

abbrev later_calls : List (ℕ × AuthCall)
later_calls = (6000, logs_in 4 11 700 no_device) ∷ (7000, deletes_expired) ∷ []

refresh_once_example :
    is_err
      (refresh_tokens 30 true 8000 500 5 502 no_device (
        answer_auths 30 later_calls
          (refresh_tokens 30 true 5000 500 3 501 no_device two_devices).0)).1
    ≡ true
unfolding refresh_tokens rotate revoke_where increment_token_version store_refresh_token find
    count_by update_where lookup set_key
refresh_once_example =
    refresh_once 30 5000 8000 500 3 501 5 502 true no_device no_device later_calls two_devices
      (λ i. ground arith) refl refl (refl, (tt, tt))

reuse_revokes_all_example :
    list_sessions 9000 11 (refresh_tokens 30 true 8000 500 5 502 no_device after_rotation).0 ≡ []
unfolding find
reuse_revokes_all_example =
    reuse_revokes_all 30 8000 9000 500 5 502 11 no_device old_phone after_rotation refl refl
