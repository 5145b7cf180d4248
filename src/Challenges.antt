-- ===== src/Challenges.antt =====
-- ahjoorxmr/src/challenge.store.ts: the one-time challenges of a wallet login. The Map is a list of its
-- entries, with one entry for each wallet at most; times are milliseconds.
pub mod OneTime
use ahjoor_backend.Common.{
  ℕ, ◌+◌, ◌==◌, ltb, if◌then◌else◌, not, ◌&&◌, Bool, true, false, Option, none, some, List, [], ◌∷◌,
  ◌++◌, find, filter_by, count_by,
}
use ahjoor_backend.Entities.{is_some}

pub record ChallengeRecord : Type 0 where
  pub wallet : ℕ
  pub challenge : ℕ
  pub expires_at : ℕ

abbrev pub ttl_ms : ℕ
ttl_ms = 300000

abbrev pub is_of : ℕ → ChallengeRecord → Bool
is_of wallet r = r.wallet == wallet

abbrev pub delete : ℕ → List ChallengeRecord → List ChallengeRecord
delete wallet = filter_by (λ (r : ChallengeRecord). not (r.wallet == wallet))

-- `Map.set` replaces the entry of the key.
pub set : ℕ → ℕ → ℕ → List ChallengeRecord → List ChallengeRecord
set now wallet challenge store =
    delete wallet store
    ++ record { wallet = wallet; challenge = challenge; expires_at = now + ttl_ms } ∷ []

pub consume : ℕ → ℕ → ℕ → List ChallengeRecord → List ChallengeRecord × Bool
consume now wallet challenge store = elim (find (is_of wallet) store) [
  | none ↦ (store, false)
  | some r ↦
      if ltb r.expires_at now
      then (delete wallet store, false)
      else if not (r.challenge == challenge)
      then (store, false)
      else (delete wallet store, true)
]

pub has : ℕ → ℕ → List ChallengeRecord → List ChallengeRecord × Bool
has now wallet store = elim (find (is_of wallet) store) [
  | none ↦ (store, false)
  | some r ↦ if ltb r.expires_at now then (delete wallet store, false) else (store, true)
]

abbrev pub is_stale : ℕ → ChallengeRecord → Bool
is_stale now r = ltb r.expires_at now

pub purge_expired : ℕ → List ChallengeRecord → List ChallengeRecord × ℕ
purge_expired now store =
    (filter_by (λ r. not (is_stale now r)) store, count_by (is_stale now) store)
