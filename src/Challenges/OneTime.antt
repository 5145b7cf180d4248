-- ===== src/Challenges/OneTime.antt =====
-- A challenge is accepted once, within its time, for its wallet.
use ahjoor_backend.Common.{
  ℕ, ◌+◌, ◌≤◌, ◌<◌, ◌≡◌, refl, arith, true, false, none, some, List, [], ◌∷◌, find, filter_by,
  find-append-none, ==_refl, ◌≢◌,
}
use ahjoor_backend.Challenges.{ChallengeRecord, ttl_ms, is_of, delete, set, consume}

find-delete : (w : ℕ) (store : List ChallengeRecord) → find (is_of w) (delete w store) ≡ none
unfolding find filter_by
find-delete w [] = refl
find-delete w (r ∷ rs) = ground (arith, find-delete w rs)

find-set :
    (now w c : ℕ) (store : List ChallengeRecord)
    → find (is_of w) (set now w c store)
      ≡ some (record { wallet = w; challenge = c; expires_at = now + ttl_ms })
unfolding set find
find-set now w c store = ground (
  arith,
  find-append-none (is_of w) (delete w store)
      (record { wallet = w; challenge = c; expires_at = now + ttl_ms } ∷ []) (find-delete w store),
  ==_refl w,
)

-- A challenge that was set is accepted within its five minutes, and at no time after that use;
-- the store then holds no challenge of the wallet.
set-consume_once :
    (now later again w c d : ℕ) (store : List ChallengeRecord)
    → later ≤ now + ttl_ms
    → let used = (consume later w c (set now w c store)).0 in
      ((consume later w c (set now w c store)).1 ≡ true)
      × (find (is_of w) used ≡ none)
      × (consume again w d used ≡ (used, false))
unfolding consume
set-consume_once now later again w c d store fits =
    let stored = find-set now w c store in
    let gone = find-delete w (set now w c store) in
    (
      ground (arith, stored, ==_refl c),
      ground (arith, stored, ==_refl c, gone),
      ground (arith, stored, ==_refl c, gone),
    )

-- A challenge is refused after its five minutes; and another text than the one that was set is refused
-- within them, which leaves the challenge in place.
pub set-consume_refused :
    (now early late w c d : ℕ) (store : List ChallengeRecord)
    → now + ttl_ms < late
    → early ≤ now + ttl_ms
    → d ≢ c
    → let kept = set now w c store in
      ((consume late w c kept).1 ≡ false) × (consume early w d kept ≡ (kept, false))
unfolding consume
set-consume_refused now early late w c d store after fits other =
    let stored = find-set now w c store in (ground (arith, stored), ground (arith, stored))
