-- ===== src/Invites/Uses.antt =====
-- An invite admits at most `maxUses` users, but into any group.
use ahjoor_backend.Common.{
  ℕ, ◌+◌, ◌==◌, ◌≤◌, ◌<◌, ◌≡◌, refl, arith, true, none, some, List, [], ◌∷◌, ◌++◌, count_by, ok,
  err, Option-cases, inl, inr, ◌⊎◌, HasUniqueKeys, find-save, find-holds, save-keys,
  count_by-append, ==_refl,
}
use ahjoor_backend.Entities.{
  Group, Membership, Db, find_group, find_membership, member_count, in_group,
}
use ahjoor_backend.Memberships.{new_membership}
use ahjoor_backend.Invites.{Invite, active, find_invite, save_invite, use_invite, join_by_code}

abbrev pub HasInviteKeys : List Invite → Type 0
HasInviteKeys = HasUniqueKeys (λ (i : Invite). i.id)

-- A try to join by the code: the time, and the user, the wallet and the id of the new row.
pub record Attempt : Type 0 where
  pub at : ℕ
  pub user : ℕ
  pub wallet : ℕ
  pub row : ℕ

abbrev pub State : Type 0
State = List Invite × Db

-- A refused try changes nothing.
pub attempt : ℕ → Attempt → State → State
attempt code a (invites, db) = elim (join_by_code a.at code a.user a.wallet a.row invites db) [
  | err e ↦ (invites, db)
  | ok r ↦ (r.0, r.1)
]

pub attempts : ℕ → List Attempt → State → State
unfolding attempt
attempts code [] s = s
attempts code (a ∷ rest) s = attempts code rest (attempt code a s)

-- The state stays, or the invite is used once and its group has one member more.
attempt-cases :
    (code : ℕ) (a : Attempt) (invites : List Invite) (db : Db) {i : Invite}
    → find_invite code invites ≡ some i
    → (attempt code a (invites, db) ≡ (invites, db))
      ⊎ ((i.used_count < i.max_uses)
          × (attempt code a (invites, db) ≡ (
            save_invite (use_invite i) invites,
            record db {
              memberships =
                  db.memberships ++ new_membership a.row i.group_id a.user a.wallet none ∷ [];
            },
          )))
unfolding attempt join_by_code
attempt-cases code a invites db {i} f =
    elim (Option-cases (find_membership i.group_id a.user db.memberships)) [
      | inl new ↦ ground (arith, f, new)
      | inr (m, old) ↦ ground (arith, f, old)
    ]

-- However many users try to join by a code, at whatever times, its uses never exceed maxUses, and
-- its group has grown by exactly the uses that were made; invite ids are unique.
pub attempts-bounded :
    (code : ℕ) (tries : List Attempt) (invites : List Invite) (db : Db) {i : Invite}
    → HasInviteKeys invites
    → find_invite code invites ≡ some i
    → i.used_count ≤ i.max_uses
    → let s = attempts code tries (invites, db) in
      (j : Invite) × (find_invite code s.0 ≡ some j)
      × (j.used_count ≤ i.max_uses)
      × (member_count i.group_id s.1.memberships + i.used_count
          ≡ member_count i.group_id db.memberships + j.used_count)
unfolding attempts count_by
attempts-bounded code [] invites db {i} keys f room = (i, f, room, refl)
attempts-bounded code (a ∷ tries) invites db {i} keys f room =
    elim (attempt-cases code a invites db f) [
      | inl same ↦ rw (same, attempts) (attempts-bounded code tries invites db keys f room)
      | inr (free, used) ↦
          let key : (i.code == code) ≡ true =
            find-holds (λ (x : Invite). x.code == code) invites f in
          let row : Membership = new_membership a.row i.group_id a.user a.wallet none in
          let next : Db = record db { memberships = db.memberships ++ row ∷ [] } in
          let (j, g, most, grown) =
            attempts-bounded code tries (save_invite (use_invite i) invites) next {i = use_invite i}
              (save-keys (λ (x : Invite). x.id) invites (use_invite i) keys)
              (find-save (λ (x : Invite). x.id) (λ (x : Invite). x.code == code) invites
                (use_invite i) f refl key keys)
              (omega (arith, free)) in
          rw (used, attempts)
            (
              j,
              g,
              most,
              ground (
                arith,
                grown,
                count_by-append (in_group i.group_id) db.memberships (row ∷ []),
                ==_refl i.group_id,
              ),
            )
    ]

-- The code of a usable invite admits a new user into its group also where the group is full,
-- which then has more members than maxMembers.
pub join_by_code_overfills :
    (now code uid wallet id : ℕ) (invites : List Invite) (db : Db) {i : Invite} {g : Group}
    → find_invite code invites ≡ some i
    → i.status ≡ active
    → now ≤ i.expires_at
    → i.used_count < i.max_uses
    → find_membership i.group_id uid db.memberships ≡ none
    → find_group i.group_id db.groups ≡ some g
    → g.max_members ≤ member_count i.group_id db.memberships
    → (invites' : List Invite) × (db' : Db) × (m : Membership) × (join_by_code now code uid wallet
          id invites db
        ≡ ok (invites', db', m))
      × (g.max_members < member_count i.group_id db'.memberships)
unfolding join_by_code count_by
join_by_code_overfills now code uid wallet id invites db {i} {g} f open_ soon free new group full =
    let row : Membership = new_membership id i.group_id uid wallet none in
    (
      save_invite (use_invite i) invites,
      record db { memberships = db.memberships ++ row ∷ [] },
      row,
      ground (arith, f, open_, new),
      ground (
        arith,
        full,
        count_by-append (in_group i.group_id) db.memberships (row ∷ []),
        ==_refl i.group_id,
      ),
    )
