-- ===== src/Groups/Deletion.antt =====
-- GroupsService.softDelete: a deleted group is gone for every handler that reads it by id.
use ahjoor_backend.Common.{
  ℕ, ◌==◌, ◌≡◌, refl, arith, Option, none, some, List, [], ◌∷◌, find, update_where, ok, err,
  not_found, Option-cases, inl, inr,
}
use ahjoor_backend.Entities.{Group, Db, find_group}
use ahjoor_backend.Stellar.{Outside}
use ahjoor_backend.Memberships.{InsertOutcome, add_member}
use ahjoor_backend.Memberships.Capacity.{add_member-unknown}
use ahjoor_backend.Payout.{distribute_payout}
use ahjoor_backend.Payout.Distribution.{distribute_payout-unknown}
use ahjoor_backend.Groups.{soft_delete, update, UpdateGroup, activate_group}

find_group-deleted :
    (now gid : ℕ) (gs : List Group)
    → find_group gid
        (update_where (λ (g : Group). g.id == gid) (λ g. record g { deleted_at = some now }) gs)
      ≡ none
unfolding find update_where
find_group-deleted now gid [] = refl
find_group-deleted now gid (g ∷ gs) = ground (arith, find_group-deleted now gid gs)

soft_delete-gone :
    (now gid wallet : ℕ) (db : Db) {db' : Db}
    → soft_delete now gid wallet db ≡ ok db'
    → find_group gid db'.groups ≡ none
unfolding soft_delete
soft_delete-gone now gid wallet db {db'} e = elim (Option-cases (find_group gid db.groups)) [
  | inl missing ↦ absurd (ground arith)
  | inr (g, f) ↦ ground (arith, find_group-deleted now gid db.groups)
]

-- After softDelete the group cannot be updated, deleted or activated, no member is added and no
-- payout is made: each of these calls answers that there is no such group.
soft_delete-final :
    (out : Outside) (choose : ℕ → ℕ) (contract : Option ℕ) (outcome : InsertOutcome)
    (dto : UpdateGroup) (now later gid uid wallet id round : ℕ) (db : Db) {db' : Db}
    → soft_delete now gid wallet db ≡ ok db'
    → (update gid dto wallet db' ≡ err not_found)
      × (soft_delete later gid wallet db' ≡ err not_found)
      × (activate_group choose contract gid wallet db' ≡ (db', err not_found))
      × (add_member gid uid wallet id outcome db' ≡ err not_found)
      × (distribute_payout out id gid round db' ≡ (db', err not_found))
unfolding update soft_delete activate_group
soft_delete-final out choose contract outcome dto now later gid uid wallet id round db {db'} e =
    let gone = soft_delete-gone now gid wallet db e in
    (
      ground (arith, gone),
      ground (arith, gone),
      ground (arith, gone),
      add_member-unknown gid uid wallet id outcome db' gone,
      distribute_payout-unknown out id gid round db' gone,
    )
