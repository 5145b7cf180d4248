-- ===== src/Groups/Transfer.antt =====
-- GroupsService.transferAdmin: the admin's rights pass to one active member.
use ahjoor_backend.Common.{
  ℕ, ◌≡◌, ◌≢◌, ap, ◌∙◌, arith, true, some, find, ok, err, forbidden, Option-cases, inl, inr, ◌&&◌,
  find-save, find-holds,
}
use ahjoor_backend.Entities.{
  Group, Membership, MembershipStatus, Db, find_group, is_group, is_member, is_active_member,
  HasGroupKeys, save_group,
}
use ahjoor_backend.Groups.{transfer_admin}

-- What a successful `transferAdmin` has checked and written.
pub record Transferred (gid wallet target : ℕ) (db db' : Db) (g' : Group) : Type 0 where
  pub group : Group
  pub heir : Membership
  pub found : find_group gid db.groups ≡ some group
  pub by_admin : group.admin_wallet ≡ wallet
  pub member : is_member gid target heir ≡ true
  pub active : heir.status ≡ MembershipStatus.active
  pub row : g' ≡ record group { admin_wallet = heir.wallet_address }
  pub written : db'.groups ≡ save_group g' db.groups
  pub members_kept : db'.memberships ≡ db.memberships

-- `transferAdmin` succeeds only for the group's admin, towards an active member of the group; it
-- stores that member's wallet as the admin's, and changes nothing else of the group or its members.
pub transfer_admin-Transferred :
    (gid wallet target : ℕ) (db : Db) {db' : Db} {g' : Group}
    → transfer_admin gid wallet target db ≡ ok (db', g')
    → Transferred gid wallet target db db' g'
unfolding transfer_admin
transfer_admin-Transferred gid wallet target db {db'} {g'} e =
    elim (Option-cases (find_group gid db.groups)) [
      | inl missing ↦ absurd (ground arith)
      | inr (g, f) ↦
          elim (Option-cases
            (find (λ m. is_member gid target m && is_active_member m.status) db.memberships)) [
              | inl missing ↦ absurd (ground arith)
              | inr (m, fm) ↦
                  let holds =
                    find-holds (λ x. is_member gid target x && is_active_member x.status)
                      db.memberships fm in
                  record {
                    group = g;
                    heir = m;
                    found = f;
                    by_admin = ground arith;
                    member = ground (arith, holds);
                    active = ground (arith, holds);
                    row = ground arith;
                    written = ground arith;
                    members_kept = ground arith;
                  }
            ]
    ]

-- After a transfer to a member with another wallet, the old admin can no longer transfer the
-- group to anyone; group ids are unique.
pub transfer_admin-handover :
    (gid wallet target other : ℕ) (db : Db) {db' : Db} {g' : Group}
    → HasGroupKeys db
    → transfer_admin gid wallet target db ≡ ok (db', g')
    → g'.admin_wallet ≢ wallet
    → transfer_admin gid wallet other db' ≡ err forbidden
unfolding transfer_admin
transfer_admin-handover gid wallet target other db {db'} {g'} keys e differs =
    let t = transfer_admin-Transferred gid wallet target db e in
    let key : is_group gid t.group ≡ true = find-holds (is_group gid) db.groups t.found in
    let stored : find_group gid db'.groups ≡ some g' =
      ap (find_group gid) t.written
      ∙ find-save (λ (x : Group). x.id) (is_group gid) db.groups g' t.found
          (ap (λ (x : Group). x.id) t.row) (ground (arith, t.row, key)) keys in
    ground (arith, stored, differs)
