-- ===== src/Memberships/Payouts.antt =====
-- MembershipsService.recordPayout: only the member whose turn it is, and only once.
use ahjoor_backend.Common.{
  ℕ, ◌≡◌, ap, ◌∙◌, arith, true, false, some, ok, err, conflict, Option-cases, inl, inr, find-save,
  find-holds,
}
use ahjoor_backend.Entities.{
  Group, Membership, Db, GroupStatus, find_group, find_membership, is_member, save_membership,
}
use ahjoor_backend.Memberships.{record_payout, is_due}
use ahjoor_backend.Memberships.Orders.{HasKeys}

-- What a successful `recordPayout` has checked and written.
pub record Paid (gid uid hash : ℕ) (db db' : Db) (m : Membership) : Type 0 where
  pub group : Group
  pub row : Membership
  pub found : find_group gid db.groups ≡ some group
  pub open_group : group.status ≡ GroupStatus.active
  pub member : find_membership gid uid db.memberships ≡ some row
  pub unpaid : row.has_received_payout ≡ false
  pub turn : is_due group.current_round row.payout_order ≡ true
  pub result : m ≡ record row { has_received_payout = true; transaction_hash = some hash }
  pub groups_kept : db'.groups ≡ db.groups
  pub written : db'.memberships ≡ save_membership m db.memberships

-- `recordPayout` succeeds only in an active group, for a member without a payout whose payout
-- order is the current round minus one; it marks that row paid, with the hash, and keeps the groups.
pub record_payout-Paid :
    (gid uid hash : ℕ) (db : Db) {db' : Db} {m : Membership}
    → record_payout gid uid hash db ≡ ok (db', m)
    → Paid gid uid hash db db' m
unfolding record_payout
record_payout-Paid gid uid hash db e = elim (Option-cases (find_group gid db.groups)) [
  | inl unknown ↦ absurd (ground arith)
  | inr (g, f) ↦ elim (Option-cases (find_membership gid uid db.memberships)) [
    | inl unknown ↦ absurd (ground arith)
    | inr (r, f') ↦ record {
      group = g;
      row = r;
      found = f;
      open_group = ground arith;
      member = f';
      unpaid = ground arith;
      turn = ground arith;
      result = ground arith;
      groups_kept = ground arith;
      written = ground arith;
    }
  ]
]

-- After a payout that was recorded, recording it again, with any hash, is a conflict; membership
-- ids are unique.
pub record_payout_once :
    (gid uid hash again : ℕ) (db : Db) {db' : Db} {m : Membership}
    → HasKeys db
    → record_payout gid uid hash db ≡ ok (db', m)
    → record_payout gid uid again db' ≡ err conflict
unfolding record_payout
record_payout_once gid uid hash again db {db'} {m} keys e =
    let p = record_payout-Paid gid uid hash db e in
    let stored : find_membership gid uid db'.memberships ≡ some m =
      ap (find_membership gid uid) p.written
      ∙ find-save (λ (x : Membership). x.id) (is_member gid uid) db.memberships m p.member
          (ground arith) (ground (arith, find-holds (is_member gid uid) db.memberships p.member))
          keys in
    ground (arith, p.found, ap (find_group gid) p.groups_kept, p.open_group, p.result, stored)
