-- ===== src/Memberships/Suspension.antt =====
-- MembershipsService.suspendMember and reinstateMember.
use ahjoor_backend.Common.{
  ℕ, ◌≡◌, refl, ap, ◌∙◌, arith, true, false, ◌==◌, some, ok, Option-cases, inl, inr, find-save,
  find-save_other, save_back, count-save, find-holds, save_same,
}
use ahjoor_backend.Entities.{
  Group, Membership, Db, MembershipStatus, NotificationType, notified, emit, find_group,
  find_membership, is_member, save_membership, member_count, in_group,
}
use ahjoor_backend.Memberships.{suspend_member, reinstate_member}
use ahjoor_backend.Memberships.Orders.{HasKeys}

-- What a `suspendMember` that changed something has checked and written.
pub record Suspended (gid target requester : ℕ) (db db' : Db) : Type 0 where
  pub group : Group
  pub admin : Membership
  pub row : Membership
  pub other : (target == requester) ≡ false
  pub found : find_group gid db.groups ≡ some group
  pub requested : find_membership gid requester db.memberships ≡ some admin
  pub allowed : (group.admin_wallet == admin.wallet_address) ≡ true
  pub member : find_membership gid target db.memberships ≡ some row
  pub groups_kept : db'.groups ≡ db.groups
  pub written :
      db'.memberships
      ≡ save_membership (record row { status = MembershipStatus.suspended }) db.memberships

-- suspendMember succeeds only for the group's admin, against another member; the target's row is
-- then stored as suspended, and the groups and the other members' rows stay; membership ids are
-- unique.
pub suspend_member-Suspended :
    (gid target requester : ℕ) (db : Db) {db' : Db} {m : Membership}
    → suspend_member gid target requester db ≡ ok (db', m)
    → HasKeys db
    → Suspended gid target requester db db'
unfolding suspend_member
suspend_member-Suspended gid target requester db e keys =
    elim (Option-cases (find_group gid db.groups)) [
      | inl unknown ↦ absurd (ground arith)
      | inr (g, f) ↦ elim (Option-cases (find_membership gid requester db.memberships)) [
        | inl unknown ↦ absurd (ground arith)
        | inr (a, fa) ↦ elim (Option-cases (find_membership gid target db.memberships)) [
          | inl unknown ↦ absurd (ground arith)
          | inr (r, fr) ↦ record {
            group = g;
            admin = a;
            row = r;
            other = ground arith;
            found = f;
            requested = fa;
            allowed = ground arith;
            member = fr;
            groups_kept = ground arith;
            written = ground (
              arith,
              save_same (λ (x : Membership). x.id) (is_member gid target) db.memberships fr keys,
            );
          }
        ]
      ]
    ]

-- Suspending an active member and reinstating it, by the same admin, restores the table of
-- members; membership ids are unique.
pub suspend-reinstate :
    (gid target requester : ℕ) (db : Db) {db' : Db} {m r : Membership}
    → HasKeys db
    → suspend_member gid target requester db ≡ ok (db', m)
    → find_membership gid target db.memberships ≡ some r
    → r.status ≡ MembershipStatus.active
    → (restored : Db) × (reinstate_member gid target requester db' ≡ ok (restored, r))
      × (restored.memberships ≡ db.memberships)
unfolding reinstate_member
suspend-reinstate gid target requester db {db'} {m} {r} keys e found_row was = (
  emit (notified target NotificationType.member_reinstated)
      (record db' { memberships = save_membership r db'.memberships }),
  ground (arith, group_now, requester_now, target_now, s.allowed),
  restored_rows,
)
  where
    s : Suspended gid target requester db db'
    s = suspend_member-Suspended gid target requester db e keys

    idle : Membership
    idle = record r { status = MembershipStatus.suspended }

    same_row : s.row ≡ r
    same_row = ground (arith, s.member)

    stored : db'.memberships ≡ save_membership idle db.memberships
    stored = ground (arith, s.written, same_row)

    row_key : is_member gid target r ≡ true
    row_key = find-holds (is_member gid target) db.memberships found_row

    target_now : find_membership gid target db'.memberships ≡ some idle
    target_now =
        ap (find_membership gid target) stored
        ∙ find-save (λ (x : Membership). x.id) (is_member gid target) db.memberships idle found_row
            refl row_key keys

    requester_now : find_membership gid requester db'.memberships ≡ some s.admin
    requester_now =
        ap (find_membership gid requester) stored
        ∙ find-save_other (λ (x : Membership). x.id) (is_member gid requester)
            (is_member gid target) db.memberships idle found_row refl
            (ground (arith, row_key, s.other)) (ground (arith, row_key, s.other)) keys
        ∙ s.requested

    group_now : find_group gid db'.groups ≡ some s.group
    group_now = ap (find_group gid) s.groups_kept ∙ s.found

    restored_rows : save_membership r db'.memberships ≡ db.memberships
    restored_rows =
        ap (save_membership r) stored
        ∙ save_back (λ (x : Membership). x.id) (is_member gid target) db.memberships idle found_row
            refl keys

-- A suspension changes the number of membership rows of no group; membership ids are unique.
pub suspend_member-count :
    (gid target requester h : ℕ) (db : Db) {db' : Db} {m : Membership}
    → HasKeys db
    → suspend_member gid target requester db ≡ ok (db', m)
    → member_count h db'.memberships ≡ member_count h db.memberships
suspend_member-count gid target requester h db {db'} {m} keys e =
    let s = suspend_member-Suspended gid target requester db e keys in
    ground (
      arith,
      ap (member_count h) s.written,
      count-save (λ (x : Membership). x.id) (in_group h) (is_member gid target) db.memberships
          (record s.row { status = MembershipStatus.suspended }) s.member refl keys,
    )

-- What a successful `reinstateMember` writes.
pub reinstate_member-written :
    (gid target requester : ℕ) (db : Db) {db' : Db} {m : Membership}
    → reinstate_member gid target requester db ≡ ok (db', m)
    → (row : Membership) × (find_membership gid target db.memberships ≡ some row)
      × (db'.groups ≡ db.groups)
      × (db'.memberships
          ≡ save_membership (record row { status = MembershipStatus.active }) db.memberships)
unfolding reinstate_member
reinstate_member-written gid target requester db e =
    elim (Option-cases (find_group gid db.groups)) [
      | inl unknown ↦ absurd (ground arith)
      | inr (g, f) ↦ elim (Option-cases (find_membership gid requester db.memberships)) [
        | inl unknown ↦ absurd (ground arith)
        | inr (a, fa) ↦ elim (Option-cases (find_membership gid target db.memberships)) [
          | inl unknown ↦ absurd (ground arith)
          | inr (r, fr) ↦ (r, fr, ground arith, ground arith)
        ]
      ]
    ]
