-- ===== src/Memberships/Capacity.antt =====
-- MembershipsService and the size of a group: no member beyond maxMembers, nobody twice.
use ahjoor_backend.Common.{
  ℕ, ◌+◌, ◌≤◌, ◌<◌, ◌==◌, ◌≡◌, arith, true, none, some, List, [], ◌∷◌, ◌++◌, count_by, all_of,
  length, filter_by, count_by-append, count_by-filter-le, find-none-count, ok, Option-cases, inl,
  inr, not, if◌then◌else◌, ap, ==_refl, err, not_found,
}
use ahjoor_backend.Entities.{
  Group, Membership, Db, find_group, find_membership, member_count, is_member, in_group, has_id,
}
use ahjoor_backend.Memberships.{
  InsertOutcome, add_member, remove_member, new_membership, assigned_order,
}

-- No group has more membership rows than `maxMembers`.
abbrev pub WithinCapacity : Db → Type 0
WithinCapacity db =
    (gid : ℕ) (g : Group)
    → find_group gid db.groups ≡ some g
    → member_count gid db.memberships ≤ g.max_members

-- The unique index on (groupId, userId).
abbrev pub Distinct : Db → Type 0
Distinct db = (gid uid : ℕ) → count_by (is_member gid uid) db.memberships ≤ 1

-- What a successful `addMember` has checked and written.
pub record Added (gid uid wallet id : ℕ) (db db' : Db) (m : Membership) : Type 0 where
  pub group : Group
  pub found : find_group gid db.groups ≡ some group
  pub room : member_count gid db.memberships < group.max_members
  pub fresh : find_membership gid uid db.memberships ≡ none
  pub row : m ≡ new_membership id gid uid wallet (assigned_order gid group db)
  pub written : db' ≡ record db { memberships = db.memberships ++ m ∷ [] }

pub add_member-Added :
    (gid uid wallet id : ℕ) (outcome : InsertOutcome) (db : Db) {db' : Db} {m : Membership}
    → add_member gid uid wallet id outcome db ≡ ok (db', m)
    → Added gid uid wallet id db db' m
unfolding add_member
add_member-Added gid uid wallet id outcome db e = elim (Option-cases (find_group gid db.groups)) [
  | inl unknown ↦ absurd (ground arith)
  | inr (g, f) ↦ record {
    group = g;
    found = f;
    room = ground arith;
    fresh = ground arith;
    row = ground arith;
    written = ground arith;
  }
]

pub count-in_group :
    (gid h : ℕ) (rows : List Membership)
    → all_of (in_group gid) rows ≡ true
    → member_count h rows ≡ (if gid == h then length rows else 0)
unfolding all_of count_by
count-in_group gid h [] e = ground arith
count-in_group gid h (r ∷ rows) e = ground (arith, count-in_group gid h rows)

-- New rows of one group that fit into it keep every group within its capacity.
pub extend-WithinCapacity :
    (db db' : Db) (gid : ℕ) {g : Group} (rows : List Membership)
    → find_group gid db.groups ≡ some g
    → db'.groups ≡ db.groups
    → db'.memberships ≡ db.memberships ++ rows
    → all_of (in_group gid) rows ≡ true
    → member_count gid db.memberships + length rows ≤ g.max_members
    → WithinCapacity db
    → WithinCapacity db'
extend-WithinCapacity db db' gid rows found same grown all fits inv h k e = ground (
  arith,
  inv h k,
  ap (member_count h) grown,
  ap (find_group h) same,
  count_by-append (in_group h) db.memberships rows,
  count-in_group gid h rows all,
)

-- A successful addMember keeps every group within its maxMembers, if all were so before.
pub add_member-WithinCapacity :
    (gid uid wallet id : ℕ) (outcome : InsertOutcome) (db : Db) {db' : Db} {m : Membership}
    → add_member gid uid wallet id outcome db ≡ ok (db', m)
    → WithinCapacity db
    → WithinCapacity db'
unfolding all_of
add_member-WithinCapacity gid uid wallet id outcome db {db'} {m} e inv =
    let a = add_member-Added gid uid wallet id outcome db e in
    extend-WithinCapacity db db' gid (m ∷ []) a.found (ap (λ d. d.groups) a.written)
      (ap (λ d. d.memberships) a.written) (rw (a.row, ==_refl gid)) (omega (arith, a.room)) inv

-- After `addMember` no user has two rows in one group, if none had before.
pub add_member-Distinct :
    (gid uid wallet id : ℕ) (outcome : InsertOutcome) (db : Db) {db' : Db} {m : Membership}
    → add_member gid uid wallet id outcome db ≡ ok (db', m)
    → Distinct db
    → Distinct db'
unfolding count_by
add_member-Distinct gid uid wallet id outcome db {db'} {m} e inv h k =
    let a = add_member-Added gid uid wallet id outcome db e in
    ground (
      arith,
      inv h k,
      a.row,
      ap (λ d. count_by (is_member h k) d.memberships) a.written,
      count_by-append (is_member h k) db.memberships (m ∷ []),
      find-none-count (is_member gid uid) db.memberships a.fresh,
    )

-- What a successful `removeMember` leaves behind.
pub record Removed (gid uid : ℕ) (db db' : Db) : Type 0 where
  pub row : Membership
  pub found : find_membership gid uid db.memberships ≡ some row
  pub same : db'.groups ≡ db.groups
  pub shrunk : db'.memberships ≡ filter_by (λ x. not (has_id row.id x)) db.memberships

pub remove_member-Removed :
    (gid uid : ℕ) (db : Db) {db' : Db} → remove_member gid uid db ≡ ok db' → Removed gid uid db db'
unfolding remove_member
remove_member-Removed gid uid db e = elim (Option-cases (find_membership gid uid db.memberships)) [
  | inl unknown ↦ absurd (ground arith)
  | inr (m, f) ↦ record { row = m; found = f; same = ground arith; shrunk = ground arith }
]

-- A `removeMember` that succeeds keeps every group within its capacity, and the unique index.
pub remove_member-keeps :
    (gid uid : ℕ) (db : Db) {db' : Db}
    → remove_member gid uid db ≡ ok db'
    → WithinCapacity db
    → Distinct db
    → WithinCapacity db' × Distinct db'
remove_member-keeps gid uid db e cap dist =
    let r = remove_member-Removed gid uid db e in
    (
      λ h g f. ground (
        arith,
        cap h g,
        ap (member_count h) r.shrunk,
        ap (find_group h) r.same,
        count_by-filter-le (in_group h) (λ x. not (has_id r.row.id x)) db.memberships,
      ),
      λ h k. ground (
        arith,
        dist h k,
        ap (count_by (is_member h k)) r.shrunk,
        count_by-filter-le (is_member h k) (λ x. not (has_id r.row.id x)) db.memberships,
      ),
    )

pub add_member-unknown :
    (gid uid wallet id : ℕ) (outcome : InsertOutcome) (db : Db)
    → find_group gid db.groups ≡ none
    → add_member gid uid wallet id outcome db ≡ err not_found
unfolding add_member
add_member-unknown gid uid wallet id outcome db f = ground arith
