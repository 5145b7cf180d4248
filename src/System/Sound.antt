-- ===== src/System/Sound.antt =====
-- No run of the services takes a group past its capacity, or gives two members one id.
use ahjoor_backend.Common.{
  ℕ, ◌+◌, ◌≤◌, ◌≡◌, refl, ap, sym, ◌∙◌, subst, arith, none, some, List, [], ◌∷◌, ◌++◌, find,
  filter_by, count_by, ok, Option, Option-cases, inl, inr, not, find-none-count, count_by-append,
  count_by-filter-le, count-save, leb, Bool-cases,
}
use ahjoor_backend.Entities.{
  Membership, MembershipStatus, Db, WaitlistEntry, find_group, find_membership, member_count,
  in_group, is_member, has_id, save_membership, next_order, max_payout_order,
}
use ahjoor_backend.Memberships.{InsertOutcome, add_member}
use ahjoor_backend.Memberships.Capacity.{
  WithinCapacity, add_member-Added, add_member-WithinCapacity, remove_member-Removed,
}
use ahjoor_backend.Memberships.Orders.{HasKeys, leave_group-Left, resequence-keeps}
use ahjoor_backend.Memberships.Payouts.{record_payout-Paid}
use ahjoor_backend.Memberships.Suspension.{suspend_member-Suspended, reinstate_member-written}
use ahjoor_backend.Waitlist.{admit_in_transaction}
use ahjoor_backend.Waitlist.Batch.{
  admitted_rows, admit_in_transaction-Admitted, admit_in_transaction-missing, admitted_rows-id,
  admitted_rows-once,
}
use ahjoor_backend.Waitlist.Admission.{admit-WithinCapacity}
use ahjoor_backend.Waitlist.Positions.{join_waitlist-keeps, leave_waitlist-keeps}
use ahjoor_backend.System.{
  IsFresh, ◌⟶◌, adds, removes, leaves, records, suspends, reinstates, admits, joins, gives_up, ◌⟶*◌,
  here, after,
}

pub record IsSound (db : Db) : Type 0 where
  pub capacity : WithinCapacity db
  pub keys : HasKeys db

-- Fewer rows, or as many, in every group and under every id.
record Shrinks (db db' : Db) : Type 0 where
  same : db'.groups ≡ db.groups
  members : (h : ℕ) → member_count h db'.memberships ≤ member_count h db.memberships
  ids : (i : ℕ) → count_by (has_id i) db'.memberships ≤ count_by (has_id i) db.memberships

Shrinks-IsSound : (db db' : Db) → Shrinks db db' → IsSound db → IsSound db'
Shrinks-IsSound db db' s v = record {
  capacity =
      λ h g f. omega (arith, s.members h, v.capacity h g (ap (find_group h) (sym s.same) ∙ f));
  keys = λ i. omega (arith, s.ids i, v.keys i);
}

-- Saving a found row with its id and group.
save-Shrinks :
    (gid uid : ℕ) (db db' : Db) {m : Membership} (r : Membership)
    → find_membership gid uid db.memberships ≡ some m
    → r.id ≡ m.id
    → r.group_id ≡ m.group_id
    → HasKeys db
    → db'.groups ≡ db.groups
    → db'.memberships ≡ save_membership r db.memberships
    → Shrinks db db'
save-Shrinks gid uid db db' {m} r f k g keys same written = record {
  same = same;
  members = λ h. ground (
    arith,
    g,
    ap (member_count h) written,
    count-save (λ (x : Membership). x.id) (in_group h) (is_member gid uid) db.memberships r f k
        keys,
  );
  ids = λ i. ground (
    arith,
    k,
    ap (count_by (has_id i)) written,
    count-save (λ (x : Membership). x.id) (has_id i) (is_member gid uid) db.memberships r f k keys,
  );
}

-- New rows under fresh ids keep the ids unique.
admitted-HasKeys :
    (ids : ℕ → ℕ) (gid order : ℕ) (es : List WaitlistEntry) (db db' : Db)
    → IsFresh ids db
    → db'.memberships ≡ db.memberships ++ admitted_rows ids gid order es
    → HasKeys db
    → HasKeys db'
admitted-HasKeys ids gid order es db db' f grown keys i =
    let rows : List Membership = admitted_rows ids gid order es in
    let total : count_by (has_id i) db'.memberships
        ≡ count_by (has_id i) db.memberships + count_by (has_id i) rows =
      ap (count_by (has_id i)) grown ∙ count_by-append (has_id i) db.memberships rows in
    elim (Bool-cases (leb 1 (count_by (has_id i) rows))) [
      | inr few ↦ ground (arith, total, keys i)
      | inl some_row ↦
          let (n, at) = admitted_rows-id ids gid order i es (ground arith) in
          ground (
            arith,
            total,
            at,
            admitted_rows-once ids gid order n es f.different,
            ap (λ j. count_by (has_id j) db.memberships) at,
            ap (λ j. count_by (has_id j) rows) at,
            find-none-count (has_id (ids n)) db.memberships (f.unused n),
          )
    ]

add_member-HasKeys :
    (gid uid wallet id : ℕ) (outcome : InsertOutcome) (db : Db) {db' : Db} {m : Membership}
    → find (has_id id) db.memberships ≡ none
    → add_member gid uid wallet id outcome db ≡ ok (db', m)
    → HasKeys db
    → HasKeys db'
unfolding count_by
add_member-HasKeys gid uid wallet id outcome db {db'} {m} free e keys i =
    let a = add_member-Added gid uid wallet id outcome db e in
    ground (
      arith,
      keys i,
      a.row,
      ap (λ (d : Db). count_by (has_id i) d.memberships) a.written,
      count_by-append (has_id i) db.memberships (m ∷ []),
      find-none-count (has_id id) db.memberships free,
    )

waitlist_only :
    (db db' : Db) → db'.groups ≡ db.groups → db'.memberships ≡ db.memberships → Shrinks db db'
waitlist_only db db' g m = record {
  same = g;
  members = λ h. omega (arith, ap (member_count h) m);
  ids = λ i. omega (arith, ap (count_by (has_id i)) m);
}

admit-HasKeys :
    (ids : ℕ → ℕ) (gid : ℕ) (cap : Option ℕ) (es : List WaitlistEntry) (db : Db) {db' : Db}
    → IsFresh ids db
    → admit_in_transaction ids gid cap db ≡ ok (db', es)
    → HasKeys db
    → HasKeys db'
admit-HasKeys ids gid cap es db {db'} f e keys = elim (Option-cases (find_group gid db.groups)) [
  | inl missing ↦ subst HasKeys (sym (admit_in_transaction-missing ids gid cap db missing e)) keys
  | inr (g, fg) ↦
      let (_, a) = admit_in_transaction-Admitted ids gid cap db fg e in
      admitted-HasKeys ids gid (next_order (max_payout_order gid db.memberships)) es db db' f
        a.grown keys
]

step-IsSound : {db db' : Db} → db ⟶ db' → IsSound db → IsSound db'
step-IsSound {db} (adds gid uid wallet id outcome m free e) v = record {
  capacity = add_member-WithinCapacity gid uid wallet id outcome db e v.capacity;
  keys = add_member-HasKeys gid uid wallet id outcome db free e v.keys;
}
step-IsSound {db} {db'} (removes gid uid e) v =
    let r = remove_member-Removed gid uid db e in
    let kept = λ (x : Membership). not (has_id r.row.id x) in
    Shrinks-IsSound db db'
      (record {
        same = r.same;
        members = λ h. omega (
          arith,
          ap (member_count h) r.shrunk,
          count_by-filter-le (in_group h) kept db.memberships,
        );
        ids = λ i. omega (
          arith,
          ap (count_by (has_id i)) r.shrunk,
          count_by-filter-le (has_id i) kept db.memberships,
        );
      })
      v
step-IsSound {db} {db'} (leaves gid uid e) v =
    let l = leave_group-Left gid uid db e in
    let kept = λ (x : Membership). not (has_id l.row.id x) in
    let rest : List Membership = filter_by kept db.memberships in
    Shrinks-IsSound db db'
      (record {
        same = l.groups_kept;
        members = λ h. omega (
          arith,
          ap (member_count h) l.written,
          resequence-keeps (in_group h) gid l.row.payout_order rest (λ m k. refl),
          count_by-filter-le (in_group h) kept db.memberships,
        );
        ids = λ i. omega (
          arith,
          ap (count_by (has_id i)) l.written,
          resequence-keeps (has_id i) gid l.row.payout_order rest (λ m k. refl),
          count_by-filter-le (has_id i) kept db.memberships,
        );
      })
      v
step-IsSound {db} {db'} (records gid uid hash m e) v =
    let p = record_payout-Paid gid uid hash db e in
    Shrinks-IsSound db db'
      (save-Shrinks gid uid db db' m p.member (ap (λ (x : Membership). x.id) p.result)
        (ap (λ (x : Membership). x.group_id) p.result) v.keys p.groups_kept p.written)
      v
step-IsSound {db} {db'} (suspends gid target requester m e) v =
    let s = suspend_member-Suspended gid target requester db e v.keys in
    Shrinks-IsSound db db'
      (save-Shrinks gid target db db' (record s.row { status = MembershipStatus.suspended })
        s.member refl refl v.keys s.groups_kept s.written)
      v
step-IsSound {db} {db'} (reinstates gid target requester m e) v =
    let (row, found, same, written) = reinstate_member-written gid target requester db e in
    Shrinks-IsSound db db'
      (save-Shrinks gid target db db' (record row { status = MembershipStatus.active }) found refl
        refl v.keys same written)
      v
step-IsSound {db} (admits ids gid cap es f e) v = record {
  capacity = admit-WithinCapacity ids gid cap db e v.capacity;
  keys = admit-HasKeys ids gid cap es db f e v.keys;
}
step-IsSound {db} {db'} (joins limit gid uid wallet id pos e) v =
    let (g, m) = join_waitlist-keeps limit gid uid wallet id pos db e in
    Shrinks-IsSound db db' (waitlist_only db db' g m) v
step-IsSound {db} {db'} (gives_up gid uid e) v =
    let (g, m) = leave_waitlist-keeps gid uid db e in
    Shrinks-IsSound db db' (waitlist_only db db' g m) v

-- From a state in which no group has more members than its maxMembers and no two memberships
-- share an id, every sequence of successful calls that add, remove, suspend, reinstate, pay or
-- admit members, let them leave, or join and leave the waitlist, leads to such a state again; new
-- rows have fresh ids.
pub reachable-IsSound : {db db' : Db} → db ⟶* db' → IsSound db → IsSound db'
reachable-IsSound here v = v
reachable-IsSound (after s run) v = reachable-IsSound run (step-IsSound s v)
