-- ===== src/Waitlist/Admission.antt =====
-- WaitlistService.admitFromWaitlistInTransaction: how many are admitted, who, and that they fit.
use ahjoor_backend.Common.{
  ℕ, ◌+◌, ◌-◌, ◌≤◌, ◌≡◌, ap, subst, sym, arith, min, ◌&&◌, List, count_by, length, Option, none,
  some, Option-cases, inl, inr, ok, filter_by, count_by-filter, count_by-append, length-filter,
  ==_refl,
}
use ahjoor_backend.Entities.{
  Group, Membership, WaitlistEntry, Db, find_group, member_count, in_group, max_payout_order,
  next_order,
}
use ahjoor_backend.Memberships.Capacity.{WithinCapacity, count-in_group, extend-WithinCapacity}
use ahjoor_backend.Waitlist.{admit_in_transaction, admission_limit, waits_in, waiting_count}
use ahjoor_backend.Waitlist.Queue.{
  is_by, count-take_sorted, sort-IsSortedFrom, count-sort, length-take, length-sort,
}
use ahjoor_backend.Waitlist.Batch.{
  admitted_rows, queue_of, limit_of, admit_in_transaction-Admitted, admitted_rows-all,
  length-admitted_rows,
}

limit_of-le :
    (gid : ℕ) (g : Group) (cap : Option ℕ) (db : Db)
    → limit_of gid g cap db ≤ g.max_members - member_count gid db.memberships
limit_of-le gid g none db = omega arith
limit_of-le gid g (some n) db = omega arith

-- An admission from the waitlist that commits keeps every group within its maxMembers, if all
-- were so before.
pub admit-WithinCapacity :
    (fresh : ℕ → ℕ) (gid : ℕ) (cap : Option ℕ) (db : Db) {db' : Db} {es : List WaitlistEntry}
    → admit_in_transaction fresh gid cap db ≡ ok (db', es)
    → WithinCapacity db
    → WithinCapacity db'
unfolding admit_in_transaction
admit-WithinCapacity fresh gid cap db {db'} {es} e inv =
    elim (Option-cases (find_group gid db.groups)) [
      | inl missing ↦ let kept : db' ≡ db = ground arith in subst WithinCapacity (sym kept) inv
      | inr (g, f) ↦
          let (taken, a) = admit_in_transaction-Admitted fresh gid cap db f e in
          let order : ℕ = next_order (max_payout_order gid db.memberships) in
          extend-WithinCapacity db db' gid (admitted_rows fresh gid order es) f a.groups_kept
            a.grown (admitted_rows-all fresh gid order es)
            (ground (
              arith,
              inv gid g f,
              length-admitted_rows fresh gid order es,
              ap length taken,
              length-take (limit_of gid g cap db) (queue_of gid db),
              limit_of-le gid g cap db,
            ))
            inv
    ]

-- With no cap, a committed admission into a group admits as many as there are free slots or
-- waiting users, whichever is less, and the group has that many members more.
pub admit-count :
    (fresh : ℕ → ℕ) (gid : ℕ) (db : Db) {g : Group} {db' : Db} {es : List WaitlistEntry}
    → find_group gid db.groups ≡ some g
    → admit_in_transaction fresh gid none db ≡ ok (db', es)
    → (length es
        ≡ min (g.max_members - member_count gid db.memberships) (waiting_count gid db.waitlist))
      × (member_count gid db'.memberships ≡ member_count gid db.memberships + length es)
admit-count fresh gid db {g} {db'} {es} f e =
    let (taken, a) = admit_in_transaction-Admitted fresh gid none db f e in
    let order : ℕ = next_order (max_payout_order gid db.memberships) in
    let rows : List Membership = admitted_rows fresh gid order es in
    (
      ground (
        arith,
        ap length taken,
        length-take (limit_of gid g none db) (queue_of gid db),
        length-sort (filter_by (waits_in gid) db.waitlist),
        length-filter (waits_in gid) db.waitlist,
      ),
      ground (
        arith,
        ap (member_count gid) a.grown,
        count_by-append (in_group gid) db.memberships rows,
        count-in_group gid gid rows (admitted_rows-all fresh gid order es),
        ==_refl gid,
        length-admitted_rows fresh gid order es,
      ),
    )

-- First come, first served: for every position p, the users admitted from positions up to p are
-- as many as wait there, or as the limit of the call allows, whichever is less.
pub admit_lowest_positions :
    (fresh : ℕ → ℕ) (gid : ℕ) (cap : Option ℕ) (db : Db) {g : Group} {db' : Db}
    {es : List WaitlistEntry}
    → find_group gid db.groups ≡ some g
    → admit_in_transaction fresh gid cap db ≡ ok (db', es)
    → (p : ℕ)
    → count_by (is_by p) es
      ≡ min
          (admission_limit (g.max_members - member_count gid db.memberships) cap)
          (count_by (λ w. waits_in gid w && is_by p w) db.waitlist)
admit_lowest_positions fresh gid cap db {g} f e p =
    let (taken, _) = admit_in_transaction-Admitted fresh gid cap db f e in
    let waiting : List WaitlistEntry = filter_by (waits_in gid) db.waitlist in
    ground (
      arith,
      ap (count_by (is_by p)) taken,
      count-take_sorted p 0 (limit_of gid g cap db) (queue_of gid db) (sort-IsSortedFrom waiting),
      count-sort (is_by p) waiting,
      count_by-filter (is_by p) (waits_in gid) db.waitlist,
    )
