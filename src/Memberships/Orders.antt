-- ===== src/Memberships/Orders.antt =====
-- MembershipsService and payout orders: `leaveGroup` closes the gap, `addMember` goes to the end.
use ahjoor_backend.Common.{
  find-not-counted, subst, sym, ◌∙◌, ℕ, suc, ◌+◌, ◌-◌, ◌≤◌, ◌==◌, ◌≡◌, refl, ap, arith, ltb,
  if◌then◌else◌, Bool, true, false, not, ◌&&◌, Option, none, some, List, [], ◌∷◌, count_by,
  filter_by, update_where, count_by-append, count_by-update, find-holds, HasUniqueKeys, ok,
  Option-cases, inl, inr, count-delete,
}
use ahjoor_backend.Entities.{
  Group, Membership, Db, find_group, find_membership, member_count, in_group, is_member, has_id,
  is_none, is_sequential, max_payout_order, next_order,
}
use ahjoor_backend.Memberships.{
  leave_group, add_member, InsertOutcome, resequence, move_up, number_of, assigned_order,
}
use ahjoor_backend.Memberships.Capacity.{add_member-Added}

abbrev pub has_order : ℕ → Option ℕ → Bool
has_order k none = false
has_order k (some j) = j == k

-- How many members of the group hold payout order `k`, and how many hold none.
abbrev pub order_count : ℕ → ℕ → List Membership → ℕ
order_count gid k = count_by (λ m. in_group gid m && has_order k m.payout_order)

abbrev pub unordered : ℕ → List Membership → ℕ
unordered gid = count_by (λ m. in_group gid m && is_none m.payout_order)

-- The orders of the group's n members are 0, 1, …, n - 1, each held once.
pub record IsSequence (gid : ℕ) (ms : List Membership) : Type 0 where
  pub ordered : unordered gid ms ≡ 0
  pub once : (k : ℕ) → order_count gid k ms ≡ (if ltb k (member_count gid ms) then 1 else 0)

abbrev pub HasKeys : Db → Type 0
HasKeys db = HasUniqueKeys (λ (m : Membership). m.id) db.memberships

resequence-count :
    (gid d k : ℕ) (ms : List Membership)
    → unordered gid ms ≡ 0
    → order_count gid d ms ≡ 0
    → order_count gid k (resequence gid (some d) ms)
      ≡ (if ltb k d then order_count gid k ms else order_count gid (suc k) ms)
unfolding resequence count_by update_where
resequence-count gid d k [] e z = ground arith
resequence-count gid d k (m ∷ ms) e z = ground (arith, resequence-count gid d k ms)

resequence-unordered :
    (gid : ℕ) (d : Option ℕ) (ms : List Membership)
    → unordered gid ms ≡ 0
    → unordered gid (resequence gid d ms) ≡ 0
unfolding resequence count_by update_where
resequence-unordered gid d [] e = refl
resequence-unordered gid d (m ∷ ms) e = ground (arith, resequence-unordered gid d ms)

resequence-members :
    (gid : ℕ) (d : Option ℕ) (ms : List Membership)
    → member_count gid (resequence gid d ms) ≡ member_count gid ms
unfolding resequence
resequence-members gid d ms = count_by-update (in_group gid) _ move_up ms (λ m e. refl)

-- The loop keeps every count that does not read the orders.
pub resequence-keeps :
    (p : Membership → Bool) (gid : ℕ) (d : Option ℕ) (ms : List Membership)
    → ((m : Membership) (k : ℕ) → p (record m { payout_order = some k }) ≡ p m)
    → count_by p (resequence gid d ms) ≡ count_by p ms
unfolding resequence
resequence-keeps p gid d ms h =
    count_by-update p _ move_up ms (λ m e. h m (number_of m.payout_order - 1))

-- What a successful `leaveGroup` has found and written.
pub record Left (gid uid : ℕ) (db db' : Db) : Type 0 where
  pub row : Membership
  pub found : find_membership gid uid db.memberships ≡ some row
  pub groups_kept : db'.groups ≡ db.groups
  pub written :
      db'.memberships
      ≡ resequence gid row.payout_order (filter_by (λ x. not (has_id row.id x)) db.memberships)

pub leave_group-Left :
    (gid uid : ℕ) (db : Db) {db' : Db} → leave_group gid uid db ≡ ok db' → Left gid uid db db'
unfolding leave_group
leave_group-Left gid uid db e = elim (Option-cases (find_membership gid uid db.memberships)) [
  | inl unknown ↦ absurd (ground arith)
  | inr (m, f) ↦ record { row = m; found = f; groups_kept = ground arith; written = ground arith }
]

-- Taking a row out of the table and moving the later ones up keeps the sequence.
delete-resequence-IsSequence :
    (gid uid d : ℕ) (ms : List Membership) {row : Membership}
    → find_membership gid uid ms ≡ some row
    → row.payout_order ≡ some d
    → HasUniqueKeys (λ (m : Membership). m.id) ms
    → IsSequence gid ms
    → IsSequence gid (resequence gid (some d) (filter_by (λ x. not (has_id row.id x)) ms))
delete-resequence-IsSequence gid uid d ms {row} found at keys s = record {
  ordered = resequence-unordered gid (some d) rest blank_gone;
  once = λ k. ground (
    arith,
    find-holds (is_member gid uid) ms {x = row} found,
    resequence-count gid d k rest blank_gone none_at_d,
    resequence-members gid (some d) rest,
    taken (in_group gid),
    taken (holds k),
    taken (holds d),
    taken (holds (suc k)),
    s.once k,
    s.once (suc k),
    s.once d,
  );
}
  where
    rest : List Membership
    rest = filter_by (λ x. not (has_id row.id x)) ms

    blank : Membership → Bool
    blank m = in_group gid m && is_none m.payout_order

    holds : ℕ → Membership → Bool
    holds k m = in_group gid m && has_order k m.payout_order

    taken : (p : Membership → Bool) → count_by p rest + (if p row then 1 else 0) ≡ count_by p ms
    taken p = count-delete (λ (m : Membership). m.id) p (is_member gid uid) ms found keys

    blank_gone : unordered gid rest ≡ 0
    blank_gone = ground (arith, taken blank, s.ordered)

    none_at_d : order_count gid d rest ≡ 0
    none_at_d =
        ground (arith, taken (holds d), s.once d, find-holds (is_member gid uid) ms {x = row} found)

-- When a member leaves a pending group, the payout orders of those who stay are again 0, 1, …, n
-- - 1, each held once, if they were so before and membership ids are unique.
pub leave_group-IsSequence :
    (gid uid : ℕ) (db : Db) {db' : Db}
    → leave_group gid uid db ≡ ok db'
    → HasKeys db
    → IsSequence gid db.memberships
    → IsSequence gid db'.memberships
leave_group-IsSequence gid uid db {db'} e keys s =
    let l = leave_group-Left gid uid db e in
    elim (Option-cases l.row.payout_order) [
      | inl blank ↦ absurd (
          ground (
            arith,
            s.ordered,
            find-holds (is_member gid uid) db.memberships l.found,
            find-not-counted (is_member gid uid) (λ m. in_group gid m && is_none m.payout_order)
                db.memberships l.found s.ordered,
          ))
      | inr (d, at) ↦
          subst (IsSequence gid)
            (sym (
              l.written
              ∙ ap (λ o. resequence gid o (filter_by (λ x. not (has_id l.row.id x)) db.memberships))
                  at))
            (delete-resequence-IsSequence gid uid d db.memberships l.found at keys s)
    ]

-- SQL MAX: some row holds the largest order, and none holds a larger one.
max_payout_order-largest :
    (gid k : ℕ) (ms : List Membership)
    → next_order (max_payout_order gid ms) ≤ k
    → order_count gid k ms ≡ 0
unfolding max_payout_order count_by
max_payout_order-largest gid k [] h = refl
max_payout_order-largest gid k (m ∷ ms) h = ground (arith, max_payout_order-largest gid k ms)

max_payout_order-held :
    (gid : ℕ) {top : ℕ} (ms : List Membership)
    → max_payout_order gid ms ≡ some top
    → 1 ≤ order_count gid top ms
unfolding max_payout_order count_by
max_payout_order-held gid [] h = ground arith
max_payout_order-held gid {top} (m ∷ ms) h = elim (Option-cases (max_payout_order gid ms)) [
  | inl empty ↦ ground arith
  | inr (t, e) ↦ ground (arith, max_payout_order-held gid {top = t} ms e)
]

next_order-IsSequence :
    (gid : ℕ) (ms : List Membership)
    → IsSequence gid ms
    → next_order (max_payout_order gid ms) ≡ member_count gid ms
next_order-IsSequence gid ms s = elim (Option-cases (max_payout_order gid ms)) [
  | inl empty ↦ ground (arith, max_payout_order-largest gid 0 ms, s.once 0)
  | inr (top, e) ↦ ground (
    arith,
    max_payout_order-held gid ms e,
    max_payout_order-largest gid (top + 1) ms,
    s.once top,
    s.once (top + 1),
  )
]

-- In a SEQUENTIAL group whose payout orders are 0, 1, …, n - 1, a successful addMember leaves the
-- orders 0, 1, …, n, each held once.
pub add_member-IsSequence :
    (gid uid wallet id : ℕ) (outcome : InsertOutcome) (db : Db) {g : Group} {db' : Db}
    {m : Membership}
    → find_group gid db.groups ≡ some g
    → is_sequential g.payout_order_strategy ≡ true
    → add_member gid uid wallet id outcome db ≡ ok (db', m)
    → IsSequence gid db.memberships
    → IsSequence gid db'.memberships
unfolding assigned_order count_by
add_member-IsSequence gid uid wallet id outcome db {g} {db'} {m} found seq e s =
    let a = add_member-Added gid uid wallet id outcome db e in
    let grown = ap (λ d. d.memberships) a.written in
    let order : m.payout_order ≡ some (member_count gid db.memberships) =
      ground (arith, a.row, a.found, next_order-IsSequence gid db.memberships s) in
    record {
      ordered = ground (
        arith,
        a.row,
        order,
        s.ordered,
        ap (unordered gid) grown,
        count_by-append (λ x. in_group gid x && is_none x.payout_order) db.memberships (m ∷ []),
      );
      once = λ k. ground (
        arith,
        a.row,
        order,
        s.once k,
        ap (order_count gid k) grown,
        ap (member_count gid) grown,
        count_by-append (in_group gid) db.memberships (m ∷ []),
        count_by-append (λ x. in_group gid x && has_order k x.payout_order) db.memberships (m ∷ []),
      );
    }
