-- ===== src/Memberships.antt =====
-- ahjoorxmr/src/memberships/memberships.service.ts: who belongs to a group, in which payout order.
-- A handler gives the new database with its result; one that throws has written nothing.
pub mod Capacity
mod Tests
pub mod Orders
pub mod Payouts
pub mod Suspension
use ahjoor_backend.Common.{
  ℕ, ◌+◌, ◌-◌, ◌==◌, ltb, leb, if◌then◌else◌, not, ◌&&◌, Bool, true, false, Option, none, some,
  List, [], ◌∷◌, ◌++◌, find, filter_by, update_where, Result, ok, err, HttpError, not_found,
  bad_request, forbidden, conflict, internal_error, ◌>>=◌, ◌>>◌, throw_if, or_throw,
}
use ahjoor_backend.Entities.{
  Group, Membership, MembershipStatus, NotificationType, Effect, notified, admission_scheduled, Db,
  emit, is_active, is_pending, is_sequential, is_suspended, is_some, find_group, find_membership,
  in_group, member_count, has_id, save_membership, max_payout_order, next_order,
}

-- What the database answers to the INSERT: done, unique violation (23505), foreign key violation
-- (23503), or another failure.
pub data InsertOutcome : Type 0 where
  inserted unique_violation foreign_key_violation failed : InsertOutcome

abbrev pub new_membership : ℕ → ℕ → ℕ → ℕ → Option ℕ → Membership
new_membership id gid uid wallet order = record {
  id = id;
  group_id = gid;
  user_id = uid;
  wallet_address = wallet;
  payout_order = order;
  has_received_payout = false;
  has_paid_current_round = false;
  transaction_hash = none;
  status = MembershipStatus.active;
}

-- The `save` that ends the transaction, and the `catch` around it.
pub insert_membership : InsertOutcome → Membership → Db → Result (Db × Membership)
insert_membership inserted m db = ok (record db { memberships = db.memberships ++ m ∷ [] }, m)
insert_membership unique_violation m db = err conflict
insert_membership foreign_key_violation m db = err bad_request
insert_membership failed m db = err internal_error

unfoldable pub assigned_order : ℕ → Group → Db → Option ℕ
assigned_order gid group db =
    if is_sequential group.payout_order_strategy
    then some (next_order (max_payout_order gid db.memberships))
    else none

-- Capacity check and insert run in one transaction under the group's row lock.
unfoldable pub add_member : ℕ → ℕ → ℕ → ℕ → InsertOutcome → Db → Result (Db × Membership)
unfolding insert_membership
add_member gid uid wallet id outcome db = do
  group ← or_throw (find_group gid db.groups) not_found
  throw_if (is_active group.status) bad_request
  throw_if (leb group.max_members (member_count gid db.memberships)) bad_request
  throw_if (is_some (find_membership gid uid db.memberships)) conflict
  insert_membership outcome (new_membership id gid uid wallet (assigned_order gid group db)) db

pub validate_group_not_active : ℕ → Db → Result Group
validate_group_not_active gid db = do
  group ← or_throw (find_group gid db.groups) not_found
  throw_if (is_active group.status) bad_request
  ok group

-- `remove(membership)`: DELETE by primary key.
abbrev pub delete_membership : Membership → Db → Db
delete_membership m db = record db {
  memberships = filter_by (λ x. not (has_id m.id x)) db.memberships;
}

unfoldable pub remove_member : ℕ → ℕ → Db → Result Db
unfolding validate_group_not_active
remove_member gid uid db = do
  validate_group_not_active gid db
  membership ← or_throw (find_membership gid uid db.memberships) not_found
  ok (emit (admission_scheduled gid) (delete_membership membership db))

-- `member.payoutOrder > departingPayoutOrder`: JavaScript reads null as 0 there.
abbrev pub number_of : Option ℕ → ℕ
number_of none = 0
number_of (some k) = k

abbrev pub comes_after : Option ℕ → Option ℕ → Bool
comes_after departing order = ltb (number_of departing) (number_of order)

abbrev pub move_up : Membership → Membership
move_up m = record m { payout_order = some (number_of m.payout_order - 1) }

-- The loop that closes the gap. Each row is saved under its own id.
pub resequence : ℕ → Option ℕ → List Membership → List Membership
resequence gid departing =
    update_where (λ m. in_group gid m && comes_after departing m.payout_order) move_up

pub leave_group : ℕ → ℕ → Db → Result Db
unfolding resequence
leave_group gid uid db = do
  group ← or_throw (find_group gid db.groups) not_found
  throw_if (not (is_pending group.status)) bad_request
  membership ← or_throw (find_membership gid uid db.memberships) not_found
  let left = emit (admission_scheduled gid) (delete_membership membership db)
  let sequenced = resequence gid membership.payout_order left.memberships
  ok (emit (notified uid NotificationType.member_left) (record left { memberships = sequenced }))

-- `payoutOrder === currentRound - 1`, with an integer difference that may be -1.
abbrev pub is_due : ℕ → Option ℕ → Bool
is_due round none = false
is_due round (some k) = k + 1 == round

pub get_current_recipient : ℕ → Db → Result Membership
get_current_recipient gid db = do
  group ← or_throw (find_group gid db.groups) not_found
  throw_if (not (is_active group.status)) bad_request
  or_throw (find (λ m. in_group gid m && is_due group.current_round m.payout_order) db.memberships)
      not_found

pub record_payout : ℕ → ℕ → ℕ → Db → Result (Db × Membership)
record_payout gid uid hash db = do
  group ← or_throw (find_group gid db.groups) not_found
  throw_if (not (is_active group.status)) bad_request
  m ← or_throw (find_membership gid uid db.memberships) not_found
  throw_if m.has_received_payout conflict
  throw_if (not (is_due group.current_round m.payout_order)) bad_request
  let paid = record m { has_received_payout = true; transaction_hash = some hash }
  let saved = record db { memberships = save_membership paid db.memberships }
  ok (emit (notified uid NotificationType.payout_received) saved, paid)

-- The requester is a member of the group whose wallet is the group's admin wallet.
pub check_admin : Group → ℕ → ℕ → Db → Result (Unit {0})
check_admin group gid requester db = do
  mine ← or_throw (find_membership gid requester db.memberships) forbidden
  throw_if (not (group.admin_wallet == mine.wallet_address)) forbidden

pub suspend_member : ℕ → ℕ → ℕ → Db → Result (Db × Membership)
unfolding check_admin
suspend_member gid target requester db = do
  throw_if (target == requester) forbidden
  group ← or_throw (find_group gid db.groups) not_found
  check_admin group gid requester db
  m ← or_throw (find_membership gid target db.memberships) not_found
  let changed = record m { status = MembershipStatus.suspended }
  let saved = record db { memberships = save_membership changed db.memberships }
  let told = emit (notified target NotificationType.member_suspended) saved
  ok (if is_suspended m.status then (db, m) else (emit (admission_scheduled gid) told, changed))

pub reinstate_member : ℕ → ℕ → ℕ → Db → Result (Db × Membership)
unfolding check_admin
reinstate_member gid target requester db = do
  group ← or_throw (find_group gid db.groups) not_found
  check_admin group gid requester db
  m ← or_throw (find_membership gid target db.memberships) not_found
  let changed = record m { status = MembershipStatus.active }
  let saved = record db { memberships = save_membership changed db.memberships }
  ok (emit (notified target NotificationType.member_reinstated) saved, changed)
