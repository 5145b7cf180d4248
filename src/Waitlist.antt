-- ===== src/Waitlist.antt =====
-- ahjoorxmr/src/waitlist/waitlist.service.ts: the queue for a full group and the admission from it.
-- The indexes of the tables are those of the entities: one row for each (groupId, userId).
mod Tests
pub mod Admission
pub mod Batch
pub mod Positions
pub mod Queue
use ahjoor_backend.Common.{
  ℕ, suc, ◌+◌, ◌-◌, ◌==◌, min, ltb, leb, if◌then◌else◌, not, ◌&&◌, ◌||◌, Bool, Option, none, some,
  List, [], ◌∷◌, ◌++◌, map, find, filter_by, count_by, update_where, Result, ok, err, not_found,
  bad_request, conflict, forbidden, internal_error, ◌>>=◌, ◌>>◌, throw_if, or_throw, save_row,
}
use ahjoor_backend.Entities.{
  Group, Membership, WaitlistEntry, WaitlistStatus, NotificationType, Effect, notified, Db, is_some,
  is_waiting, find_group, find_membership, member_count, max_payout_order, next_order,
}
use ahjoor_backend.Memberships.{new_membership}

-- `where: { groupId, status: WAITING }` and the same with a user.
abbrev pub waits_in : ℕ → WaitlistEntry → Bool
waits_in gid w = w.group_id == gid && is_waiting w.status

abbrev pub waits : ℕ → ℕ → WaitlistEntry → Bool
waits gid uid w = w.user_id == uid && waits_in gid w

-- `where: { groupId, userId }`, the columns of the unique index.
abbrev pub is_entry : ℕ → ℕ → WaitlistEntry → Bool
is_entry gid uid w = w.group_id == gid && w.user_id == uid

abbrev pub waiting_count : ℕ → List WaitlistEntry → ℕ
waiting_count gid = count_by (waits_in gid)

abbrev pub save_entry : WaitlistEntry → List WaitlistEntry → List WaitlistEntry
save_entry = save_row (λ (w : WaitlistEntry). w.id)

-- INSERT: a second row for the same group and user violates the unique index, which nobody catches.
pub insert_entry : WaitlistEntry → Db → Result Db
insert_entry w db =
    if is_some (find (is_entry w.group_id w.user_id) db.waitlist)
    then err internal_error
    else ok (record db { waitlist = db.waitlist ++ w ∷ [] })

abbrev pub new_entry : ℕ → ℕ → ℕ → ℕ → ℕ → WaitlistEntry
new_entry gid uid wallet id position = record {
  id = id;
  group_id = gid;
  user_id = uid;
  wallet_address = wallet;
  position = position;
  status = WaitlistStatus.waiting;
}

pub join_waitlist : ℕ → ℕ → ℕ → ℕ → ℕ → Db → Result (Db × ℕ)
unfolding insert_entry
join_waitlist max_waitlist gid uid wallet id db = do
  group ← or_throw (find_group gid db.groups) not_found
  throw_if (is_some (find_membership gid uid db.memberships)) conflict
  throw_if (is_some (find (waits gid uid) db.waitlist)) conflict
  throw_if (ltb (member_count gid db.memberships) group.max_members) bad_request
  throw_if (leb max_waitlist (waiting_count gid db.waitlist)) bad_request
  let position = waiting_count gid db.waitlist + 1
  saved ←
      insert_entry
        (record {
          id = id;
          group_id = gid;
          user_id = uid;
          wallet_address = wallet;
          position = position;
          status = WaitlistStatus.waiting;
        })
        db
  ok (saved, position)

-- UPDATE … SET position = position - 1 WHERE groupId AND status = WAITING AND position > :pos.
pub close_gap : ℕ → ℕ → List WaitlistEntry → List WaitlistEntry
close_gap gid pos =
    update_where (λ w. waits_in gid w && ltb pos w.position)
      (λ w. record w { position = w.position - 1 })

pub leave_waitlist : ℕ → ℕ → Db → Result Db
unfolding close_gap
leave_waitlist gid uid db = do
  entry ← or_throw (find (waits gid uid) db.waitlist) not_found
  let cancelled = save_entry (record entry { status = WaitlistStatus.cancelled }) db.waitlist
  ok (record db { waitlist = close_gap gid entry.position cancelled })

-- ORDER BY position ASC; rows of one position stay in the order of the table.
pub insert_by_position : WaitlistEntry → List WaitlistEntry → List WaitlistEntry
insert_by_position w [] = w ∷ []
insert_by_position w (x ∷ xs) =
    if leb w.position x.position then w ∷ x ∷ xs else x ∷ insert_by_position w xs

pub sort_by_position : List WaitlistEntry → List WaitlistEntry
unfolding insert_by_position
sort_by_position [] = []
sort_by_position (w ∷ ws) = insert_by_position w (sort_by_position ws)

pub get_waitlist : ℕ → ℕ → Db → Result (List WaitlistEntry)
unfolding sort_by_position
get_waitlist gid requester db = do
  group ← or_throw (find_group gid db.groups) not_found
  mine ← or_throw (find_membership gid requester db.memberships) forbidden
  throw_if (not (group.admin_wallet == mine.wallet_address)) forbidden
  ok (sort_by_position (filter_by (waits_in gid) db.waitlist))

-- `take(limit)`.
pub take_rows : ℕ → List WaitlistEntry → List WaitlistEntry
take_rows n [] = []
take_rows n (w ∷ ws) = if n == 0 then [] else w ∷ take_rows (n - 1) ws

-- `manager.save(Membership, …)`, which the unique index on (groupId, userId) can refuse.
pub admit_entry : ℕ → ℕ → ℕ → WaitlistEntry → Db → Result Db
admit_entry gid id order w db =
    if is_some (find_membership gid w.user_id db.memberships)
    then err internal_error
    else ok (record db {
      memberships =
          db.memberships ++ new_membership id gid w.user_id w.wallet_address (some order) ∷ [];
      waitlist = save_entry (record w { status = WaitlistStatus.admitted }) db.waitlist;
    })

-- The loop over the entries, with `nextPayoutOrder`. `fresh` gives the new rows their ids.
pub admit_entries : (ℕ → ℕ) → ℕ → ℕ → List WaitlistEntry → Db → Result Db
admit_entries fresh gid order [] db = ok db
admit_entries fresh gid order (w ∷ ws) db =
    let rest = admit_entries fresh gid (order + 1) ws in
    admit_entry gid (fresh order) order w db >>= rest

-- `maxToAdmit == null ? freeSlots : Math.min(freeSlots, Math.max(0, maxToAdmit))`.
abbrev pub admission_limit : ℕ → Option ℕ → ℕ
admission_limit free none = free
admission_limit free (some n) = min free n

-- One transaction under the group's row lock: all entries are admitted, or none.
pub admit_in_transaction : (ℕ → ℕ) → ℕ → Option ℕ → Db → Result (Db × List WaitlistEntry)
unfolding sort_by_position take_rows
admit_in_transaction fresh gid cap db = elim (find_group gid db.groups) [
  | none ↦ ok (db, [])
  | some group ↦
      let members = member_count gid db.memberships in
      let limit = admission_limit (group.max_members - members) cap in
      let entries = take_rows limit (sort_by_position (filter_by (waits_in gid) db.waitlist)) in
      let order = next_order (max_payout_order gid db.memberships) in
      if leb group.max_members members || limit == 0
      then ok (db, [])
      else admit_entries fresh gid order entries db >>= λ db'. ok (db', entries)
]

abbrev pub admission_notice : WaitlistEntry → Effect
admission_notice w = notified w.user_id NotificationType.waitlist_admitted

pub admit_from_waitlist : (ℕ → ℕ) → ℕ → Option ℕ → Db → Result (Db × List ℕ)
admit_from_waitlist fresh gid cap db = do
  r ← admit_in_transaction fresh gid cap db
  let told = record (r.0) { effects = (r.0).effects ++ map admission_notice r.1 }
  ok (told, map (λ (w : WaitlistEntry). w.user_id) r.1)

pub admit_next_from_waitlist : (ℕ → ℕ) → ℕ → Db → Result Db
admit_next_from_waitlist fresh gid db = do r ← admit_from_waitlist fresh gid (some 1) db; ok r.0
