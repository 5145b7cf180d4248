-- ===== src/System.antt =====
-- The services that share the tables of groups and members, as one transition system: a step is a call
-- that succeeds, and a run is any sequence of them, by any users, in any order.
pub mod Sound
mod Tests
use ahjoor_backend.Common.{ℕ, ◌≡◌, none, Option, List, find, ok, find}
use ahjoor_backend.Entities.{Membership, WaitlistEntry, Db, has_id}
use ahjoor_backend.Memberships.{
  InsertOutcome, add_member, remove_member, leave_group, record_payout, suspend_member,
  reinstate_member,
}
use ahjoor_backend.Waitlist.{join_waitlist, leave_waitlist, admit_in_transaction}

-- The database gives new rows ids that no row has, and different ones.
pub record IsFresh (ids : ℕ → ℕ) (db : Db) : Type 0 where
  pub unused : (n : ℕ) → find (has_id (ids n)) db.memberships ≡ none
  pub different : (m n : ℕ) → ids m ≡ ids n → m ≡ n

infix 40 ◌⟶◌ ◌⟶*◌
pub data ◌⟶◌ : Db → Db → Type 0 where
  adds :
      {db db' : Db} (gid uid wallet id : ℕ) (outcome : InsertOutcome) (m : Membership)
      → find (has_id id) db.memberships ≡ none
      → add_member gid uid wallet id outcome db ≡ ok (db', m)
      → db ⟶ db'
  removes : {db db' : Db} (gid uid : ℕ) → remove_member gid uid db ≡ ok db' → db ⟶ db'
  leaves : {db db' : Db} (gid uid : ℕ) → leave_group gid uid db ≡ ok db' → db ⟶ db'
  records :
      {db db' : Db} (gid uid hash : ℕ) (m : Membership)
      → record_payout gid uid hash db ≡ ok (db', m)
      → db ⟶ db'
  suspends :
      {db db' : Db} (gid target requester : ℕ) (m : Membership)
      → suspend_member gid target requester db ≡ ok (db', m)
      → db ⟶ db'
  reinstates :
      {db db' : Db} (gid target requester : ℕ) (m : Membership)
      → reinstate_member gid target requester db ≡ ok (db', m)
      → db ⟶ db'
  admits :
      {db db' : Db} (ids : ℕ → ℕ) (gid : ℕ) (cap : Option ℕ) (es : List WaitlistEntry)
      → IsFresh ids db
      → admit_in_transaction ids gid cap db ≡ ok (db', es)
      → db ⟶ db'
  joins :
      {db db' : Db} (limit gid uid wallet id pos : ℕ)
      → join_waitlist limit gid uid wallet id db ≡ ok (db', pos)
      → db ⟶ db'
  gives_up : {db db' : Db} (gid uid : ℕ) → leave_waitlist gid uid db ≡ ok db' → db ⟶ db'

pub data ◌⟶*◌ : Db → Db → Type 0 where
  here : {db : Db} → db ⟶* db
  after : {a b c : Db} → a ⟶ b → b ⟶* c → a ⟶* c
