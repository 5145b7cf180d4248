-- ===== src/Payout/Distribution.antt =====
-- PayoutService.distributePayout: who is paid, what blocks a payout, and that it happens once.
use ahjoor_backend.Common.{
  ℕ, ◌≤◌, ◌≡◌, ◌≢◌, refl, ap, ◌∙◌, arith, ◌&&◌, true, false, Option, none, some, [], ◌∷◌, ◌++◌,
  find, ok, err, not_found, bad_request, conflict, Option-cases, inl, inr, find-save, find-holds,
}
use ahjoor_backend.Finance.{PayoutTransaction}
use ahjoor_backend.Entities.{
  Group, GroupStatus, Membership, Db, is_some, in_group, find_group, save_membership,
}
use ahjoor_backend.Stellar.{Outside, pay}
use ahjoor_backend.Memberships.{is_due}
use ahjoor_backend.Memberships.Orders.{HasKeys}
use ahjoor_backend.Payout.{
  is_order, outstanding_penalties, recipient_of, distribute_payout, pay_recipient, start_payout,
  settle, compute_payout_amount, new_payout,
}

-- The chain call touches payout rows only.
pub pay-keeps :
    (out : Outside) (gid round : ℕ) (group : Group) (contract : ℕ) (m : Membership)
    (t : PayoutTransaction) (amount : ℕ) (db : Db)
    → let r = pay out gid round group contract m t amount db in
      (r.0.groups ≡ db.groups) × (r.0.memberships ≡ db.memberships)
unfolding pay
pay-keeps out gid round group contract m t amount db = ground arith

abbrev pub marked_paid : ℕ → Membership → Membership
marked_paid hash m = record m { has_received_payout = true; transaction_hash = some hash }

settle-ok :
    (out : Outside) (m : Membership) (r : Db × PayoutTransaction × Option ℕ) {db' : Db} {hash : ℕ}
    → settle out m r ≡ (db', ok hash)
    → (db'.groups ≡ r.0.groups)
      × (db'.memberships ≡ save_membership (marked_paid hash m) r.0.memberships)
unfolding settle
settle-ok out m (db, t, none) e = ground arith
settle-ok out m (db, t, some h) e = ground arith

-- What a `distributePayout` that returned a hash for a new order has checked and written.
pub record Distributed (gid round hash : ℕ) (db db' : Db) : Type 0 where
  pub group : Group
  pub recipient : Membership
  pub found : find_group gid db.groups ≡ some group
  pub running : group.status ≡ GroupStatus.active
  pub deployed : is_some group.contract_address ≡ true
  pub turn : recipient_of gid round db.memberships ≡ some recipient
  pub unpaid : recipient.has_received_payout ≡ false
  pub settled : outstanding_penalties gid recipient.user_id db.penalties ≡ 0
  pub groups_kept : db'.groups ≡ db.groups
  pub written : db'.memberships ≡ save_membership (marked_paid hash recipient) db.memberships

start_payout-ok :
    (out : Outside) (id gid round : ℕ) (group : Group) (contract : ℕ) (m : Membership) (db : Db)
    {db' : Db} {hash : ℕ}
    → start_payout out id gid round group contract m db ≡ (db', ok hash)
    → (db'.groups ≡ db.groups)
      × (db'.memberships ≡ save_membership (marked_paid hash m) db.memberships)
unfolding start_payout
start_payout-ok out id gid round group contract m db {db'} {hash} e =
    let amount : ℕ = compute_payout_amount out gid round group db.contributions in
    let t : PayoutTransaction = new_payout out id gid round group amount in
    let created : Db = record db { payouts = db.payouts ++ t ∷ [] } in
    let (g, k) = pay-keeps out gid round group contract m t amount created in
    let (g', k') = settle-ok out m (pay out gid round group contract m t amount created) e in
    (g' ∙ g, k' ∙ ap (save_membership (marked_paid hash m)) k)

pay_recipient-ok :
    (out : Outside) (id gid round : ℕ) (group : Group) (contract : ℕ) (m : Membership) (db : Db)
    {db' : Db} {hash : ℕ}
    → find (is_order gid round) db.payouts ≡ none
    → pay_recipient out id gid round group contract m db ≡ (db', ok hash)
    → (m.has_received_payout ≡ false)
      × (outstanding_penalties gid m.user_id db.penalties ≡ 0)
      × (db'.groups ≡ db.groups)
      × (db'.memberships ≡ save_membership (marked_paid hash m) db.memberships)
unfolding pay_recipient
pay_recipient-ok out id gid round group contract m db {db'} {hash} new e =
    ground (arith, start_payout-ok out id gid round group contract m db {db' = db'} {hash = hash})

-- A payout of a new order that returns a hash was made in an active group with a contract, to the
-- member in turn, who had no payout and no pending penalty; that row is marked paid with the
-- hash, the other members and the groups stay.
pub distribute_payout-Distributed :
    (out : Outside) (id gid round : ℕ) (db : Db) {db' : Db} {hash : ℕ}
    → find (is_order gid round) db.payouts ≡ none
    → distribute_payout out id gid round db ≡ (db', ok hash)
    → Distributed gid round hash db db'
unfolding distribute_payout
distribute_payout-Distributed out id gid round db {db'} {hash} new e =
    elim (Option-cases (find_group gid db.groups)) [
      | inl missing ↦ absurd (ground arith)
      | inr (g, f) ↦ elim (Option-cases g.contract_address) [
        | inl missing ↦ absurd (ground arith)
        | inr (c, fc) ↦ elim (Option-cases (recipient_of gid round db.memberships)) [
          | inl missing ↦ absurd (ground arith)
          | inr (m, fm) ↦
              let (a, b, k, w) =
                pay_recipient-ok out id gid round g c m db {db' = db'} {hash = hash} new
                  (ground arith) in
              record {
                group = g;
                recipient = m;
                found = f;
                running = ground arith;
                deployed = ground arith;
                turn = fm;
                unpaid = a;
                settled = b;
                groups_kept = k;
                written = w;
              }
        ]
      ]
    ]

-- In any database with the groups and members that a payout left, its round is a conflict.
pub distribute_payout-conflict :
    (out later : Outside) (id id' gid round : ℕ) (db now : Db) {db' : Db} {hash : ℕ}
    → HasKeys db
    → find (is_order gid round) db.payouts ≡ none
    → distribute_payout out id gid round db ≡ (db', ok hash)
    → now.groups ≡ db'.groups
    → now.memberships ≡ db'.memberships
    → distribute_payout later id' gid round now ≡ (now, err conflict)
unfolding distribute_payout pay_recipient
distribute_payout-conflict out later id id' gid round db now {db'} {hash} keys new e gs ms =
    let d = distribute_payout-Distributed out id gid round db new e in
    let paid : Membership = marked_paid hash d.recipient in
    let turn_now : recipient_of gid round now.memberships ≡ some paid =
      ap (recipient_of gid round) (ms ∙ d.written)
      ∙ find-save (λ (x : Membership). x.id) (λ m. in_group gid m && is_due round m.payout_order)
          db.memberships paid d.turn refl
          (find-holds (λ m. in_group gid m && is_due round m.payout_order) db.memberships d.turn)
          keys in
    ground
      (arith, turn_now, ap (find_group gid) (gs ∙ d.groups_kept), d.found, d.running, d.deployed)

-- After a payout that returned a hash, every later call for that round of the group is a conflict
-- and changes nothing, whatever the chain answers; membership ids are unique, and the round had
-- no payout row before.
pub distribute_payout_once :
    (out later : Outside) (id id' gid round : ℕ) (db : Db) {db' : Db} {hash : ℕ}
    → HasKeys db
    → find (is_order gid round) db.payouts ≡ none
    → distribute_payout out id gid round db ≡ (db', ok hash)
    → distribute_payout later id' gid round db' ≡ (db', err conflict)
distribute_payout_once out later id id' gid round db {db'} keys new e =
    distribute_payout-conflict out later id id' gid round db db' keys new e refl refl

-- A pending penalty of the recipient blocks the payout: the call returns no hash, and neither the
-- members nor the payouts change.
pub distribute_payout_blocked :
    (out : Outside) (id gid round : ℕ) (db : Db) {m : Membership}
    → recipient_of gid round db.memberships ≡ some m
    → 1 ≤ outstanding_penalties gid m.user_id db.penalties
    → let (db', r) = distribute_payout out id gid round db in
      ((hash : ℕ) → r ≢ ok hash) × (db'.memberships ≡ db.memberships) × (db'.payouts ≡ db.payouts)
unfolding distribute_payout pay_recipient
distribute_payout_blocked out id gid round db {m} turn h =
    (λ hash e. ground arith, ground arith, ground arith)

-- In a COMPLETED group `distributePayout` refuses every round and writes nothing.
pub distribute_payout_completed :
    (out : Outside) (id gid round : ℕ) (db : Db) {g : Group}
    → find_group gid db.groups ≡ some g
    → g.status ≡ GroupStatus.completed
    → distribute_payout out id gid round db ≡ (db, err bad_request)
unfolding distribute_payout
distribute_payout_completed out id gid round db f s = ground arith

-- The one way to a payout: an active group with a contract, and a recipient that nothing blocks.
pub distribute_payout-starts :
    (out : Outside) (id gid round : ℕ) (db : Db) {g : Group} {c : ℕ} {m : Membership}
    → find_group gid db.groups ≡ some g
    → g.status ≡ GroupStatus.active
    → g.contract_address ≡ some c
    → recipient_of gid round db.memberships ≡ some m
    → m.has_received_payout ≡ false
    → outstanding_penalties gid m.user_id db.penalties ≡ 0
    → find (is_order gid round) db.payouts ≡ none
    → distribute_payout out id gid round db ≡ start_payout out id gid round g c m db
unfolding distribute_payout pay_recipient
distribute_payout-starts out id gid round db {g} {c} {m} f run at turn unpaid clean new =
    ground arith

pub distribute_payout-unknown :
    (out : Outside) (id gid round : ℕ) (db : Db)
    → find_group gid db.groups ≡ none
    → distribute_payout out id gid round db ≡ (db, err not_found)
unfolding distribute_payout
distribute_payout-unknown out id gid round db f = ground arith
