-- ===== src/Payout/Reconciliation.antt =====
-- ahjoorxmr/src/bullmq/payout-reconciliation.processor.ts: settling a payout by its state on the chain.
use ahjoor_backend.Common.{
  ℕ, ◌==◌, if◌then◌else◌, not, ◌&&◌, ◌||◌, Bool, true, Option, none, some, find, Result, ok, err,
  conflict, internal_error, ◌≡◌, refl, ap, ◌∙◌, arith, ◌⊎◌, inl, inr, Option-cases, HasUniqueKeys,
  find-save, find-holds,
}
use ahjoor_backend.Finance.{PayoutTransaction, PayoutStatus, is_submitted, is_pending_submission}
use ahjoor_backend.Entities.{Db, is_some}
use ahjoor_backend.Stellar.{
  Outside, ChainStatus, chain_confirmed, chain_failed, chain_pending, save_payout,
}
use ahjoor_backend.Memberships.Orders.{HasKeys}
use ahjoor_backend.Payout.{is_order, distribute_payout}
use ahjoor_backend.Payout.Distribution.{distribute_payout-conflict}

-- The outcome of the reconciliation job.
pub data Reconciled : Type 0 where
  skipped noop confirmed_on_chain failed_on_chain : Reconciled

unfoldable pub reconcile_row : PayoutTransaction → ℕ → ChainStatus → Db → Db × Result Reconciled
reconcile_row t hash chain_confirmed db =
    (save_payout (record t { status = PayoutStatus.confirmed }) db, ok confirmed_on_chain)
reconcile_row t hash chain_failed db =
    (save_payout (record t { status = PayoutStatus.failed }) db, ok failed_on_chain)
reconcile_row t hash chain_pending db = (db, err internal_error)

-- A plain `Error` makes the queue retry the job.
unfoldable pub reconcile_payout : Outside → ℕ → Db → Db × Result Reconciled
unfolding reconcile_row
reconcile_payout out id db = elim (find (λ (t : PayoutTransaction). t.id == id) db.payouts) [
  | none ↦ (db, ok skipped)
  | some t ↦
      if not (is_submitted t.status) && not (is_pending_submission t.status && is_some t.tx_hash)
      then (db, ok noop)
      else elim t.tx_hash [
        | none ↦ (db, err internal_error)
        | some hash ↦ reconcile_row t hash (out.transaction_status hash) db
      ]
]

abbrev pub has_payout_id : ℕ → PayoutTransaction → Bool
has_payout_id id t = t.id == id

abbrev pub HasPayoutKeys : Db → Type 0
HasPayoutKeys db = HasUniqueKeys (λ (t : PayoutTransaction). t.id) db.payouts

-- The status that the outcome of a reconciliation stands for, and the chain's answer behind it.
abbrev pub final_status : Reconciled → Option PayoutStatus
final_status confirmed_on_chain = some PayoutStatus.confirmed
final_status failed_on_chain = some PayoutStatus.failed
final_status _ = none

abbrev pub answer_of : ChainStatus → Option PayoutStatus
answer_of chain_confirmed = some PayoutStatus.confirmed
answer_of chain_failed = some PayoutStatus.failed
answer_of chain_pending = none

-- What a reconciliation that stored a final status has checked and written.
pub record Settled (out : Outside) (id : ℕ) (status : PayoutStatus) (db db' : Db) : Type 0 where
  pub row : PayoutTransaction
  pub hash : ℕ
  pub found : find (has_payout_id id) db.payouts ≡ some row
  pub waiting : is_submitted row.status || is_pending_submission row.status ≡ true
  pub known : row.tx_hash ≡ some hash
  pub answered : answer_of (out.transaction_status hash) ≡ some status
  pub written : db' ≡ save_payout (record row { status = status }) db

reconcile_row-ok :
    (t : PayoutTransaction) (hash : ℕ) (c : ChainStatus) (db : Db) {db' : Db} {r : Reconciled}
    {status : PayoutStatus}
    → reconcile_row t hash c db ≡ (db', ok r)
    → final_status r ≡ some status
    → (answer_of c ≡ some status) × (db' ≡ save_payout (record t { status = status }) db)
unfolding reconcile_row
reconcile_row-ok t hash chain_confirmed db e f = ground arith
reconcile_row-ok t hash chain_failed db e f = ground arith
reconcile_row-ok t hash chain_pending db e f = absurd (ground arith)

-- A reconciliation that ends as confirmed or failed found a row that was SUBMITTED or PENDING, with a
-- hash, for which the chain gave that answer; it stores that status in the row and nothing else.
pub reconcile_payout-Settled :
    (out : Outside) (id : ℕ) (db : Db) {db' : Db} {r : Reconciled} {status : PayoutStatus}
    → reconcile_payout out id db ≡ (db', ok r)
    → final_status r ≡ some status
    → Settled out id status db db'
unfolding reconcile_payout
reconcile_payout-Settled out id db {db'} {r} {status} e f =
    elim (Option-cases (find (has_payout_id id) db.payouts)) [
      | inl missing ↦ absurd (ground arith)
      | inr (t, ft) ↦ elim (Option-cases t.tx_hash) [
        | inl unknown ↦ absurd (ground arith)
        | inr (h, fh) ↦
            let (a, w) =
              reconcile_row-ok t h (out.transaction_status h) db {db' = db'} {r = r} (ground arith)
                f in
            record {
              row = t;
              hash = h;
              found = ft;
              waiting = ground arith;
              known = fh;
              answered = a;
              written = w;
            }
      ]
    ]

final-cases :
    (r : Reconciled) {status : PayoutStatus}
    → final_status r ≡ some status
    → (status ≡ PayoutStatus.confirmed) ⊎ (status ≡ PayoutStatus.failed)
final-cases confirmed_on_chain f = inl (ground arith)
final-cases failed_on_chain f = inr (ground arith)
final-cases skipped f = absurd (ground arith)
final-cases noop f = absurd (ground arith)

-- A payout that a reconciliation settled stays so: another reconciliation of it, whatever the
-- chain answers then, does nothing; payout ids are unique.
pub reconcile_once :
    (out later : Outside) (id : ℕ) (db : Db) {db' : Db} {r : Reconciled} {status : PayoutStatus}
    → HasPayoutKeys db
    → reconcile_payout out id db ≡ (db', ok r)
    → final_status r ≡ some status
    → reconcile_payout later id db' ≡ (db', ok noop)
unfolding reconcile_payout
reconcile_once out later id db {db'} {r} {status} keys e f =
    let s = reconcile_payout-Settled out id db e f in
    let stored : find (has_payout_id id) db'.payouts ≡ some (record s.row { status = status }) =
      ap (λ (d : Db). find (has_payout_id id) d.payouts) s.written
      ∙ find-save (λ (t : PayoutTransaction). t.id) (has_payout_id id) db.payouts
          (record s.row { status = status }) s.found refl
          (find-holds (has_payout_id id) db.payouts s.found) keys in
    elim (final-cases r f) [
      | inl confirmed ↦ ground (arith, stored, confirmed)
      | inr failed ↦ ground (arith, stored, failed)
    ]

-- After a payout whose transaction the reconciliation finds FAILED on the chain, every later
-- payout call for the round is a conflict; membership ids are unique, and the round had no payout
-- row before.
pub failed_on_chain_never_repaid :
    (out chain later : Outside) (id pid id' gid round : ℕ) (db : Db) {db' db'' : Db} {hash : ℕ}
    → HasKeys db
    → find (is_order gid round) db.payouts ≡ none
    → distribute_payout out id gid round db ≡ (db', ok hash)
    → reconcile_payout chain pid db' ≡ (db'', ok failed_on_chain)
    → distribute_payout later id' gid round db'' ≡ (db'', err conflict)
failed_on_chain_never_repaid out chain later id pid id' gid round db {db'} {db''} keys new e r =
    let s = reconcile_payout-Settled chain pid db' {status = PayoutStatus.failed} r refl in
    distribute_payout-conflict out later id id' gid round db db'' keys new e
      (ap (λ (d : Db). d.groups) s.written) (ap (λ (d : Db). d.memberships) s.written)
