-- ===== src/Payout.antt =====
-- ahjoorxmr/src/groups/payout.service.ts: the payout of a round. A handler gives the database back with
-- its result, since a payout that throws has already been recorded.
mod Tests
mod Attempt
pub mod Contributions
pub mod Distribution
pub mod Groups
pub mod Retry
pub mod Reconciliation
use ahjoor_backend.Common.{
  ℕ, suc, zero, ◌+◌, ◌==◌, ltb, leb, if◌then◌else◌, not, ◌&&◌, ◌||◌, Bool, true, false, Option,
  none, some, List, [], ◌∷◌, ◌++◌, find, count_by, filter_by, Result, ok, err, HttpError, not_found,
  bad_request, conflict, bad_gateway, internal_error, save_row,
}
use ahjoor_backend.Finance.{
  Penalty, Contribution, is_confirmed, PayoutTransaction, PayoutStatus, PathPaymentOutcome,
  full_fill, is_pending_penalty, is_submitted, is_pending_submission, is_unfilled,
}
use ahjoor_backend.Entities.{
  Group, Membership, Db, Effect, NotificationType, notified, reconciliation_queued, emit, is_active,
  is_some, is_none, in_group, find_group, save_membership,
}
use ahjoor_backend.Stellar.{
  Outside, ChainStatus, chain_confirmed, chain_failed, chain_pending, save_payout, or_else, pay,
}
use ahjoor_backend.Memberships.{is_due}

abbrev pub is_order : ℕ → ℕ → PayoutTransaction → Bool
is_order gid round t = t.order_group == gid && t.order_round == round

abbrev pub outstanding_penalties : ℕ → ℕ → List Penalty → ℕ
outstanding_penalties gid uid =
    count_by (λ p. p.user_id == uid && p.group_id == gid && is_pending_penalty p.status)

abbrev pub recipient_of : ℕ → ℕ → List Membership → Option Membership
recipient_of gid round = find (λ m. in_group gid m && is_due round m.payout_order)

module _ (out : Outside) where
  pub normalized : Contribution → ℕ
  normalized c = or_else c.normalized_amount (out.times c.amount (or_else c.fx_rate out.one))

  pub add_up : ℕ → List Contribution → ℕ
  unfolding normalized
  add_up total [] = total
  add_up total (c ∷ cs) = add_up (out.plus total (normalized c)) cs

  -- The sum of the round's confirmed contributions, or the configured amount where there is none.
  pub compute_payout_amount : ℕ → ℕ → Group → List Contribution → ℕ
  unfolding add_up
  compute_payout_amount gid round group table =
      elim (filter_by (λ c. c.group_id == gid && c.round_number == round && is_confirmed c.status)
        table) [
          | [] ↦ group.contribution_amount
          | c ∷ cs ↦ out.to_fixed (add_up out.decimal_zero (c ∷ cs))
        ]

  -- The `catch` block: without a hash the row becomes FAILED.
  pub give_up : Db → PayoutTransaction → Db × Result ℕ
  give_up db t = (
    if is_some t.tx_hash then db else save_payout (record t { status = PayoutStatus.failed }) db,
    err bad_gateway,
  )

  -- The end of the `try` block, and what follows it.
  pub finish : Membership → PayoutTransaction → ℕ → Db → Db × Result ℕ
  finish recipient t hash db =
      let submitted = save_payout (record t { status = PayoutStatus.submitted }) db in
      let queued = emit (reconciliation_queued t.id) submitted in
      let done = record recipient { has_received_payout = true; transaction_hash = some hash } in
      let stored = record queued { memberships = save_membership done queued.memberships } in
      (emit (notified recipient.user_id NotificationType.payout_received) stored, ok hash)

  pub settle : Membership → Db × PayoutTransaction × Option ℕ → Db × Result ℕ
  unfolding give_up finish
  settle recipient (db, t, none) = give_up db t
  settle recipient (db, t, some hash) =
      if out.crash_after_submit then give_up db t else finish recipient t hash db

  pub new_payout : ℕ → ℕ → ℕ → Group → ℕ → PayoutTransaction
  new_payout id gid round group amount = record {
    id = id;
    order_group = gid;
    order_round = round;
    status = PayoutStatus.pending_submission;
    tx_hash = none;
    asset_code = group.unit_of_account_asset_code;
    asset_issuer =
        if is_some group.unit_of_account_asset_issuer
        then group.unit_of_account_asset_issuer
        else group.asset_issuer;
    requested_amount = some amount;
    delivered_amount = none;
    path_payment_outcome = none;
    fx_rate = none;
    failure_reason = none;
  }

  pub start_payout : ℕ → ℕ → ℕ → Group → ℕ → Membership → Db → Db × Result ℕ
  unfolding new_payout
  start_payout id gid round group contract recipient db =
      let amount = compute_payout_amount gid round group db.contributions in
      let t = new_payout id gid round group amount in
      let created = record db { payouts = db.payouts ++ t ∷ [] } in
      settle recipient (pay out gid round group contract recipient t amount created)

  -- A payout row that exists is returned as it is, and a submitted one is queued again.
  pub return_existing : PayoutTransaction → Db → Db × Result ℕ
  return_existing t db = (
    if is_submitted t.status then emit (reconciliation_queued t.id) db else db,
    ok (or_else t.tx_hash (out.state_text t.status t.id)),
  )

  pub pay_recipient : ℕ → ℕ → ℕ → Group → ℕ → Membership → Db → Db × Result ℕ
  unfolding return_existing
  pay_recipient id gid round group contract recipient db =
      if recipient.has_received_payout
      then (db, err conflict)
      else if ltb 0 (outstanding_penalties gid recipient.user_id db.penalties)
      then (
        emit (notified recipient.user_id NotificationType.payout_blocked_pending_penalty) db,
        err bad_request,
      )
      else elim (find (is_order gid round) db.payouts) [
        | some t ↦ return_existing t db
        | none ↦ start_payout id gid round group contract recipient db
      ]

  pub pay_group : ℕ → ℕ → ℕ → Group → Db → Db × Result ℕ
  unfolding pay_recipient
  pay_group id gid round group db =
      if not (is_active group.status) then (db, err bad_request) else elim group.contract_address [
        | none ↦ (db, err bad_request)
        | some contract ↦ elim (recipient_of gid round db.memberships) [
          | none ↦ (db, err not_found)
          | some recipient ↦ pay_recipient id gid round group contract recipient db
        ]
      ]

  -- `id` is the new row's generated id.
  pub distribute_payout : ℕ → ℕ → ℕ → Db → Db × Result ℕ
  unfolding pay_group
  distribute_payout id gid round db = elim (find_group gid db.groups) [
    | none ↦ (db, err not_found)
    | some group ↦ pay_group id gid round group db
  ]

  -- The `where` of the poll and its filter: rows with a hash that are not settled.
  abbrev pub is_unconfirmed : PayoutTransaction → Bool
  is_unconfirmed t = (is_submitted t.status || is_pending_submission t.status) && is_some t.tx_hash

  pub queue_all : List PayoutTransaction → Db → Db
  queue_all [] db = db
  queue_all (t ∷ ts) db = queue_all ts (emit (reconciliation_queued t.id) db)

  pub poll_unconfirmed_payouts : Db → Db
  unfolding queue_all
  poll_unconfirmed_payouts db = queue_all (filter_by is_unconfirmed db.payouts) db
