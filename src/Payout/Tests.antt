-- ===== src/Payout/Tests.antt =====
-- Runs of PayoutService in a group whose first round is to be paid out.
use ahjoor_backend.Common.{
  ℕ, ◌≤◌, ◌==◌, ◌≡◌, refl, arith, true, none, some, [], ◌∷◌, count_by, find, filter_by,
  update_where, ok, err, conflict, bad_gateway,
}
use ahjoor_backend.Finance.{PayoutTransaction, PayoutStatus, full_fill, PenaltyStatus}
use ahjoor_backend.Entities.{
  Membership, Db, NotificationType, notified, reconciliation_queued, emit,
}
use ahjoor_backend.Memberships.Orders.{HasKeys}
use ahjoor_backend.Stellar.{Outside, chain_failed, pay, pay_by_contract}
use ahjoor_backend.Payout.{
  is_order, distribute_payout, start_payout, settle, compute_payout_amount, recipient_of,
  outstanding_penalties,
}
use ahjoor_backend.Payout.Distribution.{
  Distributed, distribute_payout-Distributed, distribute_payout_once,
}
use ahjoor_backend.Payout.Reconciliation.{
  noop, confirmed_on_chain, failed_on_chain, reconcile_payout, HasPayoutKeys, reconcile_once,
  failed_on_chain_never_repaid,
}
use ahjoor_backend.Payout.Retry.{retry_never_pays}
use ahjoor_backend.Fixtures.{ada, bola, running, outside, offline}

abbrev started : PayoutTransaction
started = record {
  id = 5;
  order_group = 1;
  order_round = 1;
  status = PayoutStatus.pending_submission;
  tx_hash = none;
  asset_code = 7;
  asset_issuer = none;
  requested_amount = some 50;
  delivered_amount = none;
  path_payment_outcome = none;
  fx_rate = none;
  failure_reason = none;
}

abbrev sent : PayoutTransaction
sent = record started {
  status = PayoutStatus.submitted;
  tx_hash = some 77;
  delivered_amount = some 50;
  path_payment_outcome = some full_fill;
}

abbrev ada_paid : Membership
ada_paid = record ada { has_received_payout = true; transaction_hash = some 77 }

abbrev paid : Db
paid = emit (notified 21 NotificationType.payout_received) (
    emit (reconciliation_queued 5)
      (record running { memberships = ada_paid ∷ bola ∷ []; payouts = sent ∷ [] }))

abbrev left : Db
left = record running { payouts = record started { status = PayoutStatus.failed } ∷ [] }

running-HasKeys : HasKeys running
unfolding count_by
running-HasKeys i = ground arith

no_payout : find (is_order 1 1) running.payouts ≡ none
unfolding find
no_payout = refl

pays : distribute_payout outside 5 1 1 running ≡ (paid, ok 77)
unfolding distribute_payout start_payout settle compute_payout_amount pay pay_by_contract find
    filter_by count_by update_where
pays = refl

fails : distribute_payout offline 5 1 1 running ≡ (left, err bad_gateway)
unfolding distribute_payout start_payout settle compute_payout_amount pay pay_by_contract find
    filter_by count_by update_where
fails = refl

distribute_payout-Distributed_example : Distributed 1 1 77 running paid
distribute_payout-Distributed_example =
    distribute_payout-Distributed outside 5 1 1 running no_payout pays

distribute_payout_once_example : distribute_payout offline 6 1 1 paid ≡ (paid, err conflict)
distribute_payout_once_example =
    distribute_payout_once outside offline 5 6 1 1 running running-HasKeys no_payout pays

no_row : find (λ (t : PayoutTransaction). t.id == 5) running.payouts ≡ none
unfolding find
no_row = refl

retry_never_pays_example : (text : ℕ) × (distribute_payout outside 6 1 1 left ≡ (left, ok text))
retry_never_pays_example = retry_never_pays offline outside 5 6 1 1 running no_row no_payout fails

abbrev fined : Db
fined = record running {
  penalties =
      record {
        id = 1;
        group_id = 1;
        user_id = 21;
        round_number = 1;
        amount = 5;
        asset_code = 7;
        due_at = 0;
        paid_at = none;
        status = PenaltyStatus.pending;
        waiver_reason = none;
        waived_by_user_id = none;
        waived_at = none;
        dispute_reason = none;
        dispute_tx_hash = none;
        disputed_at = none;
        resolution_notes = none;
        resolved_by_user_id = none;
        resolved_at = none;
      }
      ∷ [];
}

turn_of_ada : recipient_of 1 1 fined.memberships ≡ some ada
unfolding find
turn_of_ada = refl

owing : 1 ≤ outstanding_penalties 1 ada.user_id fined.penalties
unfolding count_by
owing = omega arith

abbrev confirmed : Db
confirmed = record paid { payouts = record sent { status = PayoutStatus.confirmed } ∷ [] }

abbrev refusing : Outside
refusing = record outside { transaction_status = λ hash. chain_failed }

abbrev refused_later : Db
refused_later = record paid { payouts = record sent { status = PayoutStatus.failed } ∷ [] }

paid-HasPayoutKeys : HasPayoutKeys paid
unfolding count_by
paid-HasPayoutKeys i = ground arith

confirms : reconcile_payout outside 5 paid ≡ (confirmed, ok confirmed_on_chain)
unfolding reconcile_payout find update_where
confirms = refl

refuses : reconcile_payout refusing 5 paid ≡ (refused_later, ok failed_on_chain)
unfolding reconcile_payout find update_where
refuses = refl

reconcile_once_example : reconcile_payout refusing 5 confirmed ≡ (confirmed, ok noop)
reconcile_once_example = reconcile_once outside refusing 5 paid paid-HasPayoutKeys confirms refl

failed_on_chain_never_repaid_example :
    distribute_payout outside 6 1 1 refused_later ≡ (refused_later, err conflict)
failed_on_chain_never_repaid_example =
    failed_on_chain_never_repaid outside refusing outside 5 5 6 1 1 running running-HasKeys
      no_payout pays refuses
