-- ===== src/Penalties/Tests.antt =====
-- Runs of PenaltyService in a group of two members, of whom nobody contributed.
use ahjoor_backend.Common.{
  ℕ, ◌+◌, ◌≡◌, refl, arith, none, some, [], ◌∷◌, count_by, find, filter_by, update_where, length,
  ok,
}
use ahjoor_backend.Finance.{Penalty, PenaltyStatus}
use ahjoor_backend.Entities.{
  Db, NotificationType, notified, dispute_submitted, dispute_resolved, emit,
}
use ahjoor_backend.Payout.{outstanding_penalties}
use ahjoor_backend.Penalties.{
  reject, assess_penalties_for_round, dispute_penalty, resolve_dispute,
  deduct_penalties_from_contribution, find_penalty,
}
use ahjoor_backend.Penalties.Assessment.{assess_once}
use ahjoor_backend.Penalties.Disputes.{HasPenaltyKeys, dispute_escapes}
use ahjoor_backend.Penalties.Deduction.{owed_amount, deduct_penalties-settles}
use ahjoor_backend.Fixtures.{running, outside}

abbrev fine : ℕ → ℕ → Penalty
fine id uid = record {
  id = id;
  group_id = 1;
  user_id = uid;
  round_number = 1;
  amount = 100;
  asset_code = 7;
  due_at = 604800009;
  paid_at = none;
  status = PenaltyStatus.pending;
  waiver_reason = none;
  waived_by_user_id = none;
  waived_at = none;
  dispute_reason = none;
  dispute_tx_hash = none;
  disputed_at = none;
  resolution_notes = none;
  resolved_by_user_id = none;
  resolved_at = none;
}

abbrev fined : Db
fined = emit (notified 22 NotificationType.penalty_assessed) (
    emit (notified 21 NotificationType.penalty_assessed)
      (record running { penalties = fine 121 21 ∷ fine 122 22 ∷ [] }))

abbrev ids : ℕ → ℕ
ids uid = 100 + uid

assesses : assess_penalties_for_round outside ids 9 1 1 running ≡ (fined, ok 2)
unfolding assess_penalties_for_round find filter_by
assesses = refl

assess_once_example : assess_penalties_for_round outside ids 10 1 1 fined ≡ (fined, ok 0)
assess_once_example = assess_once outside ids ids 9 10 1 1 2 running assesses

abbrev disputed : Penalty
disputed = record (fine 121 21) {
  status = PenaltyStatus.disputed;
  dispute_reason = some 5;
  disputed_at = some 20;
}

abbrev rejected : Penalty
rejected = record disputed {
  status = PenaltyStatus.rejected;
  resolved_by_user_id = some 21;
  resolved_at = some 30;
}

abbrev in_dispute : Db
in_dispute =
    emit (notified 21 NotificationType.penalty_disputed)
      (emit (dispute_submitted 121) (record fined { penalties = disputed ∷ fine 122 22 ∷ [] }))

abbrev after : Db
after =
    emit (notified 21 NotificationType.penalty_resolved)
      (emit (dispute_resolved 121) (record in_dispute { penalties = rejected ∷ fine 122 22 ∷ [] }))

fined-HasPenaltyKeys : HasPenaltyKeys fined
unfolding count_by
fined-HasPenaltyKeys i = ground arith

disputes : dispute_penalty 20 121 21 5 none fined ≡ ok (in_dispute, disputed)
unfolding dispute_penalty find update_where
disputes = refl

rejects : resolve_dispute 30 121 21 reject none in_dispute ≡ ok (after, rejected)
unfolding resolve_dispute find update_where
rejects = refl

dispute_escapes_example :
    (outstanding_penalties 1 21 in_dispute.penalties + 1
      ≡ outstanding_penalties 1 21 fined.penalties)
    × (outstanding_penalties 1 21 after.penalties + 1 ≡ outstanding_penalties 1 21 fined.penalties)
dispute_escapes_example =
    dispute_escapes 20 121 21 5 none 30 21 reject none fined fined-HasPenaltyKeys disputes rejects

deduct_penalties-settles_example :
    let (db', amount, paid) = deduct_penalties_from_contribution outside 40 21 1 fined in
    (find_penalty 121 db'.penalties
      ≡ some (record (fine 121 21) { status = PenaltyStatus.paid; paid_at = some 40 }))
    × (amount ≡ 100)
    × (length paid ≡ 1)
    × (outstanding_penalties 1 21 db'.penalties ≡ 0)
unfolding find owed_amount count_by
deduct_penalties-settles_example =
    deduct_penalties-settles outside 40 21 1 121 fined (λ a b. refl) refl
