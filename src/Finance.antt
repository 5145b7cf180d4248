-- ===== src/Finance.antt =====
-- The rows about money: penalties, contributions and payout transactions (ahjoorxmr/src/penalties,
-- contributions and groups/entities). Amounts, rates and hashes are texts, numbered.
use ahjoor_backend.Common.{ℕ, Bool, true, false, Option}

pub data PenaltyStatus : Type 0 where
  pending paid waived disputed rejected : PenaltyStatus

pub record Penalty : Type 0 where
  pub id : ℕ
  pub group_id : ℕ
  pub user_id : ℕ
  pub round_number : ℕ
  pub amount : ℕ
  pub asset_code : ℕ
  pub due_at : ℕ
  pub paid_at : Option ℕ
  pub status : PenaltyStatus
  pub waiver_reason : Option ℕ
  pub waived_by_user_id : Option ℕ
  pub waived_at : Option ℕ
  pub dispute_reason : Option ℕ
  pub dispute_tx_hash : Option ℕ
  pub disputed_at : Option ℕ
  pub resolution_notes : Option ℕ
  pub resolved_by_user_id : Option ℕ
  pub resolved_at : Option ℕ

abbrev pub is_pending_penalty : PenaltyStatus → Bool
is_pending_penalty PenaltyStatus.pending = true
is_pending_penalty _ = false

abbrev pub is_disputed : PenaltyStatus → Bool
is_disputed PenaltyStatus.disputed = true
is_disputed _ = false

pub data ContributionStatus : Type 0 where
  pending on_chain_submitted confirmed failed : ContributionStatus

abbrev pub is_confirmed : ContributionStatus → Bool
is_confirmed ContributionStatus.confirmed = true
is_confirmed _ = false

-- `status === CONFIRMED || status === FAILED`.
abbrev pub is_terminal : ContributionStatus → Bool
is_terminal ContributionStatus.confirmed = true
is_terminal ContributionStatus.failed = true
is_terminal _ = false

pub record Contribution : Type 0 where
  pub id : ℕ
  pub group_id : ℕ
  pub user_id : ℕ
  pub wallet_address : ℕ
  pub round_number : ℕ
  pub amount : ℕ
  pub transaction_hash : ℕ
  pub timestamp : ℕ
  pub asset_code : ℕ
  pub asset_issuer : Option ℕ
  pub unit_of_account_asset_code : ℕ
  pub unit_of_account_asset_issuer : Option ℕ
  pub fx_rate : Option ℕ
  pub fx_rate_captured_at : Option ℕ
  pub fx_rate_expires_at : Option ℕ
  pub fx_tolerance_bps : ℕ
  pub normalized_amount : Option ℕ
  pub status : ContributionStatus
  pub idempotency_key : Option ℕ

pub data PayoutStatus : Type 0 where
  pending_submission submitted confirmed failed : PayoutStatus

abbrev pub is_submitted : PayoutStatus → Bool
is_submitted PayoutStatus.submitted = true
is_submitted _ = false

abbrev pub is_pending_submission : PayoutStatus → Bool
is_pending_submission PayoutStatus.pending_submission = true
is_pending_submission _ = false

pub data PathPaymentOutcome : Type 0 where
  full_fill partial_fill slippage_exceeded failed : PathPaymentOutcome

abbrev pub is_unfilled : PathPaymentOutcome → Bool
is_unfilled slippage_exceeded = true
is_unfilled PathPaymentOutcome.failed = true
is_unfilled _ = false

-- `payoutOrderId` is `${groupId}:${round}`: the pair.
pub record PayoutTransaction : Type 0 where
  pub id : ℕ
  pub order_group : ℕ
  pub order_round : ℕ
  pub status : PayoutStatus
  pub tx_hash : Option ℕ
  pub asset_code : ℕ
  pub asset_issuer : Option ℕ
  pub requested_amount : Option ℕ
  pub delivered_amount : Option ℕ
  pub path_payment_outcome : Option PathPaymentOutcome
  pub fx_rate : Option ℕ
  pub failure_reason : Option ℕ
