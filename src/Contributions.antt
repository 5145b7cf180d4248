-- ===== src/Contributions.antt =====
-- ahjoorxmr/src/contributions/contributions.service.ts: recording a member's payment for the round, and
-- settling the records that the confirmation job left behind.
pub mod Unique
mod Tests
use ahjoor_backend.Common.{
  ℕ, ◌+◌, ◌==◌, ltb, if◌then◌else◌, not, ◌&&◌, ◌||◌, Bool, true, false, Option, none, some, List,
  [], ◌∷◌, ◌++◌, find, update_where, Result, ok, err, HttpError, bad_request, conflict, forbidden,
  unavailable, ◌>>=◌, ◌>>◌, throw_if, or_throw, save_row,
}
use ahjoor_backend.Finance.{Contribution, ContributionStatus, is_terminal}
use ahjoor_backend.Entities.{
  Group, Membership, Db, Effect, confirmation_queued, contribution_notified, emit, is_active,
  is_suspended, is_some, find_group, find_membership,
}
use ahjoor_backend.Stellar.{
  Outside, ChainStatus, chain_confirmed, chain_failed, chain_pending, or_else,
}
use ahjoor_backend.Rounds.{try_advance_round}

pub record CreateContribution : Type 0 where
  pub group_id : ℕ
  pub user_id : ℕ
  pub wallet_address : ℕ
  pub round_number : ℕ
  pub amount : ℕ
  pub transaction_hash : ℕ
  pub timestamp : ℕ

pub record LockedRate : Type 0 where
  pub rate : ℕ
  pub captured_at : ℕ
  pub expires_at : ℕ
  pub tolerance_bps : ℕ

-- What the other services answer: the maintenance mode of a group with its `retryAfter`, the
-- VERIFY_CONTRIBUTIONS setting, the check of the transaction, the rate and the normalized amount for a
-- transaction (none where a call throws or the amount is no number), the comparison of two amounts as
-- numbers, and what `waitForInFlight` reads in the end.
pub record Verifier : Type 0 where
  pub maintenance : ℕ → Option ℕ
  pub should_verify : Bool
  pub is_valid : ℕ → Option ℕ → Bool
  pub locked_rate : Group → ℕ → Option (LockedRate × ℕ)
  pub is_less : ℕ → ℕ → Bool
  -- The text '1'.
  pub one : ℕ
  pub in_flight : ℕ → Result Contribution

-- The rate and the normalized amount, none where the setting is off.
pub verify_contribution : Verifier → Group → ℕ → Result (Option (LockedRate × ℕ))
verify_contribution v group hash =
    if not v.should_verify
    then ok none
    else if not (v.is_valid hash group.contract_address)
    then err bad_request
    else elim (v.locked_rate group hash) [
      | none ↦ err bad_request
      | some locked ↦
          if v.is_less locked.1 group.contribution_amount then err bad_request else ok (some locked)
    ]

abbrev pub opened_later : ℕ → Option ℕ → Bool
opened_later now none = false
opened_later now (some t) = ltb now t

abbrev pub closed_before : ℕ → Option ℕ → Bool
closed_before now none = false
closed_before now (some t) = ltb t now

-- A user without a membership passes.
abbrev pub is_suspended_member : Option Membership → Bool
is_suspended_member none = false
is_suspended_member (some m) = is_suspended m.status

abbrev pub not_under_maintenance : Option ℕ → Result (Unit {0})
not_under_maintenance none = ok tt
not_under_maintenance (some retry) = err (unavailable retry)

pub new_contribution :
    ℕ
    → ℕ
    → CreateContribution
    → Option ℕ
    → Group
    → Option (LockedRate × ℕ)
    → ContributionStatus
    → Contribution
new_contribution one id dto key group locked status = record {
  id = id;
  group_id = dto.group_id;
  user_id = dto.user_id;
  wallet_address = dto.wallet_address;
  round_number = dto.round_number;
  amount = dto.amount;
  transaction_hash = dto.transaction_hash;
  timestamp = dto.timestamp;
  asset_code = group.asset_code;
  asset_issuer = group.asset_issuer;
  unit_of_account_asset_code = group.unit_of_account_asset_code;
  unit_of_account_asset_issuer =
      if is_some group.unit_of_account_asset_issuer
      then group.unit_of_account_asset_issuer
      else group.asset_issuer;
  fx_rate = some (elim locked [ none ↦ one | some l ↦ (l.0).rate ]);
  fx_rate_captured_at = elim locked [ none ↦ none | some l ↦ some (l.0).captured_at ];
  fx_rate_expires_at = elim locked [ none ↦ none | some l ↦ some (l.0).expires_at ];
  fx_tolerance_bps = elim locked [ none ↦ group.fx_tolerance_bps | some l ↦ (l.0).tolerance_bps ];
  normalized_amount = elim locked [ none ↦ none | some l ↦ some l.1 ];
  status = status;
  idempotency_key = key;
}

abbrev pub has_key : Option ℕ → Contribution → Bool
has_key none c = false
has_key (some k) c = elim c.idempotency_key [ none ↦ false | some j ↦ j == k ]

abbrev pub is_contribution_of : ℕ → ℕ → ℕ → Contribution → Bool
is_contribution_of uid gid round c =
    c.user_id == uid && c.group_id == gid && c.round_number == round

-- The unique columns: the transaction, the user with group and round, and the key where there is one.
abbrev pub clashes : CreateContribution → Option ℕ → Contribution → Bool
clashes dto key c =
    c.transaction_hash == dto.transaction_hash
    || is_contribution_of dto.user_id dto.group_id dto.round_number c
    || has_key key c

-- INSERT … ON CONFLICT DO NOTHING: the row is stored as PENDING, and then as ON_CHAIN_SUBMITTED.
pub insert_contribution :
    ℕ
    → ℕ
    → CreateContribution
    → Option ℕ
    → Group
    → Option (LockedRate × ℕ)
    → Db
    → Result (Db × Contribution)
unfolding new_contribution
insert_contribution one id dto key group locked db =
    let row = new_contribution one id dto key group locked ContributionStatus.on_chain_submitted in
    if is_some (find (clashes dto key) db.contributions)
    then err conflict
    else ok (record db { contributions = db.contributions ++ row ∷ [] }, row)

-- Phases 3 to 7, up to the call of the round service.
pub store_contribution :
    Verifier → ℕ → ℕ → CreateContribution → Option ℕ → Db → Result (Db × Contribution)
unfolding verify_contribution insert_contribution
store_contribution v now id dto key db = do
  group ← or_throw (find_group dto.group_id db.groups) bad_request
  not_under_maintenance (v.maintenance dto.group_id)
  let member = find_membership dto.group_id dto.user_id db.memberships
  throw_if (is_suspended_member member) forbidden
  throw_if (not (is_active group.status)) bad_request
  throw_if (opened_later now group.start_date) bad_request
  throw_if (closed_before now group.end_date) bad_request
  throw_if (not (dto.round_number == group.current_round)) bad_request
  locked ← verify_contribution v group dto.transaction_hash
  stored ← insert_contribution v.one id dto key group locked db
  ok (emit (contribution_notified id) (emit (confirmation_queued id) stored.0), stored.1)

-- `createContribution` with the in-flight lock acquired. `payout` is the id of the payout row that the
-- round service may create.
pub create_contribution :
    Outside → Verifier → ℕ → ℕ → ℕ → CreateContribution → Option ℕ → Db → Db × Result Contribution
unfolding store_contribution
create_contribution out v now id payout dto key db = elim (find (has_key key) db.contributions) [
  | some existing ↦
      (db, if is_terminal existing.status then ok existing else v.in_flight existing.id)
  | none ↦ elim (store_contribution v now id dto key db) [
    | err e ↦ (db, err e)
    | ok r ↦ ((try_advance_round out payout dto.group_id r.0).0, ok r.1)
  ]
]

abbrev pub settled_status : ChainStatus → ContributionStatus → ContributionStatus
settled_status chain_confirmed old = ContributionStatus.confirmed
settled_status chain_failed old = ContributionStatus.failed
settled_status chain_pending old = old

abbrev pub is_submitted_contribution : ContributionStatus → Bool
is_submitted_contribution ContributionStatus.on_chain_submitted = true
is_submitted_contribution _ = false

-- `stale` tells which rows were last updated before the cutoff.
pub reconcile_stuck_contributions : Outside → (Contribution → Bool) → Db → Db
reconcile_stuck_contributions out stale db = record db {
  contributions =
      update_where (λ (c : Contribution). is_submitted_contribution c.status && stale c)
        (λ c. record c {
          status = settled_status (out.transaction_status c.transaction_hash) c.status;
        })
        db.contributions;
}
