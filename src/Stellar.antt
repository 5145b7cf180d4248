-- ===== src/Stellar.antt =====
-- What a payout asks of the Stellar service (ahjoorxmr/src/stellar/stellar.service.ts), of decimal.js and
-- of text formatting, and the part of payout.service.ts that calls them.
use ahjoor_backend.Common.{
  ℕ, ◌==◌, if◌then◌else◌, Bool, Option, none, some, save_row, ◌≡◌, refl, ◌⊎◌, inl, inr,
}
use ahjoor_backend.Finance.{
  PayoutTransaction, PayoutStatus, PathPaymentOutcome, full_fill, is_unfilled,
}
use ahjoor_backend.Entities.{Group, Membership, Db}

-- How `disbursePayout` ended: it threw before it knew the hash, it threw after its callback had been
-- given the hash, or it gave the callback a hash and returned one.
pub data Disbursement : Type 0 where
  refused : Disbursement
  lost : ℕ → Disbursement
  paid_out : ℕ → ℕ → Disbursement

pub Disbursement-cases :
    (d : Disbursement) → (d ≡ refused) ⊎ ((h : ℕ) × (d ≡ lost h)) ⊎ ((c h : ℕ) × (d ≡ paid_out c h))
Disbursement-cases refused = inl refl
Disbursement-cases (lost h) = inr (inl (h, refl))
Disbursement-cases (paid_out c h) = inr (inr (c, h, refl))

-- How `submitPathPayment` ended: its outcome, hash, delivered amount, locked rate, and the text
-- `result.reason ?? result.outcome`.
pub data PathPayment : Type 0 where
  threw : PathPayment
  ended : PathPaymentOutcome → Option ℕ → Option ℕ → ℕ → ℕ → PathPayment

pub data ChainStatus : Type 0 where
  chain_confirmed chain_failed chain_pending : ChainStatus

pub record Outside : Type 0 where
  -- `disbursePayout(contract, wallet, amount, …, assetCode, assetIssuer)`, without the asset when
  -- the caller gives none.
  pub disburse : ℕ → ℕ → ℕ → Option (ℕ × Option ℕ) → Disbursement
  -- `submitPathPayment`: the asset sent and its issuer, the asset delivered and its issuer, the amount,
  -- the tolerance and the wallet. The rate is '1'.
  pub path_payment : ℕ → Option ℕ → ℕ → Option ℕ → ℕ → ℕ → ℕ → PathPayment
  pub transaction_status : ℕ → ChainStatus
  pub uppercase : ℕ → ℕ
  -- `payout_${groupId}:${round}`, and `payout_${status}_${id}`.
  pub order_text : ℕ → ℕ → ℕ
  pub state_text : PayoutStatus → ℕ → ℕ
  -- decimal.js: the sum of texts, the product of two, and `toFixed(7)`.
  pub decimal_zero : ℕ
  pub plus : ℕ → ℕ → ℕ
  pub times : ℕ → ℕ → ℕ
  pub to_fixed : ℕ → ℕ
  pub one : ℕ
  -- The SIMULATE_PAYOUT_CRASH_AFTER_SUBMIT setting.
  pub crash_after_submit : Bool

abbrev pub save_payout : PayoutTransaction → Db → Db
save_payout t db = record db { payouts = save_row (λ (x : PayoutTransaction). x.id) t db.payouts }

abbrev pub or_else {ℓ} : {A : Type ℓ} → Option A → A → A
or_else none d = d
or_else (some a) d = a

module _ (out : Outside) where
  -- The payout row and hash after the chain call, or the row as it is when the call threw: the pair
  -- holds the row in memory, and the first part the database as last saved.
  unfoldable pub pay_by_contract :
      ℕ → ℕ → PayoutTransaction → ℕ → Db → Db × PayoutTransaction × Option ℕ
  pay_by_contract contract wallet t amount db =
      elim (out.disburse contract wallet amount (some (t.asset_code, t.asset_issuer))) [
        | refused ↦ (db, t, none)
        | lost hash ↦
            let seen = record t { tx_hash = some hash } in (save_payout seen db, seen, none)
        | paid_out calculated hash ↦
            let seen = record t { tx_hash = some calculated } in
            (
              save_payout seen db,
              record t {
                tx_hash = some hash;
                delivered_amount = some amount;
                path_payment_outcome = some full_fill;
              },
              some hash,
            )
      ]

  unfoldable pub pay_by_path :
      ℕ → ℕ → Group → PayoutTransaction → ℕ → ℕ → Db → Db × PayoutTransaction × Option ℕ
  pay_by_path gid round group t wallet amount db =
      elim (out.path_payment (out.uppercase group.asset_code) group.asset_issuer t.asset_code
        t.asset_issuer amount group.fx_tolerance_bps wallet) [
          | threw ↦ (db, t, none)
          | ended outcome hash delivered rate reason ↦
              if is_unfilled outcome
              then (
                save_payout
                    (record t {
                      status = PayoutStatus.failed;
                      failure_reason = some reason;
                      path_payment_outcome = some outcome;
                    })
                    db,
                record t {
                  status = PayoutStatus.failed;
                  failure_reason = some reason;
                  path_payment_outcome = some outcome;
                },
                none,
              )
              else (
                db,
                record t {
                  tx_hash = some (or_else hash (out.order_text gid round));
                  delivered_amount = delivered;
                  path_payment_outcome = some outcome;
                  fx_rate = some rate;
                },
                some (or_else hash (out.order_text gid round)),
              )
        ]

  -- The `try` block up to the simulated crash, by the assets of the group.
  unfoldable pub pay :
      ℕ
      → ℕ
      → Group
      → ℕ
      → Membership
      → PayoutTransaction
      → ℕ
      → Db
      → Db × PayoutTransaction × Option ℕ
  unfolding pay_by_contract pay_by_path
  pay gid round group contract recipient t amount db =
      if out.uppercase group.asset_code == out.uppercase t.asset_code
      then pay_by_contract contract recipient.wallet_address t amount db
      else pay_by_path gid round group t recipient.wallet_address amount db
