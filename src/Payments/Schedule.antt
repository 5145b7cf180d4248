-- ===== src/Payments/Schedule.antt =====
-- What a plan charges in all, and that paying on time completes it.
use ahjoor_backend.Common.{
  ℕ, suc, zero, ◌+◌, ◌*◌, ◌/◌, ◌%◌, ◌≤◌, ◌<◌, ◌≡◌, refl, ap, arith, false, some, List, [], ◌∷◌, ok,
  save-keys,
}
use native.Mathlib.Nat.{div-add-mod}
use ahjoor_backend.Payments.{
  Plan, active, completed, find_plan, save_plan, create_installment_plan, settle_installment,
  pay_installment, fill,
}
use ahjoor_backend.Payments.Pausing.{HasPlanKeys, find-save_plan}

abbrev pub sum : List ℕ → ℕ
sum [] = 0
sum (x ∷ xs) = x + sum xs

sum-fill : (n amount : ℕ) → sum (fill n amount) ≡ n * amount
unfolding fill
sum-fill zero amount = omega arith
sum-fill (suc n) amount = omega (arith, sum-fill n amount)

-- The installments of a new plan add up to its total less the remainder of the division by their
-- number, and that remainder is below the number.
pub create-charges :
    (id total n interval expiry : ℕ) (plans : List Plan) {plans' : List Plan} {p : Plan}
    → create_installment_plan id total n interval expiry plans ≡ ok (plans', p)
    → (sum p.installment_amounts + total % n ≡ total) × (total % n < n)
unfolding create_installment_plan
create-charges id total n interval expiry plans {p = p} e =
    let amounts : p.installment_amounts ≡ fill n (total / n) = ground arith in
    let some_ : 1 ≤ n = ground arith in
    (grind (arith, ap sum amounts, sum-fill n (total / n), div-add-mod total n), omega arith)

-- `settleInstallment` called k times at one ledger.
pub settle_times : ℕ → ℕ → ℕ → List Plan → List Plan
settle_times zero id ledger plans = plans
settle_times (suc k) id ledger plans =
    settle_times k id ledger (settle_installment id ledger plans).0

settle-pays :
    (id ledger : ℕ) (plans : List Plan) {p : Plan}
    → find_plan id plans ≡ some p
    → p.status ≡ active
    → p.paused ≡ false
    → p.next_due_ledger ≤ ledger
    → ledger ≤ p.expiry_ledger
    → p.current_installment < p.num_installments
    → settle_installment id ledger plans
      ≡ (save_plan (pay_installment p) plans, ok (pay_installment p))
unfolding settle_installment
settle-pays id ledger plans f run free due fresh left = ground arith

-- A running plan with k + 1 installments left, all due at the ledger and the plan not expired, is
-- COMPLETED by k + 1 settlements, with every installment paid; plan ids are unique.
pub settle_times-completes :
    (k id ledger : ℕ) (plans : List Plan) {p : Plan}
    → HasPlanKeys plans
    → find_plan id plans ≡ some p
    → p.status ≡ active
    → p.paused ≡ false
    → p.current_installment + suc k ≡ p.num_installments
    → p.next_due_ledger + k * p.interval_ledgers ≤ ledger
    → ledger ≤ p.expiry_ledger
    → (q : Plan) × (find_plan id (settle_times (suc k) id ledger plans) ≡ some q)
      × (q.status ≡ completed)
      × (q.current_installment ≡ p.num_installments)
unfolding settle_times pay_installment
settle_times-completes zero id ledger plans {p} keys f run free left due fresh =
    let paid : Plan = pay_installment p in
    let one = settle-pays id ledger plans f run free (omega arith) fresh (omega arith) in
    (
      paid,
      rw (settle_times, one) (find-save_plan id plans paid f (ground arith) keys),
      ground arith,
      ground arith,
    )
settle_times-completes (suc k) id ledger plans {p} keys f run free left due fresh =
    let paid : Plan = record p {
      current_installment = p.current_installment + 1;
      next_due_ledger = p.next_due_ledger + p.interval_ledgers;
    } in
    let one : settle_installment id ledger plans ≡ (save_plan paid plans, ok paid) =
      ground (arith, settle-pays id ledger plans f run free (omega arith) fresh (omega arith)) in
    let (q, at, done, all) =
      settle_times-completes k id ledger (save_plan paid plans) {p = paid}
        (save-keys (λ (x : Plan). x.id) plans paid keys) (find-save_plan id plans paid f refl keys)
        run free (omega arith) (omega arith) fresh in
    (q, rw (one, settle_times) at, done, all)
