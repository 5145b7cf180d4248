-- ===== src/Payments.antt =====
-- ahjoorxmr/src/payments: installment plans (payments.service.ts), and the due and penalty-window
-- arithmetic (installment-penalty-accrual.ts). Ledger numbers and amounts are natural numbers.
-- A handler gives the stored plans back also when it throws, since one branch saves and then throws.
mod Tests
pub mod Invariant
pub mod Pausing
pub mod Schedule
use ahjoor_backend.Common.{
  ℕ, suc, zero, ◌+◌, ◌-◌, ◌*◌, ◌/◌, ◌%◌, ◌==◌, max, ltb, leb, if◌then◌else◌, not, ◌&&◌, ◌||◌, Bool,
  true, false, Option, none, some, List, [], ◌∷◌, ◌++◌, find, Result, ok, err, not_found,
  bad_request, too_many_requests, save_row,
}

pub data PlanStatus : Type 0 where
  active completed expired paused : PlanStatus

pub record Plan : Type 0 where
  pub id : ℕ
  pub total_amount : ℕ
  pub num_installments : ℕ
  pub interval_ledgers : ℕ
  pub current_installment : ℕ
  pub next_due_ledger : ℕ
  pub expiry_ledger : ℕ
  pub status : PlanStatus
  pub installment_amounts : List ℕ
  pub paused : Bool
  pub paused_at_ledger : Option ℕ
  pub paused_at : Option ℕ
  pub total_paused_ledgers : ℕ
  pub pause_count : ℕ
  pub last_resumed_at_ledger : Option ℕ

abbrev pub max_pauses_per_plan : ℕ
max_pauses_per_plan = 3

abbrev pub min_ledgers_between_pauses : ℕ
min_ledgers_between_pauses = 100

abbrev pub is_running : PlanStatus → Bool
is_running active = true
is_running _ = false

abbrev pub is_paused : PlanStatus → Bool
is_paused PlanStatus.paused = true
is_paused _ = false

abbrev pub find_plan : ℕ → List Plan → Option Plan
find_plan id = find (λ (p : Plan). p.id == id)

abbrev pub save_plan : Plan → List Plan → List Plan
save_plan = save_row (λ (p : Plan). p.id)

-- `Array(n).fill(amount)`.
pub fill : ℕ → ℕ → List ℕ
fill zero amount = []
fill (suc n) amount = amount ∷ fill n amount

-- BigInt division drops the remainder.
pub create_installment_plan : ℕ → ℕ → ℕ → ℕ → ℕ → List Plan → Result (List Plan × Plan)
unfolding fill
create_installment_plan id total n interval expiry plans =
    let plan : Plan = record {
      id = id;
      total_amount = total;
      num_installments = n;
      interval_ledgers = interval;
      current_installment = 0;
      next_due_ledger = 0;
      expiry_ledger = expiry;
      status = active;
      installment_amounts = fill n (total / n);
      paused = false;
      paused_at_ledger = none;
      paused_at = none;
      total_paused_ledgers = 0;
      pause_count = 0;
      last_resumed_at_ledger = none;
    } in
    if ltb n 1 then err bad_request else ok (plans ++ plan ∷ [], plan)

-- The row after one payment.
pub pay_installment : Plan → Plan
pay_installment plan =
    let paid : ℕ = plan.current_installment + 1 in
    if leb plan.num_installments paid
    then record plan { current_installment = paid; status = completed }
    else record plan {
      current_installment = paid;
      next_due_ledger = plan.next_due_ledger + plan.interval_ledgers;
    }

-- An expired plan is saved as such before the exception.
pub settle_row : ℕ → Plan → List Plan → List Plan × Result Plan
unfolding pay_installment
settle_row ledger plan plans =
    if not (is_running plan.status)
    then (plans, err bad_request)
    else if plan.paused
    then (plans, err bad_request)
    else if ltb ledger plan.next_due_ledger
    then (plans, err bad_request)
    else if leb plan.num_installments plan.current_installment
    then (plans, err bad_request)
    else if ltb plan.expiry_ledger ledger
    then (save_plan (record plan { status = expired }) plans, err bad_request)
    else (save_plan (pay_installment plan) plans, ok (pay_installment plan))

pub settle_installment : ℕ → ℕ → List Plan → List Plan × Result Plan
unfolding settle_row
settle_installment id ledger plans = elim (find_plan id plans) [
  | none ↦ (plans, err not_found)
  | some plan ↦ settle_row ledger plan plans
]

-- `currentLedger - lastResumedAtLedger < MIN_LEDGERS_BETWEEN_PAUSES`; the difference may be negative.
abbrev pub cooling_down : ℕ → Option ℕ → Bool
cooling_down ledger none = false
cooling_down ledger (some last) = ltb ledger (last + min_ledgers_between_pauses)

abbrev pub pause_row : ℕ → ℕ → Plan → Plan
pause_row now ledger plan = record plan {
  paused = true;
  status = PlanStatus.paused;
  paused_at_ledger = some ledger;
  paused_at = some now;
  pause_count = plan.pause_count + 1;
}

pub pause_plan : ℕ → ℕ → ℕ → List Plan → List Plan × Result Plan
pause_plan now id ledger plans = elim (find_plan id plans) [
  | none ↦ (plans, err not_found)
  | some plan ↦
      if not (is_running plan.status) || plan.paused
      then (plans, err bad_request)
      else if leb max_pauses_per_plan plan.pause_count
      then (plans, err bad_request)
      else if cooling_down ledger plan.last_resumed_at_ledger
      then (plans, err too_many_requests)
      else (save_plan (pause_row now ledger plan) plans, ok (pause_row now ledger plan))
]

-- `computePausedLedgers`, whose own check the caller has made.
pub compute_paused_ledgers : ℕ → ℕ → ℕ
compute_paused_ledgers paused_at resumed = resumed - paused_at

-- A missing anchor (a backfilled pause) is the resume ledger itself.
abbrev pub anchor : ℕ → Option ℕ → ℕ
anchor ledger none = ledger
anchor ledger (some at) = at

pub resume_row : ℕ → Plan → Plan
unfolding compute_paused_ledgers
resume_row ledger plan =
    let away : ℕ = compute_paused_ledgers (anchor ledger plan.paused_at_ledger) ledger in
    record plan {
      next_due_ledger = plan.next_due_ledger + away;
      expiry_ledger = plan.expiry_ledger + away;
      total_paused_ledgers = plan.total_paused_ledgers + away;
      paused = false;
      status = active;
      paused_at_ledger = none;
      paused_at = none;
      last_resumed_at_ledger = some ledger;
    }

pub resume_plan : ℕ → ℕ → List Plan → List Plan × Result Plan
unfolding resume_row
resume_plan id ledger plans = elim (find_plan id plans) [
  | none ↦ (plans, err not_found)
  | some plan ↦
      if not (is_paused plan.status) || not plan.paused
      then (plans, err bad_request)
      else if ltb ledger (anchor ledger plan.paused_at_ledger)
      then (plans, err bad_request)
      else (save_plan (resume_row ledger plan) plans, ok (resume_row ledger plan))
]

-- `midWindowProgress` is the fraction mid_window / interval.
pub record PenaltyAccrualState : Type 0 where
  pub accruing : Bool
  pub effective_due_ledger : ℕ
  pub ledgers_late : ℕ
  pub completed_penalty_windows : ℕ
  pub mid_window : ℕ
  pub window : ℕ

pub get_penalty_accrual_state : Plan → ℕ → PenaltyAccrualState
get_penalty_accrual_state plan ledger =
    let due : ℕ = plan.next_due_ledger in
    let interval : ℕ = max plan.interval_ledgers 1 in
    let late : ℕ = ledger - due in
    if plan.paused
    then record {
      accruing = false;
      effective_due_ledger = due;
      ledgers_late = 0;
      completed_penalty_windows = 0;
      mid_window = 0;
      window = interval;
    }
    else record {
      accruing = ltb 0 late;
      effective_due_ledger = due;
      ledgers_late = late;
      completed_penalty_windows = late / interval;
      mid_window = late % interval;
      window = interval;
    }

pub get_plan : ℕ → List Plan → Result Plan
get_plan id plans = elim (find_plan id plans) [ none ↦ err not_found | some plan ↦ ok plan ]
