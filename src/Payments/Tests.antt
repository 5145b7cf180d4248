-- ===== src/Payments/Tests.antt =====
-- Runs of PaymentsService on one plan of three installments.
use ahjoor_backend.Common.{
  ◌+◌, ◌≡◌, refl, arith, false, none, some, List, [], ◌∷◌, count_by, find, update_where, ok, All,
}
use ahjoor_backend.Payments.{
  Plan, active, completed, find_plan, save_plan, create_installment_plan, pause_plan, resume_plan,
  pause_row, get_penalty_accrual_state,
}
use ahjoor_backend.Payments.Pausing.{HasPlanKeys, pause-resume_lateness}
use ahjoor_backend.Payments.Invariant.{IsValid, settles, resumes, pauses_at, run, run-AllValid}
use ahjoor_backend.Payments.Schedule.{settle_times, settle_times-completes}

abbrev plan : Plan
plan = record {
  id = 1;
  total_amount = 100;
  num_installments = 3;
  interval_ledgers = 10;
  current_installment = 0;
  next_due_ledger = 0;
  expiry_ledger = 500;
  status = active;
  installment_amounts = 33 ∷ 33 ∷ 33 ∷ [];
  paused = false;
  paused_at_ledger = none;
  paused_at = none;
  total_paused_ledgers = 0;
  pause_count = 0;
  last_resumed_at_ledger = none;
}

abbrev plans : List Plan
plans = plan ∷ []

plans-HasPlanKeys : HasPlanKeys plans
unfolding count_by
plans-HasPlanKeys i = ground arith

plan-IsValid : IsValid plan
plan-IsValid = ground arith

found_plan : find_plan 1 plans ≡ some plan
unfolding find
found_plan = refl

creates : create_installment_plan 1 100 3 10 500 [] ≡ ok (plans, plan)
unfolding create_installment_plan
creates = refl

pauses : pause_plan 7 1 25 plans ≡ (pause_row 7 25 plan ∷ [], ok (pause_row 7 25 plan))
unfolding pause_plan find update_where
pauses = refl

run-AllValid_example : All IsValid (run (settles 1 5 ∷ pauses_at 7 1 25 ∷ resumes 1 40 ∷ []) plans)
run-AllValid_example =
    run-AllValid (settles 1 5 ∷ pauses_at 7 1 25 ∷ resumes 1 40 ∷ []) plans (plan-IsValid, tt)

settle_times-completes_example :
    (q : Plan) × (find_plan 1 (settle_times 3 1 20 plans) ≡ some q)
    × (q.status ≡ completed)
    × (q.current_installment ≡ 3)
settle_times-completes_example =
    settle_times-completes 2 1 20 plans plans-HasPlanKeys found_plan refl refl refl (omega arith)
      (omega arith)

pause-resume_lateness_example :
    (row back : Plan) × (find_plan 1 plans ≡ some row)
    × (resume_plan 1 40 (pause_row 7 25 plan ∷ [])
        ≡ (save_plan back (pause_row 7 25 plan ∷ []), ok back))
    × ((get_penalty_accrual_state back 40).ledgers_late
        ≡ (get_penalty_accrual_state row 25).ledgers_late)
    × ((get_penalty_accrual_state back 40).completed_penalty_windows
        ≡ (get_penalty_accrual_state row 25).completed_penalty_windows)
    × (back.expiry_ledger + 25 ≡ row.expiry_ledger + 40)
pause-resume_lateness_example =
    pause-resume_lateness 7 1 25 40 plans plans-HasPlanKeys pauses (omega arith)
