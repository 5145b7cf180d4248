-- ===== src/Payments/Pausing.antt =====
-- The product rule of installment-pause.constants.ts: the penalty clock stands still in a pause.
use ahjoor_backend.Common.{
  ℕ, ◌+◌, ◌==◌, ◌≤◌, ◌<◌, ◌≡◌, ap, ◌∙◌, arith, false, some, List, ok, Option-cases, inl, inr,
  find-save, HasUniqueKeys, find-holds, ==_true,
}
use ahjoor_backend.Payments.{
  Plan, active, find_plan, save_plan, pause_plan, resume_plan, pause_row, resume_row,
  get_penalty_accrual_state, cooling_down,
}

abbrev pub HasPlanKeys : List Plan → Type 0
HasPlanKeys = HasUniqueKeys (λ (p : Plan). p.id)

stored_id : (id : ℕ) (plans : List Plan) {p : Plan} → find_plan id plans ≡ some p → p.id ≡ id
stored_id id plans {p} f = ==_true p.id id (find-holds (λ (x : Plan). x.id == id) plans f)

pub find-save_plan :
    (id : ℕ) (plans : List Plan) {p : Plan} (r : Plan)
    → find_plan id plans ≡ some p
    → r.id ≡ p.id
    → HasPlanKeys plans
    → find_plan id (save_plan r plans) ≡ some r
find-save_plan id plans {p} r f same keys =
    find-save (λ (x : Plan). x.id) (λ (x : Plan). x.id == id) plans r f same
      (ground (arith, stored_id id plans f)) keys

-- What a successful `pausePlan` has checked and stored.
pub record Paused (now id ledger : ℕ) (plans plans' : List Plan) (r : Plan) : Type 0 where
  pub row : Plan
  pub found : find_plan id plans ≡ some row
  pub running : row.status ≡ active
  pub unpaused : row.paused ≡ false
  pub room : row.pause_count < 3
  pub cooled : cooling_down ledger row.last_resumed_at_ledger ≡ false
  pub result : r ≡ pause_row now ledger row
  pub written : plans' ≡ save_plan r plans

pause_plan-Paused :
    (now id ledger : ℕ) (plans : List Plan) {plans' : List Plan} {r : Plan}
    → pause_plan now id ledger plans ≡ (plans', ok r)
    → Paused now id ledger plans plans' r
unfolding pause_plan
pause_plan-Paused now id ledger plans e = elim (Option-cases (find_plan id plans)) [
  | inl missing ↦ absurd (ground arith)
  | inr (p, f) ↦ record {
    row = p;
    found = f;
    running = ground arith;
    unpaused = ground arith;
    room = ground arith;
    cooled = ground arith;
    result = ground arith;
    written = ground arith;
  }
]

-- A plan paused at ledger t and resumed at a later ledger u is as late at u, with as many
-- completed penalty windows, as it was at t, and its expiry has moved by u - t; plan ids are
-- unique.
pub pause-resume_lateness :
    (now id t u : ℕ) (plans : List Plan) {plans' : List Plan} {r : Plan}
    → HasPlanKeys plans
    → pause_plan now id t plans ≡ (plans', ok r)
    → t ≤ u
    → (row back : Plan) × (find_plan id plans ≡ some row)
      × (resume_plan id u plans' ≡ (save_plan back plans', ok back))
      × ((get_penalty_accrual_state back u).ledgers_late
          ≡ (get_penalty_accrual_state row t).ledgers_late)
      × ((get_penalty_accrual_state back u).completed_penalty_windows
          ≡ (get_penalty_accrual_state row t).completed_penalty_windows)
      × (back.expiry_ledger + t ≡ row.expiry_ledger + u)
unfolding resume_plan get_penalty_accrual_state
pause-resume_lateness now id t u plans {plans'} {r} keys e h =
    let p = pause_plan-Paused now id t plans e in
    let stored : find_plan id plans' ≡ some r =
      ap (find_plan id) p.written
      ∙ find-save_plan id plans r p.found (ground (arith, p.result)) keys in
    (
      p.row,
      resume_row u r,
      p.found,
      ground (arith, stored, p.result),
      ground (arith, p.result, p.unpaused),
      ground (arith, p.result, p.unpaused),
      ground (arith, p.result),
    )
