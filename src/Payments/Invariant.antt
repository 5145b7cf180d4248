-- ===== src/Payments/Invariant.antt =====
-- What holds of every stored plan between two calls of the payments service.
use ahjoor_backend.Common.{
  ℕ, ◌==◌, ◌≤◌, ◌<◌, ◌≡◌, ◌≢◌, sym, subst, arith, ltb, leb, not, ◌||◌, true, false, none, List, [],
  ◌∷◌, ◌++◌, ok, Option-cases, Bool-cases, inl, inr, ◌⊎◌, All, All-find, All-update,
}
use ahjoor_backend.Payments.{
  Plan, PlanStatus, active, completed, expired, find_plan, save_plan, create_installment_plan,
  pause_plan, resume_plan, settle_installment, pay_installment, settle_row, pause_row, resume_row,
  is_running, is_paused, anchor, cooling_down, max_pauses_per_plan,
}

pub record IsValid (p : Plan) : Type 0 where
  pub counted : p.current_installment ≤ p.num_installments
  pub finished : p.status ≡ completed → p.current_installment ≡ p.num_installments
  pub unfinished : p.status ≢ completed → p.current_installment < p.num_installments
  pub flag_set : p.paused ≡ true → p.status ≡ PlanStatus.paused
  pub flag_clear : p.paused ≡ false → p.status ≢ PlanStatus.paused
  pub anchored : p.paused ≡ false → p.paused_at_ledger ≡ none
  pub pauses : p.pause_count ≤ 3

-- A call of the service on the stored plans; its clock readings are arguments.
pub data Call : Type 0 where
  settles resumes : ℕ → ℕ → Call
  pauses_at : ℕ → ℕ → ℕ → Call

pub apply : Call → List Plan → List Plan
apply (settles id ledger) plans = (settle_installment id ledger plans).0
apply (resumes id ledger) plans = (resume_plan id ledger plans).0
apply (pauses_at now id ledger) plans = (pause_plan now id ledger plans).0

pub run : List Call → List Plan → List Plan
unfolding apply
run [] plans = plans
run (c ∷ cs) plans = run cs (apply c plans)

save-AllValid :
    (plans : List Plan) (r : Plan) → All IsValid plans → IsValid r → All IsValid (save_plan r plans)
save-AllValid plans r all v =
    All-update IsValid (λ (x : Plan). x.id == r.id) (λ _. r) plans all (λ _ _. v)

pay-IsValid : (p : Plan) → IsValid p → p.status ≡ active → IsValid (pay_installment p)
unfolding pay_installment
pay-IsValid p v run = ground arith

-- `createInstallmentPlan` refuses zero installments and otherwise appends a valid plan.
pub create-AllValid :
    (id total n interval expiry : ℕ) (plans : List Plan) {plans' : List Plan} {p : Plan}
    → create_installment_plan id total n interval expiry plans ≡ ok (plans', p)
    → (1 ≤ n) × (plans' ≡ plans ++ p ∷ []) × IsValid p
unfolding create_installment_plan
create-AllValid id total n interval expiry plans e = ground arith

expire-IsValid :
    (p : Plan)
    → IsValid p
    → p.status ≡ active
    → p.current_installment < p.num_installments
    → IsValid (record p { status = expired })
expire-IsValid p v run open_ = ground arith

-- The stored plans are left alone, or one row is saved in their place.
abbrev Saves : List Plan → List Plan → Type 0
Saves plans out = (out ≡ plans) ⊎ ((r : Plan) × (out ≡ save_plan r plans) × IsValid r)

Saves-AllValid : {plans out : List Plan} → Saves plans out → All IsValid plans → All IsValid out
Saves-AllValid (inl e) all = subst (All IsValid) (sym e) all
Saves-AllValid {plans} (inr (r, e, v)) all =
    subst (All IsValid) (sym e) (save-AllValid plans r all v)

settle_row_cases :
    (ledger : ℕ) (p : Plan) (plans : List Plan)
    → let out = (settle_row ledger p plans).0 in
      (out ≡ plans)
      ⊎ ((out ≡ save_plan (record p { status = expired }) plans)
          × (p.status ≡ active)
          × (p.current_installment < p.num_installments))
      ⊎ ((out ≡ save_plan (pay_installment p) plans) × (p.status ≡ active))
unfolding settle_row
settle_row_cases ledger p plans = ground arith

settle_row-Saves :
    (ledger : ℕ) (p : Plan) (plans : List Plan)
    → IsValid p
    → Saves plans (settle_row ledger p plans).0
settle_row-Saves ledger p plans v = elim (settle_row_cases ledger p plans) [
  | inl same ↦ inl same
  | inr (inl (e, run, left)) ↦ inr (record p { status = expired }, e, expire-IsValid p v run left)
  | inr (inr (e, run)) ↦ inr (pay_installment p, e, pay-IsValid p v run)
]

pause-Saves :
    (now id ledger : ℕ) (plans : List Plan)
    → All IsValid plans
    → Saves plans (pause_plan now id ledger plans).0
unfolding pause_plan
pause-Saves now id ledger plans all = elim (Option-cases (find_plan id plans)) [
  | inl missing ↦ inl (ground arith)
  | inr (p, f) ↦
      let v = All-find IsValid (λ (x : Plan). x.id == id) plans all f in
      elim (Bool-cases (
        not (is_running p.status)
        || p.paused
        || leb max_pauses_per_plan p.pause_count
        || cooling_down ledger p.last_resumed_at_ledger)) [
          | inl refused ↦ inl (ground arith)
          | inr granted ↦ inr (pause_row now ledger p, ground arith, ground arith)
        ]
]

resume-Saves :
    (id ledger : ℕ) (plans : List Plan)
    → All IsValid plans
    → Saves plans (resume_plan id ledger plans).0
unfolding resume_plan
resume-Saves id ledger plans all = elim (Option-cases (find_plan id plans)) [
  | inl missing ↦ inl (ground arith)
  | inr (p, f) ↦
      let v = All-find IsValid (λ (x : Plan). x.id == id) plans all f in
      elim (Bool-cases (
        not (is_paused p.status)
        || not p.paused
        || ltb ledger (anchor ledger p.paused_at_ledger))) [
          | inl refused ↦ inl (ground arith)
          | inr granted ↦ inr (resume_row ledger p, ground arith, ground arith)
        ]
]

settle-AllValid :
    (id ledger : ℕ) (plans : List Plan)
    → All IsValid plans
    → All IsValid (settle_installment id ledger plans).0
unfolding settle_installment
settle-AllValid id ledger plans all = elim (Option-cases (find_plan id plans)) [
  | inl missing ↦ rw (missing, settle_installment) all
  | inr (p, f) ↦
      rw (f, settle_installment)
        (Saves-AllValid (settle_row-Saves ledger p plans (All-find IsValid _ plans all f)) all)
]

apply-AllValid : (c : Call) (plans : List Plan) → All IsValid plans → All IsValid (apply c plans)
unfolding apply
apply-AllValid (settles id ledger) plans all = settle-AllValid id ledger plans all
apply-AllValid (resumes id ledger) plans all = Saves-AllValid (resume-Saves id ledger plans all) all
apply-AllValid (pauses_at now id ledger) plans all =
    Saves-AllValid (pause-Saves now id ledger plans all) all

-- Whatever settlements, pauses and resumptions are made, in any order, every stored plan stays
-- valid: payments within the installments, COMPLETED exactly when all are paid, paused flag and
-- PAUSED status in agreement, three pauses at most.
pub run-AllValid :
    (cs : List Call) (plans : List Plan) → All IsValid plans → All IsValid (run cs plans)
unfolding run
run-AllValid [] plans all = all
run-AllValid (c ∷ cs) plans all = run-AllValid cs (apply c plans) (apply-AllValid c plans all)
