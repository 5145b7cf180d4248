-- ===== src/Penalties/Deduction.antt =====
-- PenaltyService.deductPenaltiesFromContribution: the debts that a contribution settles.
use ahjoor_backend.Common.{
  ℕ, suc, ◌+◌, if◌then◌else◌, Option, none, some, find, ◌==◌, ◌≡◌, refl, ap, sym, ◌∙◌, arith, List,
  [], ◌∷◌, count_by, filter_by, update_where, inl, inr, length-filter, length, map, ◌⊎◌,
}
use ahjoor_backend.Finance.{Penalty, PenaltyStatus}
use ahjoor_backend.Entities.{Db}
use ahjoor_backend.Stellar.{Outside}
use ahjoor_backend.Payout.{outstanding_penalties}
use ahjoor_backend.Penalties.{
  is_owed, deduct_penalties_from_contribution, pay_penalty, sort_by_due, insert_by_due,
  get_pending_penalties, find_penalty, total_of,
}

nobody-owed :
    (uid gid now : ℕ) (table : List Penalty)
    → count_by (is_owed uid gid) (update_where (is_owed uid gid) (pay_penalty now) table) ≡ 0
unfolding count_by update_where
nobody-owed uid gid now [] = refl
nobody-owed uid gid now (p ∷ ps) = ground (arith, nobody-owed uid gid now ps)

-- The row as the deduction leaves it.
abbrev pub settled : ℕ → ℕ → ℕ → Option Penalty → Option Penalty
settled uid gid now none = none
settled uid gid now (some p) =
    some (
      if is_owed uid gid p then record p { status = PenaltyStatus.paid; paid_at = some now } else p)

find-settled :
    (uid gid now id : ℕ) (table : List Penalty)
    → find_penalty id (update_where (is_owed uid gid) (pay_penalty now) table)
      ≡ settled uid gid now (find_penalty id table)
unfolding find update_where
find-settled uid gid now id [] = refl
find-settled uid gid now id (p ∷ ps) = ground (arith, find-settled uid gid now id ps)

find-unowed :
    (uid gid now id : ℕ) (table : List Penalty)
    → count_by (is_owed uid gid) table ≡ 0
    → find_penalty id table ≡ settled uid gid now (find_penalty id table)
unfolding find count_by
find-unowed uid gid now id [] e = refl
find-unowed uid gid now id (p ∷ ps) e = ground (arith, find-unowed uid gid now id ps)

-- The sum of the amounts that a user owes in a group.
unfoldable pub owed_amount : ℕ → ℕ → List Penalty → ℕ
owed_amount uid gid [] = 0
owed_amount uid gid (p ∷ ps) = (if is_owed uid gid p then p.amount else 0) + owed_amount uid gid ps

abbrev sum_amounts : List Penalty → ℕ
sum_amounts [] = 0
sum_amounts (p ∷ ps) = p.amount + sum_amounts ps

sum-insert_by_due :
    (p : Penalty) (ps : List Penalty) → sum_amounts (insert_by_due p ps) ≡ p.amount + sum_amounts ps
unfolding insert_by_due
sum-insert_by_due p [] = refl
sum-insert_by_due p (q ∷ qs) = ground (arith, sum-insert_by_due p qs)

sum-sort_by_due : (ps : List Penalty) → sum_amounts (sort_by_due ps) ≡ sum_amounts ps
unfolding sort_by_due
sum-sort_by_due [] = refl
sum-sort_by_due (p ∷ ps) = omega (arith, sum-insert_by_due p (sort_by_due ps), sum-sort_by_due ps)

sum-owed :
    (uid gid : ℕ) (table : List Penalty)
    → sum_amounts (filter_by (is_owed uid gid) table) ≡ owed_amount uid gid table
unfolding filter_by owed_amount
sum-owed uid gid [] = refl
sum-owed uid gid (p ∷ ps) = ground (arith, sum-owed uid gid ps)

sum-pending :
    (uid gid : ℕ) (table : List Penalty)
    → sum_amounts (get_pending_penalties uid gid table) ≡ owed_amount uid gid table
unfolding get_pending_penalties
sum-pending uid gid table =
    sum-sort_by_due (filter_by (is_owed uid gid) table) ∙ sum-owed uid gid table

total_of-sum :
    (out : Outside) (n : ℕ) (ps : List Penalty)
    → ((a b : ℕ) → out.plus a b ≡ a + b)
    → total_of out n ps ≡ n + sum_amounts ps
unfolding total_of
total_of-sum out n [] adds = omega arith
total_of-sum out n (p ∷ ps) adds =
    omega (arith, adds n p.amount, total_of-sum out (out.plus n p.amount) ps adds)

insert_by_due-length :
    (p : Penalty) (ps : List Penalty) → length (insert_by_due p ps) ≡ suc (length ps)
unfolding insert_by_due
insert_by_due-length p [] = refl
insert_by_due-length p (q ∷ qs) = ground (arith, insert_by_due-length p qs)

sort_by_due-length : (ps : List Penalty) → length (sort_by_due ps) ≡ length ps
unfolding sort_by_due
sort_by_due-length [] = refl
sort_by_due-length (p ∷ ps) =
    insert_by_due-length p (sort_by_due ps) ∙ ap suc (sort_by_due-length ps)

owed-length :
    (uid gid : ℕ) (table : List Penalty)
    → length (get_pending_penalties uid gid table) ≡ outstanding_penalties gid uid table
unfolding get_pending_penalties
owed-length uid gid table =
    sort_by_due-length (filter_by (is_owed uid gid) table) ∙ length-filter (is_owed uid gid) table

owed-cases : (ps : List Penalty) → (ps ≡ []) ⊎ ((q : Penalty) × (qs : List Penalty) × (ps ≡ q ∷ qs))
owed-cases [] = inl refl
owed-cases (q ∷ qs) = inr (q, qs, refl)

length-map : (f : Penalty → Penalty) (ps : List Penalty) → length (map f ps) ≡ length ps
length-map f [] = refl
length-map f (p ∷ ps) = ap suc (length-map f ps)

-- After the deduction every penalty that the user had pending in the group is PAID at that time
-- and every other penalty is as it was; the amount is the sum of those that were pending,
-- formatted, or 0 where there was none; as many penalties are returned as were pending, and none
-- is pending any more. The additions of decimal.js are exact and its zero is 0.
pub deduct_penalties-settles :
    (out : Outside) (now uid gid id : ℕ) (db : Db)
    → ((a b : ℕ) → out.plus a b ≡ a + b)
    → out.decimal_zero ≡ 0
    → let (db', amount, paid) = deduct_penalties_from_contribution out now uid gid db in
      (find_penalty id db'.penalties ≡ settled uid gid now (find_penalty id db.penalties))
      × (amount ≡ (
          if outstanding_penalties gid uid db.penalties == 0
          then 0
          else out.to_fixed (owed_amount uid gid db.penalties)))
      × (length paid ≡ outstanding_penalties gid uid db.penalties)
      × (outstanding_penalties gid uid db'.penalties ≡ 0)
unfolding deduct_penalties_from_contribution
deduct_penalties-settles out now uid gid id db adds zero_text =
    elim (owed-cases (get_pending_penalties uid gid db.penalties)) [
      | inl nothing ↦
          let none_owed : outstanding_penalties gid uid db.penalties ≡ 0 =
            sym (owed-length uid gid db.penalties) ∙ ap length nothing in
          rw (nothing, deduct_penalties_from_contribution)
            (
              find-unowed uid gid now id db.penalties none_owed,
              ground (arith, none_owed, zero_text),
              sym none_owed,
              none_owed,
            )
      | inr (p, ps, some_owed) ↦
          let count : suc (length ps) ≡ outstanding_penalties gid uid db.penalties =
            sym (ap length some_owed) ∙ owed-length uid gid db.penalties in
          let total : total_of out out.decimal_zero (p ∷ ps) ≡ owed_amount uid gid db.penalties =
            omega (
              arith,
              total_of-sum out out.decimal_zero (p ∷ ps) adds,
              zero_text,
              ap sum_amounts some_owed,
              sum-pending uid gid db.penalties,
            ) in
          rw (some_owed, deduct_penalties_from_contribution)
            (
              find-settled uid gid now id db.penalties,
              ground (arith, count, ap out.to_fixed total),
              ground (arith, count, length-map (pay_penalty now) ps),
              nobody-owed uid gid now db.penalties,
            )
    ]
