-- ===== src/Penalties.antt =====
-- ahjoorxmr/src/penalties/services/penalty.service.ts: fines for missed contributions, and what becomes
-- of them. Rows that are created get their id from `fresh`, by the fined user.
mod Tests
pub mod Assessment
pub mod Deduction
pub mod Disputes
use ahjoor_backend.Common.{
  ℕ, suc, ◌+◌, ◌==◌, leb, if◌then◌else◌, not, ◌&&◌, ◌||◌, Bool, true, false, Option, none, some,
  List, [], ◌∷◌, ◌++◌, map, find, count_by, filter_by, update_where, Result, ok, err, HttpError,
  not_found, bad_request, forbidden, internal_error, ◌>>=◌, ◌>>◌, throw_if, or_throw, save_row,
}
use ahjoor_backend.Finance.{Penalty, PenaltyStatus, Contribution, is_pending_penalty, is_disputed}
use ahjoor_backend.Entities.{
  Group, Membership, Db, Effect, NotificationType, notified, dispute_submitted, dispute_resolved,
  emit, in_group, find_group, is_some,
}
use ahjoor_backend.Stellar.{Outside}

-- `where: { userId, groupId, roundNumber }` on contributions, of any status, and on penalties.
abbrev pub is_contribution : ℕ → ℕ → ℕ → Contribution → Bool
is_contribution uid gid round c = c.user_id == uid && c.group_id == gid && c.round_number == round

abbrev pub is_fine : ℕ → ℕ → ℕ → Penalty → Bool
is_fine uid gid round p = p.user_id == uid && p.group_id == gid && p.round_number == round

abbrev pub find_penalty : ℕ → List Penalty → Option Penalty
find_penalty id = find (λ (p : Penalty). p.id == id)

abbrev pub save_penalty : Penalty → List Penalty → List Penalty
save_penalty = save_row (λ (p : Penalty). p.id)

-- `where: { userId, groupId, status: PENDING }`.
abbrev pub is_owed : ℕ → ℕ → Penalty → Bool
is_owed uid gid p = p.user_id == uid && p.group_id == gid && is_pending_penalty p.status

-- `calculateDaysLate` is 1.
abbrev pub calculate_penalty_amount : Outside → ℕ → ℕ → ℕ
calculate_penalty_amount out amount rate = out.to_fixed (out.times (out.times amount rate) out.one)

pub new_penalty : Outside → ℕ → ℕ → Group → ℕ → ℕ → Penalty
new_penalty out id due_at group uid round = record {
  id = id;
  group_id = group.id;
  user_id = uid;
  round_number = round;
  amount = calculate_penalty_amount out group.contribution_amount group.penalty_rate;
  asset_code = group.asset_code;
  due_at = due_at;
  paid_at = none;
  status = PenaltyStatus.pending;
  waiver_reason = none;
  waived_by_user_id = none;
  waived_at = none;
  dispute_reason = none;
  dispute_tx_hash = none;
  disputed_at = none;
  resolution_notes = none;
  resolved_by_user_id = none;
  resolved_at = none;
}

-- Nothing is written for a member who contributed or who has the fine already.
pub is_covered : ℕ → ℕ → Db → ℕ → Bool
is_covered gid round db uid =
    is_some (find (is_contribution uid gid round) db.contributions)
    || is_some (find (is_fine uid gid round) db.penalties)

module _ (out : Outside) (fresh : ℕ → ℕ) (due_at : ℕ) (group : Group) (round : ℕ) where
  pub fine_member : ℕ → Db → Db
  unfolding new_penalty
  fine_member uid db = emit (notified uid NotificationType.penalty_assessed) (record db {
    penalties = db.penalties ++ new_penalty out (fresh uid) due_at group uid round ∷ [];
  })

  -- The loop over the members, with `penaltyCount`.
  pub assess_members : List Membership → Db → Db × ℕ
  unfolding is_covered fine_member
  assess_members [] db = (db, 0)
  assess_members (m ∷ ms) db =
      let rest = assess_members ms in
      elim (is_covered group.id round db m.user_id) [
        | true ↦ rest db
        | false ↦ let (saved, count) = rest (fine_member m.user_id db) in (saved, suc count)
      ]

-- `dueAt` is a week after the clock's reading. A group that is not there is a plain Error.
pub assess_penalties_for_round : Outside → (ℕ → ℕ) → ℕ → ℕ → ℕ → Db → Db × Result ℕ
unfolding assess_members
assess_penalties_for_round out fresh now gid round db = elim (find_group gid db.groups) [
  | none ↦ (db, err internal_error)
  | some group ↦
      let (saved, count) =
        assess_members out fresh (now + 604800000) group round
          (filter_by (in_group gid) db.memberships) db in
      (saved, ok count)
]

pub waive_penalty : ℕ → ℕ → ℕ → ℕ → Db → Result (Db × Penalty)
waive_penalty now id reason admin db = do
  penalty ← or_throw (find_penalty id db.penalties) bad_request
  throw_if (not (is_pending_penalty penalty.status)) bad_request
  let waived = record penalty {
    status = PenaltyStatus.waived;
    waiver_reason = some reason;
    waived_by_user_id = some admin;
    waived_at = some now;
  }
  let saved = record db { penalties = save_penalty waived db.penalties }
  ok (emit (notified penalty.user_id NotificationType.penalty_waived) saved, waived)

-- ORDER BY dueAt ASC.
pub insert_by_due : Penalty → List Penalty → List Penalty
insert_by_due p [] = p ∷ []
insert_by_due p (q ∷ qs) = if leb p.due_at q.due_at then p ∷ q ∷ qs else q ∷ insert_by_due p qs

pub sort_by_due : List Penalty → List Penalty
unfolding insert_by_due
sort_by_due [] = []
sort_by_due (p ∷ ps) = insert_by_due p (sort_by_due ps)

pub get_pending_penalties : ℕ → ℕ → List Penalty → List Penalty
unfolding sort_by_due
get_pending_penalties uid gid table = sort_by_due (filter_by (is_owed uid gid) table)

abbrev pub pay_penalty : ℕ → Penalty → Penalty
pay_penalty now p = record p { status = PenaltyStatus.paid; paid_at = some now }

pub total_of : Outside → ℕ → List Penalty → ℕ
total_of out sum [] = sum
total_of out sum (p ∷ ps) = total_of out (out.plus sum p.amount) ps

-- The pending penalties are stored as paid, and their sum is returned ('0' where there is none).
pub deduct_penalties_from_contribution : Outside → ℕ → ℕ → ℕ → Db → Db × ℕ × List Penalty
unfolding get_pending_penalties total_of
deduct_penalties_from_contribution out now uid gid db =
    let owed = get_pending_penalties uid gid db.penalties in
    elim owed [
      | [] ↦ (db, out.decimal_zero, [])
      | p ∷ ps ↦ (
        record db { penalties = update_where (is_owed uid gid) (pay_penalty now) db.penalties },
        out.to_fixed (total_of out out.decimal_zero (p ∷ ps)),
        map (pay_penalty now) (p ∷ ps),
      )
    ]

-- The notice goes to the member of the group with the admin's wallet, where there is one.
pub dispute_notices : Penalty → Db → List Effect
dispute_notices penalty db = elim (find_group penalty.group_id db.groups) [
  | none ↦ []
  | some group ↦
      elim (find (λ m. in_group group.id m && m.wallet_address == group.admin_wallet)
        db.memberships) [
          | none ↦ []
          | some m ↦ notified m.user_id NotificationType.penalty_disputed ∷ []
        ]
]

pub dispute_penalty : ℕ → ℕ → ℕ → ℕ → Option ℕ → Db → Result (Db × Penalty)
unfolding dispute_notices
dispute_penalty now id uid reason hash db = do
  penalty ← or_throw (find_penalty id db.penalties) not_found
  throw_if (not (penalty.user_id == uid)) forbidden
  throw_if (not (is_pending_penalty penalty.status)) bad_request
  let disputed = record penalty {
    status = PenaltyStatus.disputed;
    dispute_reason = some reason;
    dispute_tx_hash = hash;
    disputed_at = some now;
  }
  let saved = record db { penalties = save_penalty disputed db.penalties }
  let logged = emit (dispute_submitted id) saved
  ok (record logged { effects = logged.effects ++ dispute_notices penalty db }, disputed)

pub data PenaltyResolution : Type 0 where
  waive reject : PenaltyResolution

abbrev pub resolved_status : PenaltyResolution → PenaltyStatus
resolved_status waive = PenaltyStatus.waived
resolved_status reject = PenaltyStatus.rejected

pub resolve_dispute : ℕ → ℕ → ℕ → PenaltyResolution → Option ℕ → Db → Result (Db × Penalty)
resolve_dispute now id admin resolution notes db = do
  penalty ← or_throw (find_penalty id db.penalties) not_found
  throw_if (not (is_disputed penalty.status)) bad_request
  group ← or_throw (find_group penalty.group_id db.groups) not_found
  let resolved = record penalty {
    status = resolved_status resolution;
    resolution_notes = notes;
    resolved_by_user_id = some admin;
    resolved_at = some now;
  }
  let saved = record db { penalties = save_penalty resolved db.penalties }
  let logged = emit (dispute_resolved id) saved
  ok (emit (notified penalty.user_id NotificationType.penalty_resolved) logged, resolved)
