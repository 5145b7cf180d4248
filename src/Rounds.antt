-- ===== src/Rounds.antt =====
-- ahjoorxmr/src/groups/round.service.ts: the automatic advance of a group's round.
pub mod Tests
pub mod Advance
pub mod LastRound
use ahjoor_backend.Common.{
  ℕ, suc, zero, ◌+◌, ◌-◌, ◌==◌, ◌≤◌, ◌<◌, ◌≡◌, ◌≢◌, refl, ap, sym, ◌∙◌, subst, arith, ltb, leb,
  if◌then◌else◌, not, ◌&&◌, ◌||◌, Bool, true, false, Option, none, some, List, [], ◌∷◌, ◌++◌, map,
  find, count_by, filter_by, update_where, all_of, Result, ok, err, HttpError, not_found,
  bad_request, conflict, bad_gateway, internal_error, save_row, Option-cases, Bool-cases, inl, inr,
  ◌⊎◌, find-save, find-holds, HasUniqueKeys, ==_refl, All, All-update, All-find, length,
}
use ahjoor_backend.Entities.{
  Group, GroupStatus, Membership, Db, Effect, NotificationType, notified, group_completed, emit,
  is_active, is_active_member, is_some, is_none, in_group, find_group, save_group,
}
use ahjoor_backend.Stellar.{Outside}
use ahjoor_backend.Payout.{distribute_payout}

-- `where: { groupId, status: ACTIVE }`.
abbrev pub is_current : ℕ → Membership → Bool
is_current gid m = in_group gid m && is_active_member m.status

abbrev pub clear_paid : Membership → Membership
clear_paid m = record m { has_paid_current_round = false }

abbrev pub round_notices : List Membership → List Effect
round_notices = map (λ (m : Membership). notified m.user_id NotificationType.round_opened)

-- The payout's exception is caught and logged: only its database is kept.
pub complete_group : Outside → ℕ → ℕ → Group → Db → Db
complete_group out id gid group db =
    let done = record group { status = GroupStatus.completed } in
    let saved = emit (group_completed gid) (record db { groups = save_group done db.groups }) in
    (distribute_payout out id gid (group.current_round - 1) saved).0

pub open_round : Outside → ℕ → ℕ → Group → Db → Db
open_round out id gid group db =
    let reset = record db {
      memberships = update_where (is_current gid) clear_paid db.memberships;
      groups = save_group group db.groups;
    } in
    let paid = (distribute_payout out id gid (group.current_round - 1) reset).0 in
    record paid {
      effects = paid.effects ++ round_notices (filter_by (is_current gid) db.memberships);
    }

abbrev pub next_round : Group → Group
next_round group = record group { current_round = group.current_round + 1; stale_at = none }

pub advance_active : Outside → ℕ → ℕ → Group → Db → Db × Bool
advance_active out id gid group db =
    let members = filter_by (is_current gid) db.memberships in
    if length members == 0
    then (db, false)
    else if not (all_of (λ m. m.has_paid_current_round) members)
    then (db, false)
    else if ltb group.total_rounds (group.current_round + 1)
    then (complete_group out id gid (next_round group) db, true)
    else (open_round out id gid (next_round group) db, true)

pub try_advance_round : Outside → ℕ → ℕ → Db → Db × Bool
unfolding advance_active
try_advance_round out id gid db = elim (find_group gid db.groups) [
  | none ↦ (db, false)
  | some group ↦
      if not (is_active group.status) then (db, false) else advance_active out id gid group db
]
