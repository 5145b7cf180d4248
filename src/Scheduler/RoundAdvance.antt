-- ===== src/Scheduler/RoundAdvance.antt =====
-- ahjoorxmr/src/scheduler/services/round-advance.service.ts: the job of every minute that advances the
-- groups whose round is over. `updated_at` gives the time of a group's last save, `notify_fails` says
-- where notifyBatch throws; times are milliseconds, the duration of a round is in seconds.
pub mod Unpaid
pub mod Decided
use ahjoor_backend.Common.{
  ℕ, ◌+◌, ◌*◌, ◌==◌, ltb, leb, if◌then◌else◌, not, Bool, true, false, Option, none, some, List, [],
  ◌∷◌, ◌++◌, map, filter_by, update_where, length, ◌&&◌,
}
use ahjoor_backend.Entities.{
  Group, GroupStatus, Membership, Db, Effect, NotificationType, notified, is_active, is_none,
  save_group,
}
use ahjoor_backend.Rounds.{is_current, clear_paid, next_round, round_notices}

pub record RoundAdvanceResult : Type 0 where
  pub advanced : ℕ
  pub reminded : ℕ
  pub errors : ℕ

abbrev pub is_deadline_passed : ℕ → ℕ → ℕ → Group → Bool
is_deadline_passed updated now grace_hours group =
    leb (updated + group.round_duration * 1000 + grace_hours * 3600 * 1000) now

abbrev pub is_unpaid : Membership → Bool
is_unpaid m = not m.has_paid_current_round

abbrev pub reminders : List Membership → List Effect
reminders = map (λ (m : Membership). notified m.user_id NotificationType.payment_reminder)

-- The members are saved before the group is: an exception of notifyBatch, true, comes between.
pub advance_group_round : Bool → Group → Db → Db × Bool
advance_group_round fails group db =
    let advanced = next_round group in
    let reset : Db = record db {
      memberships = update_where (is_current group.id) clear_paid db.memberships;
    } in
    if ltb group.total_rounds advanced.current_round
    then (
      record db {
        groups = save_group (record advanced { status = GroupStatus.completed }) db.groups;
      },
      false,
    )
    else if fails
    then (reset, true)
    else (
      record reset {
        groups = save_group advanced db.groups;
        effects = db.effects ++ round_notices (filter_by (is_current group.id) db.memberships);
      },
      false,
    )

pub send_payment_reminders : Bool → List Membership → Db → Db × Bool
send_payment_reminders fails unpaid db =
    if fails then (db, true) else (record db { effects = db.effects ++ reminders unpaid }, false)

-- `find({ where: { status: ACTIVE } })`, without the groups that were deleted.
abbrev pub is_active_group : Group → Bool
is_active_group g = is_active g.status && is_none g.deleted_at

module _ (updated_at : ℕ → ℕ) (notify_fails : ℕ → Bool) (now grace_hours : ℕ) where
  -- One round of the loop.
  unfoldable pub process_group : Group → Db × RoundAdvanceResult → Db × RoundAdvanceResult
  unfolding advance_group_round send_payment_reminders
  process_group group (db, result) =
      let unpaid = filter_by is_unpaid (filter_by (is_current group.id) db.memberships) in
      let advance = advance_group_round (notify_fails group.id) group db in
      let remind = send_payment_reminders (notify_fails group.id) unpaid db in
      if not (is_deadline_passed (updated_at group.id) now grace_hours group)
      then (db, result)
      else if length unpaid == 0
      then (
        advance.0,
        if advance.1
            then record result { errors = result.errors + 1 }
            else record result { advanced = result.advanced + 1 },
      )
      else (
        remind.0,
        if remind.1
            then record result { errors = result.errors + 1 }
            else record result { reminded = result.reminded + 1 },
      )

  pub process_groups : List Group → Db × RoundAdvanceResult → Db × RoundAdvanceResult
  unfolding process_group
  process_groups [] state = state
  process_groups (group ∷ groups) state = process_groups groups (process_group group state)

  pub process_deadlined_groups : Db → Db × RoundAdvanceResult
  unfolding process_groups
  process_deadlined_groups db =
      process_groups (filter_by is_active_group db.groups)
        (db, record { advanced = 0; reminded = 0; errors = 0 })
