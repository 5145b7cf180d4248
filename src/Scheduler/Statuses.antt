-- ===== src/Scheduler/Statuses.antt =====
-- ahjoorxmr/src/scheduler/services/group-status.service.ts: the hourly job on the status of groups.
pub mod LastRound
use ahjoor_backend.Common.{
  ℕ, ◌+◌, ◌-◌, ◌*◌, ◌==◌, ltb, leb, if◌then◌else◌, not, ◌&&◌, ◌||◌, Bool, true, false, Option, none,
  some, List, [], ◌∷◌, filter_by, find,
}
use ahjoor_backend.Entities.{
  Group, GroupStatus, Membership, Db, is_pending, is_active, is_some, is_none, member_count,
  save_group,
}
use ahjoor_backend.Stellar.{Outside}
use ahjoor_backend.Rounds.{try_advance_round}

-- The first test, and the second one on what the first has made of the group.
abbrev pub start_if_ready : ℕ → Group → Group
start_if_ready members group =
    if is_pending group.status && leb group.min_members members && is_some group.contract_address
    then record group { status = GroupStatus.active }
    else group

abbrev pub end_if_over : Group → Group
end_if_over group =
    if is_active group.status && leb group.total_rounds group.current_round
    then record group { status = GroupStatus.completed }
    else group

abbrev pub same_status : GroupStatus → GroupStatus → Bool
same_status GroupStatus.pending GroupStatus.pending = true
same_status GroupStatus.active GroupStatus.active = true
same_status GroupStatus.completed GroupStatus.completed = true
same_status _ _ = false

-- True where the status has changed; a group never returns to the status that it had.
pub check_and_update_group_status : Group → Db → Db × Bool
check_and_update_group_status group db =
    let after = end_if_over (start_if_ready (member_count group.id db.memberships) group) in
    if same_status group.status after.status
    then (db, false)
    else (record db { groups = save_group after db.groups }, true)

pub update_all : List Group → Db × ℕ → Db × ℕ
unfolding check_and_update_group_status
update_all [] state = state
update_all (group ∷ groups) (db, count) =
    let r = check_and_update_group_status group db in
    update_all groups (r.0, if r.1 then count + 1 else count)

abbrev pub is_open_group : Group → Bool
is_open_group g = (is_pending g.status || is_active g.status) && is_none g.deleted_at

pub update_group_statuses : Db → Db × ℕ
unfolding update_all
update_group_statuses db = update_all (filter_by is_open_group db.groups) (db, 0)

-- `advanceStalledRounds`: the duration of a round is taken for days. `new_id` gives the ids of payouts.
pub advance_stalled : Outside → (ℕ → ℕ) → (ℕ → ℕ) → ℕ → List Group → Db × ℕ → Db × ℕ
advance_stalled out new_id updated_at now [] state = state
advance_stalled out new_id updated_at now (group ∷ groups) (db, count) =
    let r = try_advance_round out (new_id group.id) group.id db in
    let next =
      if leb (group.round_duration * (24 * 60 * 60 * 1000)) (now - updated_at group.id)
      then (r.0, if r.1 then count + 1 else count)
      else (db, count) in
    advance_stalled out new_id updated_at now groups next

pub advance_stalled_rounds : Outside → (ℕ → ℕ) → (ℕ → ℕ) → ℕ → Db → Db × ℕ
unfolding advance_stalled
advance_stalled_rounds out new_id updated_at now db =
    advance_stalled out new_id updated_at now
      (filter_by (λ g. is_active g.status && is_none g.deleted_at) db.groups) (db, 0)
