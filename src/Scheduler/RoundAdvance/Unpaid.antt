-- ===== src/Scheduler/RoundAdvance/Unpaid.antt =====
-- What the job does where notifyBatch throws, and in a group without active members.
use ahjoor_backend.Common.{
  ℕ, ◌+◌, ◌<◌, ◌≡◌, refl, arith, ◌&&◌, Bool, true, false, some, List, [], ◌∷◌, filter_by, count_by,
  count_by-update_none, find-save, find-holds, length-filter,
}
use ahjoor_backend.Entities.{Group, Membership, Db, find_group, is_group, HasGroupKeys}
use ahjoor_backend.Stellar.{Outside}
use ahjoor_backend.Rounds.{is_current, clear_paid, next_round, try_advance_round}
use ahjoor_backend.Rounds.Advance.{try_advance_round-empty}
use ahjoor_backend.Scheduler.RoundAdvance.{
  RoundAdvanceResult, is_deadline_passed, is_unpaid, advance_group_round, process_group,
}

count-filter_zero :
    (p q : Membership → Bool) (ms : List Membership)
    → count_by q ms ≡ 0
    → count_by p (filter_by q ms) ≡ 0
unfolding count_by filter_by
count-filter_zero p q [] e = refl
count-filter_zero p q (m ∷ ms) e = ground (arith, count-filter_zero p q ms)

module _ (updated_at : ℕ → ℕ) (notify_fails : ℕ → Bool) (now grace_hours : ℕ) where
  -- Where all active members have paid a round before the last, its deadline has passed and
  -- notifyBatch throws, the payments are cleared but the group stays in its round: no active
  -- member counts as having paid any more.
  pub notice_failure_unpays :
      (g : Group) (db : Db) (r : RoundAdvanceResult)
      → notify_fails g.id ≡ true
      → is_deadline_passed (updated_at g.id) now grace_hours g ≡ true
      → count_by is_unpaid (filter_by (is_current g.id) db.memberships) ≡ 0
      → g.current_round < g.total_rounds
      → let after = process_group updated_at notify_fails now grace_hours g (db, r) in
        (after.0.groups ≡ db.groups)
        × (count_by (λ m. is_current g.id m && m.has_paid_current_round) after.0.memberships ≡ 0)
        × (after.1 ≡ record r { errors = r.errors + 1 })
  unfolding process_group advance_group_round
  notice_failure_unpays g db r fails late paid more =
      let all_paid = length-filter is_unpaid (filter_by (is_current g.id) db.memberships) in
      (
        ground (arith, all_paid),
        ground (
          arith,
          all_paid,
          count_by-update_none (λ m. is_current g.id m && m.has_paid_current_round)
              (is_current g.id) clear_paid db.memberships (λ m h. ground arith)
              (λ m h. ground arith),
        ),
        ground (arith, all_paid),
      )

  -- A group without an active member is advanced by the job once its deadline has passed, which the
  -- advance by the round service refuses; group ids are unique.
  pub empty_group_advances :
      (out : Outside) (id : ℕ) (g : Group) (db : Db) (r : RoundAdvanceResult)
      → HasGroupKeys db
      → find_group g.id db.groups ≡ some g
      → notify_fails g.id ≡ false
      → is_deadline_passed (updated_at g.id) now grace_hours g ≡ true
      → count_by (is_current g.id) db.memberships ≡ 0
      → g.current_round < g.total_rounds
      → let after = process_group updated_at notify_fails now grace_hours g (db, r) in
        (find_group g.id after.0.groups ≡ some (next_round g))
        × (try_advance_round out id g.id db ≡ (db, false))
  unfolding process_group advance_group_round
  empty_group_advances out id g db r keys f works late empty more = (
    ground (
      arith,
      length-filter is_unpaid (filter_by (is_current g.id) db.memberships),
      length-filter (is_current g.id) db.memberships,
      count-filter_zero is_unpaid (is_current g.id) db.memberships,
      find-save (λ (x : Group). x.id) (is_group g.id) db.groups (next_round g) f refl
          (find-holds (is_group g.id) db.groups f) keys,
    ),
    try_advance_round-empty out id g.id db empty,
  )
