-- ===== src/Scheduler/Tests.antt =====
-- The jobs on concrete groups: the last round, a failing notice, and a lock that two processes take.
use ahjoor_backend.Common.{
  ◌+◌, ◌≡◌, refl, arith, true, false, some, [], ◌∷◌, err, bad_request, find, count_by, filter_by,
  ◌&&◌,
}
use ahjoor_backend.Entities.{GroupStatus, Db, find_group, HasGroupKeys}
use ahjoor_backend.Fixtures.{savings, ada, bola, db_of, outside}
use ahjoor_backend.Payout.{distribute_payout}
use ahjoor_backend.Rounds.{is_current, next_round, try_advance_round}
use ahjoor_backend.Rounds.Tests.{last, last-HasGroupKeys}
use ahjoor_backend.Scheduler.RoundAdvance.{
  RoundAdvanceResult, process_group, process_deadlined_groups,
}
use ahjoor_backend.Scheduler.RoundAdvance.Decided.{process_deadlined_groups-decided}
use ahjoor_backend.Scheduler.RoundAdvance.Unpaid.{notice_failure_unpays}
use ahjoor_backend.Scheduler.Statuses.{update_group_statuses}
use ahjoor_backend.Scheduler.Statuses.LastRound.{last_round_cut_short}

found_running : find_group 1 last.groups ≡ some (savings GroupStatus.active 2)
unfolding find
found_running = refl

last_round_cut_short_example :
    let db' = (update_group_statuses last).0 in
    (find_group 1 db'.groups ≡ some (savings GroupStatus.completed 2))
    × (try_advance_round outside 5 1 db' ≡ (db', false))
    × (distribute_payout outside 5 1 2 db' ≡ (db', err bad_request))
last_round_cut_short_example =
    last_round_cut_short outside 5 1 2 last last-HasGroupKeys found_running refl refl

-- Ada and Bola have paid the first round of two.
abbrev all_paid : Db
all_paid =
    db_of (savings GroupStatus.active 1)
      (record ada { has_paid_current_round = true }
        ∷ record bola { has_paid_current_round = true }
        ∷ [])
      []

abbrev zero_results : RoundAdvanceResult
zero_results = record { advanced = 0; reminded = 0; errors = 0 }

notice_failure_unpays_example :
    let after =
      process_group
        (λ gid. 0)
        (λ gid. true)
        9000000
        0
        (savings GroupStatus.active 1)
        (all_paid, zero_results) in
    (after.0.groups ≡ all_paid.groups)
    × (count_by (λ m. is_current 1 m && m.has_paid_current_round) after.0.memberships ≡ 0)
    × (after.1 ≡ record zero_results { errors = 0 + 1 })
unfolding count_by filter_by
notice_failure_unpays_example =
    notice_failure_unpays (λ gid. 0) (λ gid. true) 9000000 0 (savings GroupStatus.active 1) all_paid
      zero_results refl refl refl (omega arith)

all_paid-HasGroupKeys : HasGroupKeys all_paid
unfolding count_by
all_paid-HasGroupKeys i = ground arith

process_deadlined_groups-decided_example :
    find_group 1 (process_deadlined_groups (λ gid. 0) (λ gid. false) 9000000 0 all_paid).0.groups
    ≡ some (next_round (savings GroupStatus.active 1))
unfolding find count_by
process_deadlined_groups-decided_example =
    process_deadlined_groups-decided (λ gid. 0) (λ gid. false) 9000000 0 1 all_paid
      {g = savings GroupStatus.active 1} all_paid-HasGroupKeys refl refl
