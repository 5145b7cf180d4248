-- ===== src/Rounds/Tests.antt =====
-- The last round of a group, all of whose members have paid.
use ahjoor_backend.Common.{
  ℕ, ◌≡◌, refl, ap, arith, true, some, [], ◌∷◌, count_by, find, filter_by, update_where, all_of,
  Result, err, bad_request,
}
use ahjoor_backend.Entities.{GroupStatus, Db, group_completed, emit, find_group, HasGroupKeys}
use ahjoor_backend.Payout.{distribute_payout}
use ahjoor_backend.Payout.Distribution.{distribute_payout_completed}
use ahjoor_backend.Rounds.{try_advance_round, complete_group}
use ahjoor_backend.Rounds.Advance.{Advanced, try_advance_round-Advanced}
use ahjoor_backend.Rounds.LastRound.{last_round_never_paid}
use ahjoor_backend.Fixtures.{savings, ada, bola, db_of, outside}

abbrev pub last : Db
last =
    db_of (savings GroupStatus.active 2)
      (record ada { has_paid_current_round = true }
        ∷ record bola { has_paid_current_round = true }
        ∷ [])
      []

abbrev pub done : Db
done = emit (group_completed 1) (
    db_of (savings GroupStatus.completed 3)
      (record ada { has_paid_current_round = true }
        ∷ record bola { has_paid_current_round = true }
        ∷ [])
      [])

pub last-HasGroupKeys : HasGroupKeys last
unfolding count_by
last-HasGroupKeys i = ground arith

found_last : find_group 1 last.groups ≡ some (savings GroupStatus.active 2)
unfolding find
found_last = refl

found_done : find_group 1 done.groups ≡ some (savings GroupStatus.completed 3)
unfolding find
found_done = refl

pub ends : try_advance_round outside 5 1 last ≡ (done, true)
unfolding try_advance_round complete_group find filter_by all_of update_where
ends =
    ap (λ (r : Db × Result ℕ). (r.0, true))
      (distribute_payout_completed outside 5 1 2 done found_done refl)

last_round_never_paid_example :
    (done.memberships ≡ last.memberships)
    × (done.payouts ≡ last.payouts)
    × (distribute_payout outside 6 1 2 done ≡ (done, err bad_request))
last_round_never_paid_example =
    last_round_never_paid outside outside 5 6 1 2 last last-HasGroupKeys found_last (omega arith)
      ends

try_advance_round-Advanced_example : Advanced 1 last done
try_advance_round-Advanced_example =
    try_advance_round-Advanced outside 5 1 last last-HasGroupKeys ends
