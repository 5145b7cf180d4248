-- ===== src/Groups/Tests.antt =====
-- Runs of GroupsService: an activation, a failed one, a deletion, a transfer and a round by hand.
use ahjoor_backend.Common.{
  ℕ, ◌≡◌, refl, arith, true, none, some, List, [], ◌∷◌, count_by, find, filter_by, all_of,
  update_where, ok, err, bad_request,
}
use ahjoor_backend.Entities.{
  Group, GroupStatus, PayoutOrderStrategy, Membership, Db, HasGroupKeys, find_group, emit, notified,
  NotificationType, group_activated, group_archived, admin_transfer_logged,
}
use ahjoor_backend.Stellar.{paid_out}
use ahjoor_backend.Memberships.Orders.{HasKeys}
use ahjoor_backend.Payout.{
  distribute_payout, start_payout, is_order, recipient_of, outstanding_penalties,
}
use ahjoor_backend.Rounds.{next_round}
use ahjoor_backend.Groups.{UpdateGroup, soft_delete, activate_group, transfer_admin}
use ahjoor_backend.Groups.Activation.{Activated, activate_group-Activated}
use ahjoor_backend.Groups.ManualRound.{advance_round}
use ahjoor_backend.Groups.ManualRound.DoublePayout.{after_round, advance_round_pays_twice}
use ahjoor_backend.Fixtures.{savings, ada, bola, db_of, outside}

abbrev shuffled : Group
shuffled = record (savings GroupStatus.pending 0) {
  payout_order_strategy = PayoutOrderStrategy.random;
}

abbrev before : Db
before =
    db_of shuffled (record ada { payout_order = none } ∷ record bola { payout_order = none } ∷ [])
      []

abbrev started : Group
started = record shuffled {
  status = GroupStatus.active;
  current_round = 1;
  contract_address = some 55;
}

-- The shuffle of [0, 1] swaps index 1 with index 0.
abbrev swapped : List Membership
swapped = record ada { payout_order = some 1 } ∷ record bola { payout_order = some 0 } ∷ []

abbrev after : Db
after = emit (group_activated 1) (db_of started swapped [])

before-HasGroupKeys : HasGroupKeys before
unfolding count_by
before-HasGroupKeys i = ground arith

found_before : find_group 1 before.groups ≡ some shuffled
unfolding find
found_before = refl

activates : activate_group (λ i. 0) (some 55) 1 11 before ≡ (after, ok started)
unfolding activate_group find count_by update_where
activates = refl

activate_group-Activated_example : Activated 1 11 before after started
activate_group-Activated_example =
    activate_group-Activated (λ i. 0) (some 55) 1 11 before before-HasGroupKeys found_before
      (λ e. absurd (ground arith)) activates

abbrev undone : Db
undone = db_of shuffled swapped []

not_deployed : activate_group (λ i. 0) none 1 11 before ≡ (undone, err bad_request)
unfolding activate_group find count_by update_where
not_deployed = refl

abbrev rename : UpdateGroup
rename = record {
  name = some 101;
  admin_wallet = none;
  contribution_amount = none;
  token = none;
  round_duration = none;
  total_rounds = none;
  contract_address = none;
}

abbrev deleted : Db
deleted =
    emit (group_archived 1)
      (record before { groups = record shuffled { deleted_at = some 900 } ∷ [] })

deletes : soft_delete 900 1 11 before ≡ ok deleted
unfolding soft_delete find update_where
deletes = refl

abbrev bolas : Group
bolas = record shuffled { admin_wallet = 12 }

abbrev handed : Db
handed = record before {
  groups = bolas ∷ [];
  effects =
      admin_transfer_logged 1
      ∷ notified 22 NotificationType.admin_transferred
      ∷ notified 21 NotificationType.admin_transferred
      ∷ [];
}

transfers : transfer_admin 1 11 22 before ≡ ok (handed, bolas)
unfolding transfer_admin find update_where
transfers = refl

abbrev running_first : Group
running_first = savings GroupStatus.active 1

abbrev all_paid : Db
all_paid =
    db_of running_first
      (record ada { has_paid_current_round = true }
        ∷ record bola { has_paid_current_round = true }
        ∷ [])
      []

abbrev second_round : Db
second_round =
    record (db_of (savings GroupStatus.active 2)
      (record ada { transaction_hash = some 77 } ∷ bola ∷ []) []) {
        effects =
            notified 21 NotificationType.round_opened
            ∷ notified 22 NotificationType.round_opened
            ∷ [];
      }

advances : advance_round outside 1 11 all_paid ≡ (second_round, ok (savings GroupStatus.active 2))
unfolding advance_round find filter_by all_of update_where
advances = refl

all_paid-HasKeys : HasKeys all_paid
unfolding count_by
all_paid-HasKeys i = ground arith

all_paid-HasGroupKeys : HasGroupKeys all_paid
unfolding count_by
all_paid-HasGroupKeys i = ground arith

abbrev ada_paying : Membership
ada_paying = record ada { has_paid_current_round = true }

found_running : find_group 1 all_paid.groups ≡ some running_first
unfolding find
found_running = refl

turn_of_ada : recipient_of 1 1 all_paid.memberships ≡ some ada_paying
unfolding find
turn_of_ada = refl

no_penalty : outstanding_penalties 1 21 all_paid.penalties ≡ 0
unfolding count_by
no_penalty = refl

no_payout : find (is_order 1 1) all_paid.payouts ≡ none
unfolding find
no_payout = refl

advance_round_pays_twice_example :
    (calculated hash : ℕ) × (outside.disburse 99 11 50 none ≡ paid_out calculated hash)
    × (distribute_payout outside 5 1 1 second_round
        ≡ start_payout outside 5 1 1
            (next_round running_first)
            99
            (after_round hash ada_paying)
            second_round)
advance_round_pays_twice_example =
    advance_round_pays_twice outside outside 5 1 11 all_paid all_paid-HasKeys all_paid-HasGroupKeys
      found_running refl (omega arith) turn_of_ada refl no_penalty no_payout advances
