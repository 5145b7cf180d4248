-- ===== src/Memberships/Tests.antt =====
-- Runs of MembershipsService on a group of two members.
use ahjoor_backend.Common.{
  ◌≡◌, refl, arith, true, some, [], ◌∷◌, count_by, find, filter_by, update_where, ok,
}
use ahjoor_backend.Entities.{
  Membership, Db, GroupStatus, find_group, MembershipStatus, max_payout_order, find_membership,
  NotificationType, notified, admission_scheduled, emit,
}
use ahjoor_backend.Memberships.{
  inserted, add_member, leave_group, record_payout, suspend_member, new_membership, assigned_order,
}
use ahjoor_backend.Memberships.Capacity.{WithinCapacity}
use ahjoor_backend.Memberships.Orders.{IsSequence, HasKeys, leave_group-IsSequence}
use ahjoor_backend.Fixtures.{savings, ada, bola, forming, running}

abbrev efe : Membership
efe = new_membership 3 1 25 15 (some 2)

abbrev grown : Db
grown = record forming { memberships = ada ∷ bola ∷ efe ∷ [] }

forming-WithinCapacity : WithinCapacity forming
unfolding find count_by
forming-WithinCapacity gid g f = ground arith

forming-HasKeys : HasKeys forming
unfolding count_by
forming-HasKeys i = ground arith

forming-IsSequence : IsSequence 1 forming.memberships
unfolding count_by
forming-IsSequence = record { ordered = refl; once = λ k. ground arith }

grows : add_member 1 25 15 3 inserted forming ≡ ok (grown, efe)
unfolding add_member find count_by max_payout_order assigned_order
grows = refl

found_savings : find_group 1 forming.groups ≡ some (savings GroupStatus.pending 0)
unfolding find
found_savings = refl

abbrev first_left : Db
first_left = emit (notified 21 NotificationType.member_left) (
    emit (admission_scheduled 1)
      (record forming { memberships = record bola { payout_order = some 0 } ∷ [] }))

leaves : leave_group 1 21 forming ≡ ok first_left
unfolding leave_group find filter_by update_where
leaves = refl

leave_group-IsSequence_example : IsSequence 1 first_left.memberships
leave_group-IsSequence_example =
    leave_group-IsSequence 1 21 forming leaves forming-HasKeys forming-IsSequence

abbrev ada_paid : Membership
ada_paid = record ada { has_received_payout = true; transaction_hash = some 77 }

abbrev recorded : Db
recorded =
    emit (notified 21 NotificationType.payout_received)
      (record running { memberships = ada_paid ∷ bola ∷ [] })

records : record_payout 1 21 77 running ≡ ok (recorded, ada_paid)
unfolding record_payout find update_where
records = refl

abbrev bola_idle : Membership
bola_idle = record bola { status = MembershipStatus.suspended }

abbrev idled : Db
idled = emit (admission_scheduled 1) (
    emit (notified 22 NotificationType.member_suspended)
      (record running { memberships = ada ∷ bola_idle ∷ [] }))

suspends : suspend_member 1 22 21 running ≡ ok (idled, bola_idle)
unfolding suspend_member find update_where
suspends = refl

found_bola : find_membership 1 22 running.memberships ≡ some bola
unfolding find
found_bola = refl
