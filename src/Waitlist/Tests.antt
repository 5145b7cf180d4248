-- ===== src/Waitlist/Tests.antt =====
-- Runs of WaitlistService on a group with one free slot and two waiting users.
use ahjoor_backend.Common.{
  ℕ, ◌+◌, ◌-◌, ◌≡◌, ◌&&◌, min, refl, arith, none, some, [], ◌∷◌, count_by, find, filter_by,
  update_where, ok,
}
use ahjoor_backend.Entities.{
  GroupStatus, WaitlistStatus, Db, max_payout_order, member_count, find_group,
}
use ahjoor_backend.Memberships.{new_membership}
use ahjoor_backend.Memberships.Capacity.{WithinCapacity}
use ahjoor_backend.Waitlist.{
  join_waitlist, leave_waitlist, admit_in_transaction, admit_entries, admit_entry, waits_in,
  admission_limit, new_entry,
}
use ahjoor_backend.Waitlist.Queue.{is_by}
use ahjoor_backend.Waitlist.Admission.{admit_lowest_positions}
use ahjoor_backend.Waitlist.Positions.{IsQueue, HasEntryKeys, leave_waitlist-IsQueue}
use ahjoor_backend.Fixtures.{savings, ada, bola, chidi, dayo, queued, db_of}

queued-WithinCapacity : WithinCapacity queued
unfolding find count_by
queued-WithinCapacity gid g f = ground arith

queued-HasEntryKeys : HasEntryKeys queued
unfolding count_by
queued-HasEntryKeys i = ground arith

queued-IsQueue : IsQueue 1 queued.waitlist
unfolding count_by
queued-IsQueue k = ground arith

found_savings : find_group 1 queued.groups ≡ some (savings GroupStatus.pending 0)
unfolding find
found_savings = refl

abbrev gave_up : Db
gave_up = record queued {
  waitlist = record dayo { position = 1 } ∷ record chidi { status = WaitlistStatus.cancelled } ∷ [];
}

leaves : leave_waitlist 1 23 queued ≡ ok gave_up
unfolding leave_waitlist find update_where
leaves = refl

leave_waitlist-IsQueue_example : IsQueue 1 gave_up.waitlist
leave_waitlist-IsQueue_example =
    leave_waitlist-IsQueue 1 23 queued leaves queued-HasEntryKeys queued-IsQueue

abbrev full : Db
full =
    db_of (record (savings GroupStatus.pending 0) { max_members = 2 }) (ada ∷ bola ∷ [])
      (dayo ∷ chidi ∷ [])

abbrev joined : Db
joined = record full { waitlist = dayo ∷ chidi ∷ new_entry 1 26 16 3 3 ∷ [] }

joins : join_waitlist 20 1 26 16 3 full ≡ ok (joined, 3)
unfolding join_waitlist find count_by
joins = refl

abbrev ids : ℕ → ℕ
ids n = 10 + n

abbrev admitted : Db
admitted = record queued {
  memberships = ada ∷ bola ∷ new_membership 12 1 23 13 (some 2) ∷ [];
  waitlist = dayo ∷ record chidi { status = WaitlistStatus.admitted } ∷ [];
}

admits : admit_in_transaction ids 1 none queued ≡ ok (admitted, chidi ∷ [])
unfolding admit_in_transaction admit_entries admit_entry find count_by filter_by update_where
    max_payout_order
admits = refl

admit_lowest_positions_example :
    count_by (is_by 1) (chidi ∷ [])
    ≡ min
        (admission_limit
          ((savings GroupStatus.pending 0).max_members - member_count 1 queued.memberships)
          none)
        (count_by (λ w. waits_in 1 w && is_by 1 w) queued.waitlist)
admit_lowest_positions_example = admit_lowest_positions ids 1 none queued found_savings admits 1

-- After an admission the position that a new user gets is that of a user who waits. The admitted user
-- filled the group.
position_taken :
    join_waitlist 20 1 27 17 9 admitted
    ≡ ok (
      record admitted {
        waitlist =
            dayo ∷ record chidi { status = WaitlistStatus.admitted } ∷ new_entry 1 27 17 9 2 ∷ [];
      },
      dayo.position,
    )
unfolding join_waitlist find count_by
position_taken = refl
