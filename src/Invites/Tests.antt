-- ===== src/Invites/Tests.antt =====
-- Joins by a code of one invite with two uses.
use ahjoor_backend.Common.{ℕ, ◌+◌, ◌≤◌, ◌≡◌, refl, arith, none, some, List, [], ◌∷◌, find, count_by}
use ahjoor_backend.Entities.{Group, GroupStatus, Db, find_group, find_membership, member_count}
use ahjoor_backend.Invites.{Invite, InviteStatus, find_invite}
use ahjoor_backend.Invites.Uses.{HasInviteKeys, Attempt, attempts, attempts-bounded}
use ahjoor_backend.Fixtures.{savings, ada, bola, db_of, forming}

abbrev invite : Invite
invite = record {
  id = 1;
  group_id = 1;
  created_by = 21;
  code = 9;
  max_uses = 2;
  used_count = 0;
  expires_at = 1000;
  status = InviteStatus.active;
}

abbrev attempt_of : ℕ → Attempt
attempt_of user = record { at = 500; user = user; wallet = user; row = user }

invites-HasInviteKeys : HasInviteKeys (invite ∷ [])
unfolding count_by
invites-HasInviteKeys i = ground arith

found_invite : find_invite 9 (invite ∷ []) ≡ some invite
unfolding find
found_invite = refl

abbrev tries : List Attempt
tries = attempt_of 31 ∷ attempt_of 31 ∷ attempt_of 32 ∷ attempt_of 33 ∷ []

attempts-bounded_example :
    let s = attempts 9 tries (invite ∷ [], forming) in
    (j : Invite) × (find_invite 9 s.0 ≡ some j)
    × (j.used_count ≤ 2)
    × (member_count 1 s.1.memberships + 0 ≡ member_count 1 forming.memberships + j.used_count)
attempts-bounded_example =
    attempts-bounded 9 tries (invite ∷ []) forming invites-HasInviteKeys found_invite (omega arith)

abbrev small : Group
small = record (savings GroupStatus.active 1) { max_members = 2 }

abbrev full : Db
full = db_of small (ada ∷ bola ∷ []) []

found_small : find_group 1 full.groups ≡ some small
unfolding find
found_small = refl

new_user : find_membership 1 31 full.memberships ≡ none
unfolding find
new_user = refl

two_members : 2 ≤ member_count 1 full.memberships
unfolding count_by
two_members = omega arith
