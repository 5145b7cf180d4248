-- ===== src/System/Tests.antt =====
-- A run in a group of two members: a third one is added, and the second one is removed.
use ahjoor_backend.Common.{◌≡◌, refl, arith, none, some, [], ◌∷◌, find, filter_by, count_by, ok}
use ahjoor_backend.Entities.{Membership, Db, has_id, max_payout_order, admission_scheduled, emit}
use ahjoor_backend.Memberships.{inserted, new_membership, add_member, remove_member, assigned_order}
use ahjoor_backend.System.{adds, removes, here, after}
use ahjoor_backend.System.Sound.{IsSound, reachable-IsSound}
use ahjoor_backend.Fixtures.{ada, bola, forming}

abbrev efe : Membership
efe = new_membership 3 1 25 15 (some 2)

abbrev grown : Db
grown = record forming { memberships = ada ∷ bola ∷ efe ∷ [] }

abbrev shrunk : Db
shrunk = emit (admission_scheduled 1) (record grown { memberships = ada ∷ efe ∷ [] })

third_is_new : find (has_id 3) forming.memberships ≡ none
unfolding find
third_is_new = refl

grows : add_member 1 25 15 3 inserted forming ≡ ok (grown, efe)
unfolding add_member assigned_order find count_by max_payout_order
grows = refl

shrinks : remove_member 1 22 grown ≡ ok shrunk
unfolding remove_member find filter_by
shrinks = refl

forming-IsSound : IsSound forming
unfolding find count_by
forming-IsSound = record { capacity = λ gid g f. ground arith; keys = λ i. ground arith }

reachable-IsSound_example : IsSound shrunk
reachable-IsSound_example =
    reachable-IsSound
      (after (adds 1 25 15 3 inserted efe third_is_new grows) (after (removes 1 22 shrinks) here))
      forming-IsSound
