-- ===== src/Rounds/LastRound.antt =====
-- RoundService.tryAdvanceRound at the last round: the group is COMPLETED before its payout is asked for.
use ahjoor_backend.Common.{
  ℕ, ◌-◌, ◌≤◌, ◌≡◌, refl, ap, ◌∙◌, arith, true, some, Result, err, bad_request, find-save,
  find-holds,
}
use ahjoor_backend.Entities.{
  Group, GroupStatus, Db, group_completed, emit, is_group, find_group, save_group, HasGroupKeys,
}
use ahjoor_backend.Stellar.{Outside}
use ahjoor_backend.Payout.{distribute_payout}
use ahjoor_backend.Payout.Distribution.{distribute_payout_completed}
use ahjoor_backend.Rounds.{next_round, complete_group, try_advance_round}

pub complete_group_lem :
    (out : Outside) (id gid : ℕ) (db : Db) {g : Group}
    → HasGroupKeys db
    → find_group gid db.groups ≡ some g
    → let db' = complete_group out id gid (next_round g) db in
      let done = record (next_round g) { status = GroupStatus.completed } in
      (find_group gid db'.groups ≡ some done)
      × (db'.memberships ≡ db.memberships)
      × (db'.payouts ≡ db.payouts)
unfolding complete_group
complete_group_lem out id gid db {g} keys f =
    let done : Group = record (next_round g) { status = GroupStatus.completed } in
    let saved : Db =
      emit (group_completed gid) (record db { groups = save_group done db.groups }) in
    let now : find_group gid saved.groups ≡ some done =
      find-save (λ (x : Group). x.id) (is_group gid) db.groups done f refl
        (find-holds (is_group gid) db.groups f) keys in
    let same : complete_group out id gid (next_round g) db ≡ saved =
      ap (λ (r : Db × Result ℕ). r.0)
        (distribute_payout_completed out id gid ((next_round g).current_round - 1) saved now
          refl) in
    (
      ap (λ (d : Db). find_group gid d.groups) same ∙ now,
      ap (λ (d : Db). d.memberships) same,
      ap (λ (d : Db). d.payouts) same,
    )

-- When tryAdvanceRound ends the last round, the members and the payouts do not change, and every
-- later payout call for the group is refused and changes nothing: the last round is never paid;
-- group ids are unique.
pub last_round_never_paid :
    (out later : Outside) (id id' gid round : ℕ) (db : Db) {db' : Db} {g : Group}
    → HasGroupKeys db
    → find_group gid db.groups ≡ some g
    → g.total_rounds ≤ g.current_round
    → try_advance_round out id gid db ≡ (db', true)
    → (db'.memberships ≡ db.memberships)
      × (db'.payouts ≡ db.payouts)
      × (distribute_payout later id' gid round db' ≡ (db', err bad_request))
unfolding try_advance_round
last_round_never_paid out later id id' gid round db {db'} {g} keys f last e =
    let (now, m, p) = complete_group_lem out id gid db keys f in
    let same : db' ≡ complete_group out id gid (next_round g) db = ground arith in
    (
      ap (λ (d : Db). d.memberships) same ∙ m,
      ap (λ (d : Db). d.payouts) same ∙ p,
      rw same (
          distribute_payout_completed later id' gid round
            (complete_group out id gid (next_round g) db) now refl),
    )
