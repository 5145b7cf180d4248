-- ===== src/Rounds/Advance.antt =====
-- RoundService.tryAdvanceRound: when a round is closed, and what the group is then.
use ahjoor_backend.Common.{
  ◌≢◌, update_where, ◌-◌, ℕ, ◌+◌, ◌≤◌, ◌≡◌, refl, ap, ◌∙◌, arith, ltb, if◌then◌else◌, true, false,
  some, count_by, filter_by, all_of, Option-cases, Bool-cases, inl, inr, find-save, find-holds,
  length-filter,
}
use ahjoor_backend.Entities.{
  emit, group_completed, Group, GroupStatus, Db, find_group, is_group, HasGroupKeys, save_group,
}
use ahjoor_backend.Stellar.{Outside}
use ahjoor_backend.Payout.Groups.{distribute_payout-groups}
use ahjoor_backend.Payout.Contributions.{distribute_payout-contributions}
use ahjoor_backend.Rounds.{
  clear_paid, is_current, next_round, open_round, complete_group, try_advance_round, advance_active,
}
use ahjoor_backend.Rounds.LastRound.{complete_group_lem}

-- The group after the round: COMPLETED where the round was the last one.
abbrev pub closed_round : Group → Group
closed_round g =
    if ltb g.total_rounds (g.current_round + 1)
    then record (next_round g) { status = GroupStatus.completed }
    else next_round g

-- What a round that was closed had met, and what is stored.
pub record Advanced (gid : ℕ) (db db' : Db) : Type 0 where
  pub group : Group
  pub found : find_group gid db.groups ≡ some group
  pub running : group.status ≡ GroupStatus.active
  pub members : 1 ≤ count_by (is_current gid) db.memberships
  pub all_paid :
      all_of (λ m. m.has_paid_current_round) (filter_by (is_current gid) db.memberships) ≡ true
  pub stored : find_group gid db'.groups ≡ some (closed_round group)

open_round-stored :
    (out : Outside) (id gid : ℕ) (db : Db) {g : Group}
    → HasGroupKeys db
    → find_group gid db.groups ≡ some g
    → find_group gid (open_round out id gid (next_round g) db).groups ≡ some (next_round g)
unfolding open_round
open_round-stored out id gid db {g} keys f =
    ap (find_group gid) (distribute_payout-groups out id gid _ _)
    ∙ find-save (λ (x : Group). x.id) (is_group gid) db.groups (next_round g) f refl
        (find-holds (is_group gid) db.groups f) keys

-- tryAdvanceRound closes a round only in an active group with active members, all of whom have
-- paid; the stored group is then in the next round, and COMPLETED just when the round was the
-- last one; group ids are unique.
pub try_advance_round-Advanced :
    (out : Outside) (id gid : ℕ) (db : Db) {db' : Db}
    → HasGroupKeys db
    → try_advance_round out id gid db ≡ (db', true)
    → Advanced gid db db'
unfolding try_advance_round
try_advance_round-Advanced out id gid db {db'} keys e =
    elim (Option-cases (find_group gid db.groups)) [
      | inl missing ↦ absurd (ground arith)
      | inr (g, f) ↦ record {
        group = g;
        found = f;
        running = ground (arith, f);
        members = ground (arith, f, length-filter (is_current gid) db.memberships);
        all_paid = ground (arith, f);
        stored = elim (Bool-cases (ltb g.total_rounds (g.current_round + 1))) [
          | inl last ↦
              let same : db' ≡ complete_group out id gid (next_round g) db =
                ground (arith, f, last) in
              rw last (
                ap (λ (d : Db). find_group gid d.groups) same
                ∙ (complete_group_lem out id gid db keys f).0)
          | inr more ↦
              let same : db' ≡ open_round out id gid (next_round g) db = ground (arith, f, more) in
              rw more (
                ap (λ (d : Db). find_group gid d.groups) same
                ∙ open_round-stored out id gid db keys f)
        ];
      }
    ]

-- Where `tryAdvanceRound` answers false, nothing has changed.
pub try_advance_round-unchanged :
    (out : Outside) (id gid : ℕ) (db : Db) {db' : Db}
    → try_advance_round out id gid db ≡ (db', false)
    → db' ≡ db
unfolding try_advance_round
try_advance_round-unchanged out id gid db e = ground arith

advance_active-contributions :
    (out : Outside) (id gid : ℕ) (g : Group) (db : Db)
    → (advance_active out id gid g db).0.contributions ≡ db.contributions
unfolding advance_active complete_group open_round
advance_active-contributions out id gid g db = ground (
  arith,
  distribute_payout-contributions out id gid ((next_round g).current_round - 1) (
      emit (group_completed gid) (record db {
        groups = save_group (record (next_round g) { status = GroupStatus.completed }) db.groups;
      })),
  distribute_payout-contributions out id gid ((next_round g).current_round - 1) (record db {
    memberships = update_where (is_current gid) clear_paid db.memberships;
    groups = save_group (next_round g) db.groups;
  }),
)

pub try_advance_round-contributions :
    (out : Outside) (id gid : ℕ) (db : Db)
    → (try_advance_round out id gid db).0.contributions ≡ db.contributions
unfolding try_advance_round
try_advance_round-contributions out id gid db = elim (Option-cases (find_group gid db.groups)) [
  | inl missing ↦ ground (arith, missing)
  | inr (g, f) ↦ ground (arith, f, advance_active-contributions out id gid g db)
]

-- A group that is not active is left as it is.
pub try_advance_round-idle :
    (out : Outside) (id gid : ℕ) (db : Db) {g : Group}
    → find_group gid db.groups ≡ some g
    → g.status ≢ GroupStatus.active
    → try_advance_round out id gid db ≡ (db, false)
unfolding try_advance_round
try_advance_round-idle out id gid db f idle = ground arith

-- So is a group that has no active member.
pub try_advance_round-empty :
    (out : Outside) (id gid : ℕ) (db : Db)
    → count_by (is_current gid) db.memberships ≡ 0
    → try_advance_round out id gid db ≡ (db, false)
unfolding try_advance_round
try_advance_round-empty out id gid db none_there =
    ground (arith, length-filter (is_current gid) db.memberships)
