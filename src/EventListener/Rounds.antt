-- ===== src/EventListener/Rounds.antt =====
-- A RoundCompleted event beside the advance of the round by the application.
use Prim.Native.String.{String}
use ahjoor_backend.Common.{
  ◌==◌, ℕ, ◌+◌, ◌≡◌, ap, ◌∙◌, arith, true, some, Bool, List, [], ◌∷◌, find-update, find-holds,
}
use ahjoor_backend.Entities.{Group, Membership, Db, find_group, is_group, HasGroupKeys}
use ahjoor_backend.Stellar.{Outside}
use ahjoor_backend.Rounds.{try_advance_round}
use ahjoor_backend.Rounds.Advance.{closed_round, try_advance_round-Advanced}
use ahjoor_backend.EventListener.Handlers.{complete_round, handle_round_completed, is_paid_member}
use ahjoor_backend.EventListener.Payload.{Readings, Value, read_string}

complete_round-group :
    (is_paid : Membership → Bool) (gid : ℕ) (db : Db) {g : Group}
    → find_group gid db.groups ≡ some g
    → find_group gid (complete_round is_paid gid db).groups
      ≡ some (record g { current_round = g.current_round + 1 })
unfolding complete_round
complete_round-group is_paid gid db {g} f = ground (
  arith,
  find-update (is_group gid) (λ (g : Group). g.id == gid)
      (λ (g : Group). record g { current_round = g.current_round + 1 }) db.groups
      (λ x h. ground arith) f,
  find-holds (is_group gid) db.groups f,
)

-- The two rounds that a round ended, as the application closed it and as the event of the contract says.
record SkippedRound (gid : ℕ) (db db' : Db) : Type 0 where
  pub before : Group
  pub after : Group
  pub found : find_group gid db.groups ≡ some before
  pub stored : find_group gid db'.groups ≡ some after
  pub two_rounds : after.current_round ≡ before.current_round + 2

-- Where the application has closed a round, a RoundCompleted event for the group counts it once
-- more: the group is two rounds on, and one is skipped; group ids are unique.
round_counted_twice :
    (readings : Readings) (payload : List (String × Value)) (out : Outside) (id gid : ℕ) (db : Db)
    {closed : Db}
    → HasGroupKeys db
    → try_advance_round out id gid db ≡ (closed, true)
    → read_string readings payload ("groupId" ∷ "group_id" ∷ []) ≡ some gid
    → SkippedRound gid db (handle_round_completed readings payload closed)
unfolding handle_round_completed
round_counted_twice readings payload out id gid db {closed} keys e r =
    let a = try_advance_round-Advanced out id gid db keys e in
    let is_paid = is_paid_member readings payload gid in
    let same : handle_round_completed readings payload closed ≡ complete_round is_paid gid closed =
      ground (arith, r) in
    record {
      before = a.group;
      after = record (closed_round a.group) {
        current_round = (closed_round a.group).current_round + 1;
      };
      found = a.found;
      stored =
          ap (λ (d : Db). find_group gid d.groups) same
          ∙ complete_round-group is_paid gid closed a.stored;
      two_rounds = ground arith;
    }
