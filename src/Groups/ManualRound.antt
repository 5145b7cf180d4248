-- ===== src/Groups/ManualRound.antt =====
-- GroupsService.advanceRound: the admin pays the round on chain and opens the next one.
pub mod DoublePayout
use ahjoor_backend.Common.{
  ℕ, ◌+◌, ◌==◌, ltb, if◌then◌else◌, not, ◌&&◌, Bool, true, false, Option, none, some, List, [], ◌∷◌,
  ◌++◌, find, filter_by, update_where, all_of, Result, ok, err, not_found, bad_request, forbidden,
  internal_error,
}
use ahjoor_backend.Entities.{
  Group, GroupStatus, Membership, Db, is_active, in_group, find_group, save_group, save_membership,
}
use ahjoor_backend.Stellar.{Outside, refused, lost, paid_out}
use ahjoor_backend.Payout.{recipient_of}
use ahjoor_backend.Rounds.{clear_paid, next_round, round_notices}

-- Without a recipient or a contract nothing is paid. Any exception is an InternalServerError.
unfoldable pub pay_by_hand : Outside → Group → Option Membership → Result (Option ℕ)
pay_by_hand out group none = ok none
pay_by_hand out group (some m) = elim group.contract_address [
  | none ↦ ok none
  | some contract ↦ elim (out.disburse contract m.wallet_address group.contribution_amount none) [
    | refused ↦ err internal_error
    | lost hash ↦ err internal_error
    | paid_out calculated hash ↦ ok (some hash)
  ]
]

-- The hash is stored in the recipient's row, where both are there.
unfoldable pub store_hash : Option Membership → Option ℕ → List Membership → List Membership
store_hash none hash ms = ms
store_hash (some m) none ms = ms
store_hash (some m) (some hash) ms = save_membership (record m { transaction_hash = some hash }) ms

-- The transaction, and the notices after it. `clear_paid` runs over all members of the group.
unfoldable pub commit_round : ℕ → Group → List Membership → Db → Db × Group
commit_round gid group stored db =
    let next = next_round group in
    if ltb next.total_rounds next.current_round
    then (
      record db {
        memberships = stored;
        groups = save_group (record next { status = GroupStatus.completed }) db.groups;
      },
      record next { status = GroupStatus.completed },
    )
    else (
      record db {
        memberships = update_where (in_group gid) clear_paid stored;
        groups = save_group next db.groups;
        effects = db.effects ++ round_notices (filter_by (in_group gid) db.memberships);
      },
      next,
    )

unfoldable pub advance_paid : Outside → ℕ → Group → Db → Db × Result Group
unfolding pay_by_hand store_hash commit_round
advance_paid out gid group db =
    let recipient = recipient_of gid group.current_round db.memberships in
    elim (pay_by_hand out group recipient) [
      | err e ↦ (db, err e)
      | ok hash ↦
          let (saved, next) =
            commit_round gid group (store_hash recipient hash db.memberships) db in
          (saved, ok next)
    ]

unfoldable pub advance_round : Outside → ℕ → ℕ → Db → Db × Result Group
unfolding advance_paid
advance_round out gid wallet db = elim (find_group gid db.groups) [
  | none ↦ (db, err not_found)
  | some group ↦
      if not (group.admin_wallet == wallet)
      then (db, err forbidden)
      else if not (is_active group.status)
      then (db, err bad_request)
      else if not (all_of (λ m. m.has_paid_current_round) (filter_by (in_group gid) db.memberships))
      then (db, err bad_request)
      else advance_paid out gid group db
]
