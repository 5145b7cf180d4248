-- ===== src/Groups/ManualRound/DoublePayout.antt =====
-- GroupsService.advanceRound and then PayoutService.distributePayout for the same round.
use ahjoor_backend.Common.{
  ℕ, ◌<◌, ◌≡◌, refl, ap, ◌∙◌, arith, Bool, true, false, ◌&&◌, Option, none, some, find,
  update_where, Result, ok, err, inl, inr, ◌⊎◌, find-save, find-holds, find-update, HttpError,
}
use ahjoor_backend.Entities.{
  Group, GroupStatus, Membership, Db, in_group, is_group, find_group, save_group, save_membership,
  HasGroupKeys,
}
use ahjoor_backend.Stellar.{Outside, Disbursement-cases, paid_out}
use ahjoor_backend.Memberships.{is_due}
use ahjoor_backend.Memberships.Orders.{HasKeys}
use ahjoor_backend.Payout.{
  recipient_of, is_order, outstanding_penalties, distribute_payout, start_payout,
}
use ahjoor_backend.Payout.Distribution.{distribute_payout-starts}
use ahjoor_backend.Rounds.{clear_paid, next_round}
use ahjoor_backend.Groups.ManualRound.{pay_by_hand, advance_round}

abbrev in_turn : ℕ → ℕ → Membership → Bool
in_turn gid round m = in_group gid m && is_due round m.payout_order

-- The recipient's row after the round: only the hash and the flag of the contribution are new.
abbrev pub after_round : ℕ → Membership → Membership
after_round hash m = record m { transaction_hash = some hash; has_paid_current_round = false }

Disbursement-paid :
    (out : Outside) (g : Group) (m : Membership) {c : ℕ} {r : Option ℕ}
    → g.contract_address ≡ some c
    → pay_by_hand out g (some m) ≡ ok r
    → (calculated hash : ℕ) × (out.disburse c m.wallet_address g.contribution_amount none
        ≡ paid_out calculated hash)
      × (r ≡ some hash)
unfolding pay_by_hand
Disbursement-paid out g m {c} {r} at e =
    elim (Disbursement-cases (out.disburse c m.wallet_address g.contribution_amount none)) [
      | inl refusal ↦ absurd (ground arith)
      | inr (inl (h, gone)) ↦ absurd (ground arith)
      | inr (inr (calculated, hash, sent)) ↦ (calculated, hash, sent, ground arith)
    ]

Result-cases :
    (r : Result (Option ℕ)) → ((e : HttpError) × (r ≡ err e)) ⊎ ((o : Option ℕ) × (r ≡ ok o))
Result-cases (ok o) = inr (o, refl)
Result-cases (err e) = inl (e, refl)

-- An advanceRound before the last round asks the chain to pay the recipient, and a later
-- distributePayout for that round starts a second payout of the same member, if that member was
-- not marked paid, owes no pending penalty, and the round has no payout row; membership and group
-- ids are unique.
pub advance_round_pays_twice :
    (out later : Outside) (id gid wallet : ℕ) (db : Db) {db' : Db} {g g' : Group} {m : Membership}
    {c : ℕ}
    → HasKeys db
    → HasGroupKeys db
    → find_group gid db.groups ≡ some g
    → g.contract_address ≡ some c
    → g.current_round < g.total_rounds
    → recipient_of gid g.current_round db.memberships ≡ some m
    → m.has_received_payout ≡ false
    → outstanding_penalties gid m.user_id db.penalties ≡ 0
    → find (is_order gid g.current_round) db.payouts ≡ none
    → advance_round out gid wallet db ≡ (db', ok g')
    → (calculated hash : ℕ) × (out.disburse c m.wallet_address g.contribution_amount none
        ≡ paid_out calculated hash)
      × (distribute_payout later id gid g.current_round db'
          ≡ start_payout later id gid g.current_round (next_round g) c (after_round hash m) db')
unfolding advance_round
advance_round_pays_twice out later id gid wallet db {db'} {g} {g'} {m} {c} keys gkeys f at more turn
      unpaid clean new e =
    elim (Result-cases (pay_by_hand out g (some m))) [
      | inl (x, failed) ↦ absurd (ground arith)
      | inr (r, paid) ↦
          let (calculated, hash, sent, kept) = Disbursement-paid out g m at paid in
          let seen : Membership = record m { transaction_hash = some hash } in
          let key : in_turn gid g.current_round m ≡ true =
            find-holds (in_turn gid g.current_round) db.memberships turn in
          let active_now : g.status ≡ GroupStatus.active = ground arith in
          let members : db'.memberships
              ≡ update_where (in_group gid) clear_paid (save_membership seen db.memberships) =
            ground arith in
          let groups : db'.groups ≡ save_group (next_round g) db.groups = ground arith in
          let penalties : db'.penalties ≡ db.penalties = ground arith in
          let payouts : db'.payouts ≡ db.payouts = ground arith in
          let turn_now : recipient_of gid g.current_round db'.memberships
              ≡ some (after_round hash m) =
            ap (recipient_of gid g.current_round) members
            ∙ find-update (in_turn gid g.current_round) (in_group gid) clear_paid
                (save_membership seen db.memberships) (λ x h. refl)
                (find-save (λ (x : Membership). x.id) (in_turn gid g.current_round) db.memberships
                  seen turn refl key keys)
            ∙ ground (arith, key) in
          let group_now : find_group gid db'.groups ≡ some (next_round g) =
            ap (find_group gid) groups
            ∙ find-save (λ (x : Group). x.id) (is_group gid) db.groups (next_round g) f refl
                (find-holds (is_group gid) db.groups f) gkeys in
          (
            calculated,
            hash,
            sent,
            distribute_payout-starts later id gid g.current_round db' group_now active_now at
                turn_now unpaid (ap (outstanding_penalties gid m.user_id) penalties ∙ clean)
                (ap (find (is_order gid g.current_round)) payouts ∙ new),
          )
    ]
