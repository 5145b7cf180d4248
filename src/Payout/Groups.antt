-- ===== src/Payout/Groups.antt =====
-- PayoutService.distributePayout writes no group, whatever its outcome.
use ahjoor_backend.Common.{
  ℕ, ◌≡◌, ◌∙◌, arith, Option, none, some, [], ◌∷◌, ◌++◌, Option-cases, inl, inr,
}
use ahjoor_backend.Finance.{PayoutTransaction}
use ahjoor_backend.Entities.{Group, Membership, Db, find_group}
use ahjoor_backend.Stellar.{Outside, pay}
use ahjoor_backend.Payout.{
  recipient_of, distribute_payout, pay_recipient, start_payout, settle, compute_payout_amount,
  new_payout,
}
use ahjoor_backend.Payout.Distribution.{pay-keeps}

settle-groups :
    (out : Outside) (m : Membership) (r : Db × PayoutTransaction × Option ℕ)
    → (settle out m r).0.groups ≡ r.0.groups
unfolding settle
settle-groups out m (db, t, none) = ground arith
settle-groups out m (db, t, some h) = ground arith

start_payout-groups :
    (out : Outside) (id gid round : ℕ) (group : Group) (contract : ℕ) (m : Membership) (db : Db)
    → (start_payout out id gid round group contract m db).0.groups ≡ db.groups
unfolding start_payout
start_payout-groups out id gid round group contract m db =
    let amount : ℕ = compute_payout_amount out gid round group db.contributions in
    let t : PayoutTransaction = new_payout out id gid round group amount in
    let created : Db = record db { payouts = db.payouts ++ t ∷ [] } in
    settle-groups out m (pay out gid round group contract m t amount created)
    ∙ (pay-keeps out gid round group contract m t amount created).0

pub distribute_payout-groups :
    (out : Outside) (id gid round : ℕ) (db : Db)
    → (distribute_payout out id gid round db).0.groups ≡ db.groups
unfolding distribute_payout pay_recipient
distribute_payout-groups out id gid round db = elim (Option-cases (find_group gid db.groups)) [
  | inl missing ↦ ground (arith, missing)
  | inr (g, f) ↦ elim (Option-cases g.contract_address) [
    | inl missing ↦ ground (arith, f, missing)
    | inr (c, fc) ↦ elim (Option-cases (recipient_of gid round db.memberships)) [
      | inl missing ↦ ground (arith, f, fc, missing)
      | inr (m, fm) ↦ ground (arith, f, fc, fm, start_payout-groups out id gid round g c m db)
    ]
  ]
]
