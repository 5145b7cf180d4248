-- ===== src/Payout/Contributions.antt =====
-- PayoutService.distributePayout writes no contribution, whatever its outcome.
use ahjoor_backend.Common.{
  ℕ, ◌≡◌, ◌∙◌, arith, Option, none, some, [], ◌∷◌, ◌++◌, Option-cases, inl, inr,
}
use ahjoor_backend.Finance.{PayoutTransaction}
use ahjoor_backend.Entities.{Group, Membership, Db, find_group}
use ahjoor_backend.Stellar.{Outside, pay}
use ahjoor_backend.Payout.{
  recipient_of, distribute_payout, pay_recipient, start_payout, settle, compute_payout_amount,
  new_payout,
}

pay-contributions :
    (out : Outside) (gid round : ℕ) (group : Group) (contract : ℕ) (m : Membership)
    (t : PayoutTransaction) (amount : ℕ) (db : Db)
    → (pay out gid round group contract m t amount db).0.contributions ≡ db.contributions
unfolding pay
pay-contributions out gid round group contract m t amount db = ground arith

settle-contributions :
    (out : Outside) (m : Membership) (r : Db × PayoutTransaction × Option ℕ)
    → (settle out m r).0.contributions ≡ r.0.contributions
unfolding settle
settle-contributions out m (db, t, none) = ground arith
settle-contributions out m (db, t, some h) = ground arith

start_payout-contributions :
    (out : Outside) (id gid round : ℕ) (group : Group) (contract : ℕ) (m : Membership) (db : Db)
    → (start_payout out id gid round group contract m db).0.contributions ≡ db.contributions
unfolding start_payout
start_payout-contributions out id gid round group contract m db =
    let amount : ℕ = compute_payout_amount out gid round group db.contributions in
    let t : PayoutTransaction = new_payout out id gid round group amount in
    let created : Db = record db { payouts = db.payouts ++ t ∷ [] } in
    settle-contributions out m (pay out gid round group contract m t amount created)
    ∙ pay-contributions out gid round group contract m t amount created

pub distribute_payout-contributions :
    (out : Outside) (id gid round : ℕ) (db : Db)
    → (distribute_payout out id gid round db).0.contributions ≡ db.contributions
unfolding distribute_payout pay_recipient
distribute_payout-contributions out id gid round db =
    elim (Option-cases (find_group gid db.groups)) [
      | inl missing ↦ ground (arith, missing)
      | inr (g, f) ↦ elim (Option-cases g.contract_address) [
        | inl missing ↦ ground (arith, f, missing)
        | inr (c, fc) ↦ elim (Option-cases (recipient_of gid round db.memberships)) [
          | inl missing ↦ ground (arith, f, fc, missing)
          | inr (m, fm) ↦
              ground (arith, f, fc, fm, start_payout-contributions out id gid round g c m db)
        ]
      ]
    ]
