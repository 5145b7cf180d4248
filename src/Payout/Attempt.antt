-- ===== src/Payout/Attempt.antt =====
-- The payout row that a failed attempt leaves behind, on each branch of the chain call.
use ahjoor_backend.Common.{
  ℕ, ◌==◌, ◌≡◌, refl, ap, sym, ◌∙◌, subst, arith, true, false, Option, none, some, [], ◌∷◌, ◌++◌,
  find, err, HttpError, save_row, save_last, Bool-cases, inl, inr, ◌⊎◌, find-none-count, ==_refl,
}
use ahjoor_backend.Finance.{
  PayoutTransaction, PayoutStatus, PathPaymentOutcome, is_submitted, is_unfilled,
}
use ahjoor_backend.Entities.{Group, Membership, Db, is_some}
use ahjoor_backend.Stellar.{
  Outside, save_payout, pay, pay_by_contract, pay_by_path, Disbursement-cases, PathPayment, threw,
  ended,
}
use ahjoor_backend.Payout.{
  is_order, start_payout, settle, give_up, compute_payout_amount, new_payout,
}

-- The tables that an attempt reads, and the one row that it added.
pub record LeftBehind (gid round id : ℕ) (db db' : Db) : Type 0 where
  pub row : PayoutTransaction
  pub keyed : row.id ≡ id
  pub groups_kept : db'.groups ≡ db.groups
  pub members_kept : db'.memberships ≡ db.memberships
  pub penalties_kept : db'.penalties ≡ db.penalties
  pub added : db'.payouts ≡ db.payouts ++ row ∷ []
  pub ordered : is_order gid round row ≡ true
  pub unsubmitted : is_submitted row.status ≡ false

PathPayment-cases :
    (p : PathPayment)
    → (p ≡ threw)
      ⊎ ((o : PathPaymentOutcome) × (h d : Option ℕ) × (r x : ℕ) × (p ≡ ended o h d r x))
PathPayment-cases threw = inl refl
PathPayment-cases (ended o h d r x) = inr (o, h, d, r, x, refl)

abbrev IsFresh : ℕ → Db → Type 0
IsFresh id db = find (λ (t : PayoutTransaction). t.id == id) db.payouts ≡ none

save_added :
    (db : Db) (t r : PayoutTransaction)
    → IsFresh t.id db
    → r.id ≡ t.id
    → (save_payout r (record db { payouts = db.payouts ++ t ∷ [] })).payouts ≡ db.payouts ++ r ∷ []
save_added db t r f same =
    save_last (λ (x : PayoutTransaction). x.id) db.payouts t r (find-none-count _ db.payouts f) same

abbrev Left : ℕ → ℕ → Db → Db × PayoutTransaction × Option ℕ → ℕ → Type 0
Left gid round db r id =
    LeftBehind gid round id db r.0 × (r.1.id ≡ id) × (is_order gid round r.1 ≡ true)

module _ (out : Outside) (gid round : ℕ) (t : PayoutTransaction) (amount wallet : ℕ) (db : Db)
    (f : IsFresh t.id db) (o : is_order gid round t ≡ true)
    (u : is_submitted t.status ≡ false) where
  created : Db
  created = record db { payouts = db.payouts ++ t ∷ [] }

  left :
      (row : PayoutTransaction) (d : Db)
      → d.groups ≡ db.groups
      → d.memberships ≡ db.memberships
      → d.penalties ≡ db.penalties
      → d.payouts ≡ db.payouts ++ row ∷ []
      → is_order gid round row ≡ true
      → is_submitted row.status ≡ false
      → row.id ≡ t.id
      → LeftBehind gid round t.id db d
  left row d g m p a o' u' k = record {
    row = row;
    keyed = k;
    groups_kept = g;
    members_kept = m;
    penalties_kept = p;
    added = a;
    ordered = o';
    unsubmitted = u';
  }

  pay_by_contract-Left :
      (contract : ℕ) → Left gid round db (pay_by_contract out contract wallet t amount created) t.id
  unfolding pay_by_contract created left
  pay_by_contract-Left contract =
      elim (Disbursement-cases
        (out.disburse contract wallet amount (some (t.asset_code, t.asset_issuer)))) [
          | inl e ↦ rw (e, pay_by_contract) (left t created refl refl refl refl o u refl, refl, o)
          | inr (inl (h, e)) ↦
              let seen : PayoutTransaction = record t { tx_hash = some h } in
              rw (e, pay_by_contract)
                (
                  left seen (save_payout seen created) refl refl refl (save_added db t seen f refl)
                      o u refl,
                  refl,
                  o,
                )
          | inr (inr (c, h, e)) ↦
              let seen : PayoutTransaction = record t { tx_hash = some c } in
              rw (e, pay_by_contract)
                (
                  left seen (save_payout seen created) refl refl refl (save_added db t seen f refl)
                      o u refl,
                  refl,
                  o,
                )
        ]

  pay_by_path-Left :
      (group : Group)
      → Left gid round db (pay_by_path out gid round group t wallet amount created) t.id
  unfolding pay_by_path created left
  pay_by_path-Left group =
      elim (PathPayment-cases (
        out.path_payment (out.uppercase group.asset_code) group.asset_issuer t.asset_code
          t.asset_issuer amount group.fx_tolerance_bps wallet)) [
            | inl e ↦ rw (e, pay_by_path) (left t created refl refl refl refl o u refl, refl, o)
            | inr (oc, h, d, r, x, e) ↦
                let fell : PayoutTransaction = record t {
                  status = PayoutStatus.failed;
                  failure_reason = some x;
                  path_payment_outcome = some oc;
                } in
                elim (Bool-cases (is_unfilled oc)) [
                  | inl bad ↦
                      rw (e, pay_by_path)
                        (rw bad (
                          left fell (save_payout fell created) refl refl refl
                              (save_added db t fell f refl) o refl refl,
                          refl,
                          o,
                        ))
                  | inr good ↦
                      rw (e, pay_by_path)
                        (rw good (left t created refl refl refl refl o u refl, refl, o))
                ]
          ]

settle-err :
    (out : Outside) (m : Membership) (r : Db × PayoutTransaction × Option ℕ) {db' : Db}
    {x : HttpError}
    → settle out m r ≡ (db', err x)
    → db' ≡ (give_up out r.0 r.1).0
unfolding settle
settle-err out m (d, t, none) e = ground arith
settle-err out m (d, t, some h) e = ground arith

give_up-Left :
    (out : Outside) (gid round id : ℕ) (d : Db) (t : PayoutTransaction) (db : Db)
    → IsFresh id db
    → LeftBehind gid round id db d
    → t.id ≡ id
    → is_order gid round t ≡ true
    → LeftBehind gid round id db (give_up out d t).0
unfolding give_up
give_up-Left out gid round id d t db f l k o = elim (Bool-cases (is_some t.tx_hash)) [
  | inl known ↦ rw known l
  | inr unknown ↦
      let fell : PayoutTransaction = record t { status = PayoutStatus.failed } in
      rw unknown (record {
        row = fell;
        keyed = k;
        groups_kept = l.groups_kept;
        members_kept = l.members_kept;
        penalties_kept = l.penalties_kept;
        added =
            ap (save_row (λ (x : PayoutTransaction). x.id) fell) l.added
            ∙ save_last (λ (x : PayoutTransaction). x.id) db.payouts l.row fell
                (find-none-count _ db.payouts (ground (arith, l.keyed))) (ground (arith, l.keyed));
        ordered = o;
        unsubmitted = refl;
      })
]

pay-Left :
    (out : Outside) (gid round : ℕ) (group : Group) (contract : ℕ) (m : Membership)
    (t : PayoutTransaction) (amount : ℕ) (db : Db)
    → IsFresh t.id db
    → is_order gid round t ≡ true
    → is_submitted t.status ≡ false
    → Left gid round db
        (pay out gid round group contract m t amount (record db { payouts = db.payouts ++ t ∷ [] }))
        t.id
unfolding pay created
pay-Left out gid round group contract m t amount db f o u =
    elim (Bool-cases (out.uppercase group.asset_code == out.uppercase t.asset_code)) [
      | inl same ↦
          rw same (pay_by_contract-Left out gid round t amount m.wallet_address db f o u contract)
      | inr other ↦
          rw other (pay_by_path-Left out gid round t amount m.wallet_address db f o u group)
    ]

pub start_payout-Left :
    (out : Outside) (id gid round : ℕ) (group : Group) (contract : ℕ) (m : Membership) (db : Db)
    {db' : Db} {x : HttpError}
    → IsFresh id db
    → start_payout out id gid round group contract m db ≡ (db', err x)
    → LeftBehind gid round id db db'
unfolding start_payout
start_payout-Left out id gid round group contract m db {db'} f e =
    let amount : ℕ = compute_payout_amount out gid round group db.contributions in
    let t : PayoutTransaction = new_payout out id gid round group amount in
    let r : Db × PayoutTransaction × Option ℕ =
      pay out gid round group contract m t amount (record db { payouts = db.payouts ++ t ∷ [] }) in
    let (l, k, o) =
      pay-Left out gid round group contract m t amount db f
        (ground (arith, ==_refl gid, ==_refl round)) refl in
    subst (LeftBehind gid round id db) (sym (settle-err out m r e))
      (give_up-Left out gid round id r.0 r.1 db f l k o)
