-- ===== src/Payout/Retry.antt =====
-- PayoutService.distributePayout after a failure: the row that the failed attempt left behind.
use ahjoor_backend.Common.{
  ℕ, ◌==◌, ◌≡◌, ap, ◌∙◌, arith, Bool, true, none, some, [], ◌∷◌, find, ok, err, bad_gateway,
  Option-cases, inl, inr, find-append-none,
}
use ahjoor_backend.Finance.{PayoutTransaction}
use ahjoor_backend.Entities.{Db, find_group}
use ahjoor_backend.Stellar.{Outside, or_else}
use ahjoor_backend.Payout.{
  is_order, outstanding_penalties, recipient_of, distribute_payout, pay_recipient,
}
use ahjoor_backend.Payout.Attempt.{start_payout-Left}

single :
    (p : PayoutTransaction → Bool) (t : PayoutTransaction) → p t ≡ true → find p (t ∷ []) ≡ some t
unfolding find
single p t h = rw h

-- After a payout that ended in a 502, every later call for the round pays nobody and changes
-- nothing, and yet returns a text as if it were a hash; the row id was new and the round had no
-- payout row before.
pub retry_never_pays :
    (out later : Outside) (id id' gid round : ℕ) (db : Db) {db' : Db}
    → find (λ (t : PayoutTransaction). t.id == id) db.payouts ≡ none
    → find (is_order gid round) db.payouts ≡ none
    → distribute_payout out id gid round db ≡ (db', err bad_gateway)
    → (text : ℕ) × (distribute_payout later id' gid round db' ≡ (db', ok text))
unfolding distribute_payout pay_recipient
retry_never_pays out later id id' gid round db {db'} f new e =
    elim (Option-cases (find_group gid db.groups)) [
      | inl missing ↦ absurd (ground arith)
      | inr (g, fg) ↦ elim (Option-cases g.contract_address) [
        | inl missing ↦ absurd (ground arith)
        | inr (c, fc) ↦ elim (Option-cases (recipient_of gid round db.memberships)) [
          | inl missing ↦ absurd (ground arith)
          | inr (m, fm) ↦
              let l =
                start_payout-Left out id gid round g c m db {db' = db'} {x = bad_gateway} f
                  (ground arith) in
              let seen : find (is_order gid round) db'.payouts ≡ some l.row =
                ap (find (is_order gid round)) l.added
                ∙ find-append-none (is_order gid round) db.payouts (l.row ∷ []) new
                ∙ single (is_order gid round) l.row l.ordered in
              (
                or_else l.row.tx_hash (later.state_text l.row.status l.row.id),
                ground (
                  arith,
                  l.unsubmitted,
                  seen,
                  fg,
                  fc,
                  fm,
                  ap (find_group gid) l.groups_kept,
                  ap (recipient_of gid round) l.members_kept,
                  ap (outstanding_penalties gid m.user_id) l.penalties_kept,
                ),
              )
        ]
      ]
    ]
