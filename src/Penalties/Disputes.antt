-- ===== src/Penalties/Disputes.antt =====
-- PenaltyService.disputePenalty and resolveDispute: what a dispute does to the debt.
use ahjoor_backend.Common.{
  ℕ, ◌+◌, ◌==◌, ◌≡◌, ap, sym, ◌∙◌, arith, Bool, true, false, Option, some, count_by, ok,
  Option-cases, inl, inr, ==_refl, count-save, find-save, find-holds, HasUniqueKeys, save-keys,
  subst,
}
use ahjoor_backend.Finance.{Penalty, PenaltyStatus, is_pending_penalty}
use ahjoor_backend.Entities.{Db}
use ahjoor_backend.Payout.{outstanding_penalties}
use ahjoor_backend.Penalties.{
  find_penalty, save_penalty, is_owed, dispute_penalty, resolve_dispute, PenaltyResolution, waive,
  reject,
}

abbrev pub HasPenaltyKeys : Db → Type 0
HasPenaltyKeys db = HasUniqueKeys (λ (p : Penalty). p.id) db.penalties

abbrev has_penalty_id : ℕ → Penalty → Bool
has_penalty_id id p = p.id == id

-- What a successful `disputePenalty` has checked and written.
pub record Disputed (id uid : ℕ) (db db' : Db) (p : Penalty) : Type 0 where
  pub row : Penalty
  pub found : find_penalty id db.penalties ≡ some row
  pub owner : row.user_id ≡ uid
  pub was_pending : row.status ≡ PenaltyStatus.pending
  pub same_key : p.id ≡ row.id
  pub same_group : p.group_id ≡ row.group_id
  pub same_user : p.user_id ≡ row.user_id
  pub disputed : p.status ≡ PenaltyStatus.disputed
  pub written : db'.penalties ≡ save_penalty p db.penalties

dispute_penalty-Disputed :
    (now id uid reason : ℕ) (hash : Option ℕ) (db : Db) {db' : Db} {p : Penalty}
    → dispute_penalty now id uid reason hash db ≡ ok (db', p)
    → Disputed id uid db db' p
unfolding dispute_penalty
dispute_penalty-Disputed now id uid reason hash db e =
    elim (Option-cases (find_penalty id db.penalties)) [
      | inl missing ↦ absurd (ground arith)
      | inr (r, f) ↦ record {
        row = r;
        found = f;
        owner = ground arith;
        was_pending = ground arith;
        same_key = ground arith;
        same_group = ground arith;
        same_user = ground arith;
        disputed = ground arith;
        written = ground arith;
      }
    ]

resolve_dispute-row :
    (now id admin : ℕ) (how : PenaltyResolution) (notes : Option ℕ) (db : Db) {db' : Db}
    {p r : Penalty}
    → find_penalty id db.penalties ≡ some p
    → resolve_dispute now id admin how notes db ≡ ok (db', r)
    → (r.id ≡ p.id)
      × (r.group_id ≡ p.group_id)
      × (r.user_id ≡ p.user_id)
      × (is_pending_penalty r.status ≡ false)
      × (db'.penalties ≡ save_penalty r db.penalties)
unfolding resolve_dispute
resolve_dispute-row now id admin waive notes db f e = ground arith
resolve_dispute-row now id admin reject notes db f e = ground arith

-- A dispute takes the penalty out of those that block the payout of the member, and its
-- resolution, WAIVE or REJECT, does not bring it back: the member owes one pending penalty less
-- than before; penalty ids are unique.
pub dispute_escapes :
    (now id uid reason : ℕ) (hash : Option ℕ) (later admin : ℕ) (how : PenaltyResolution)
    (notes : Option ℕ) (db : Db) {db' db'' : Db} {p r : Penalty}
    → HasPenaltyKeys db
    → dispute_penalty now id uid reason hash db ≡ ok (db', p)
    → resolve_dispute later id admin how notes db' ≡ ok (db'', r)
    → (outstanding_penalties p.group_id uid db'.penalties + 1
        ≡ outstanding_penalties p.group_id uid db.penalties)
      × (outstanding_penalties p.group_id uid db''.penalties + 1
          ≡ outstanding_penalties p.group_id uid db.penalties)
dispute_escapes now id uid reason hash later admin how notes db {db'} {db''} {p} {r} keys e e' =
    let d = dispute_penalty-Disputed now id uid reason hash db e in
    let at : d.row.id ≡ id = ground (arith, find-holds (has_penalty_id id) db.penalties d.found) in
    let key : has_penalty_id id p ≡ true = ground (arith, at, d.same_key) in
    let stored : find_penalty id db'.penalties ≡ some p =
      ap (find_penalty id) d.written
      ∙ find-save (λ (x : Penalty). x.id) (has_penalty_id id) db.penalties p d.found d.same_key key
          keys in
    let (rk, rg, ru, free, written) = resolve_dispute-row later id admin how notes db' stored e' in
    let first =
      count-save (λ (x : Penalty). x.id) (is_owed uid p.group_id) (has_penalty_id id) db.penalties p
        d.found d.same_key keys in
    let second =
      count-save (λ (x : Penalty). x.id) (is_owed uid p.group_id) (has_penalty_id id) db'.penalties
        r stored rk
        (subst (HasUniqueKeys (λ (x : Penalty). x.id)) (sym d.written)
          (save-keys (λ (x : Penalty). x.id) db.penalties p keys)) in
    (
      ground (
        arith,
        first,
        ap (count_by (is_owed uid p.group_id)) d.written,
        d.owner,
        d.was_pending,
        d.same_group,
        d.same_user,
        d.disputed,
        ==_refl uid,
        ==_refl p.group_id,
      ),
      ground (
        arith,
        first,
        second,
        ap (count_by (is_owed uid p.group_id)) d.written,
        ap (count_by (is_owed uid p.group_id)) written,
        d.owner,
        d.was_pending,
        d.same_group,
        d.same_user,
        d.disputed,
        free,
        ==_refl uid,
        ==_refl p.group_id,
      ),
    )
