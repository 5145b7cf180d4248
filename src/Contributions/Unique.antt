-- ===== src/Contributions/Unique.antt =====
-- One contribution for each transaction, and for each user, group and round.
use ahjoor_backend.Common.{
  Result-cases, ℕ, ◌==◌, ◌≤◌, ◌≡◌, refl, ap, arith, Bool, false, Option, none, some, List, [], ◌∷◌,
  ◌++◌, find, count_by, ok, Option-cases, inl, inr, count_by-append,
}
use ahjoor_backend.Finance.{Contribution}
use ahjoor_backend.Entities.{Group, GroupStatus, Db, find_group, find_membership}
use ahjoor_backend.Stellar.{Outside}
use ahjoor_backend.Rounds.{try_advance_round}
use ahjoor_backend.Rounds.Advance.{try_advance_round-contributions}
use ahjoor_backend.Contributions.{
  CreateContribution, LockedRate, Verifier, verify_contribution, insert_contribution,
  store_contribution, create_contribution, clashes, has_key, is_contribution_of,
  is_suspended_member,
}

abbrev pub has_hash : ℕ → Contribution → Bool
has_hash hash c = c.transaction_hash == hash

-- The unique indexes of the table.
pub record HasUniqueRows (db : Db) : Type 0 where
  pub by_hash : (hash : ℕ) → count_by (has_hash hash) db.contributions ≤ 1
  pub by_round :
      (uid gid round : ℕ) → count_by (is_contribution_of uid gid round) db.contributions ≤ 1

-- What a stored contribution has met.
pub record Stored (dto : CreateContribution) (key : Option ℕ) (db db' : Db) (c : Contribution)
    : Type 0 where
  pub group : Group
  pub found : find_group dto.group_id db.groups ≡ some group
  pub running : group.status ≡ GroupStatus.active
  pub current : dto.round_number ≡ group.current_round
  pub allowed :
      is_suspended_member (find_membership dto.group_id dto.user_id db.memberships) ≡ false
  pub new : find (clashes dto key) db.contributions ≡ none
  pub hash : c.transaction_hash ≡ dto.transaction_hash
  pub user : c.user_id ≡ dto.user_id
  pub for_group : c.group_id ≡ dto.group_id
  pub for_round : c.round_number ≡ dto.round_number
  pub written : db'.contributions ≡ db.contributions ++ c ∷ []

insert_contribution-ok :
    (one id : ℕ) (dto : CreateContribution) (key : Option ℕ) (g : Group)
    (locked : Option (LockedRate × ℕ)) (db : Db) {db' : Db} {c : Contribution}
    → insert_contribution one id dto key g locked db ≡ ok (db', c)
    → (find (clashes dto key) db.contributions ≡ none)
      × (c.transaction_hash ≡ dto.transaction_hash)
      × (c.user_id ≡ dto.user_id)
      × (c.group_id ≡ dto.group_id)
      × (c.round_number ≡ dto.round_number)
      × (db'.contributions ≡ db.contributions ++ c ∷ [])
unfolding insert_contribution
insert_contribution-ok one id dto key g locked db e = ground arith

store_contribution-Stored :
    (v : Verifier) (now id : ℕ) (dto : CreateContribution) (key : Option ℕ) (db : Db) {db' : Db}
    {c : Contribution}
    → store_contribution v now id dto key db ≡ ok (db', c)
    → Stored dto key db db' c
unfolding store_contribution
store_contribution-Stored v now id dto key db {db'} {c} e =
    elim (Option-cases (find_group dto.group_id db.groups)) [
      | inl missing ↦ absurd (ground arith)
      | inr (g, f) ↦ elim (Option-cases (v.maintenance dto.group_id)) [
        | inr (n, m) ↦ absurd (ground arith)
        | inl usable ↦ elim (Result-cases (verify_contribution v g dto.transaction_hash)) [
          | inl (x, bad) ↦ absurd (ground arith)
          | inr (l, good) ↦ elim (Result-cases (insert_contribution v.one id dto key g l db)) [
            | inl (x, bad) ↦ absurd (ground arith)
            | inr ((d, row), done) ↦
                let (n, h, u, gg, r, w) =
                  insert_contribution-ok v.one id dto key g l db {db' = d} {c = row} done in
                let same : c ≡ row = ground arith in
                record {
                  group = g;
                  found = f;
                  running = ground arith;
                  current = ground arith;
                  allowed = ground arith;
                  new = n;
                  hash = ground (arith, same, h);
                  user = ground (arith, same, u);
                  for_group = ground (arith, same, gg);
                  for_round = ground (arith, same, r);
                  written = ground (arith, same, w);
                }
          ]
        ]
      ]
    ]

clash-free :
    (dto : CreateContribution) (key : Option ℕ) (cs : List Contribution)
    → find (clashes dto key) cs ≡ none
    → (count_by (has_hash dto.transaction_hash) cs ≡ 0)
      × (count_by (is_contribution_of dto.user_id dto.group_id dto.round_number) cs ≡ 0)
unfolding find count_by
clash-free dto key [] e = (refl, refl)
clash-free dto key (c ∷ cs) e = ground (arith, clash-free dto key cs)

Stored-HasUniqueRows :
    (dto : CreateContribution) (key : Option ℕ) (db db' : Db) (c : Contribution)
    → Stored dto key db db' c
    → HasUniqueRows db
    → HasUniqueRows db'
unfolding count_by
Stored-HasUniqueRows dto key db db' c s u =
    let (no_hash, no_round) = clash-free dto key db.contributions s.new in
    record {
      by_hash = λ hash. ground (
        arith,
        u.by_hash hash,
        no_hash,
        s.hash,
        ap (count_by (has_hash hash)) s.written,
        count_by-append (has_hash hash) db.contributions (c ∷ []),
      );
      by_round = λ uid gid round. ground (
        arith,
        u.by_round uid gid round,
        no_round,
        s.user,
        s.for_group,
        s.for_round,
        ap (count_by (is_contribution_of uid gid round)) s.written,
        count_by-append (is_contribution_of uid gid round) db.contributions (c ∷ []),
      );
    }

HasUniqueRows-same :
    (db db' : Db) → db'.contributions ≡ db.contributions → HasUniqueRows db → HasUniqueRows db'
HasUniqueRows-same db db' same u = record {
  by_hash = λ hash. omega (arith, u.by_hash hash, ap (count_by (has_hash hash)) same);
  by_round = λ uid gid round.
      omega
        (arith, u.by_round uid gid round, ap (count_by (is_contribution_of uid gid round)) same);
}

-- Whatever a createContribution is asked for and answers, also through the round that it may
-- close: no transaction is recorded twice, and no user has two contributions for a round of a
-- group, if it was so before.
pub create_contribution-HasUniqueRows :
    (out : Outside) (v : Verifier) (now id payout : ℕ) (dto : CreateContribution) (key : Option ℕ)
    (db : Db)
    → HasUniqueRows db
    → HasUniqueRows (create_contribution out v now id payout dto key db).0
unfolding create_contribution
create_contribution-HasUniqueRows out v now id payout dto key db u =
    elim (Option-cases (find (has_key key) db.contributions)) [
      | inr (old, f) ↦ rw (f, create_contribution) u
      | inl new ↦ elim (Result-cases (store_contribution v now id dto key db)) [
        | inl (x, bad) ↦ rw (new, create_contribution) (rw (bad, create_contribution) u)
        | inr ((d, c), done) ↦
            rw (new, create_contribution)
              (rw (done, create_contribution)
                (HasUniqueRows-same d (try_advance_round out payout dto.group_id d).0
                  (try_advance_round-contributions out payout dto.group_id d)
                  (Stored-HasUniqueRows dto key db d c
                    (store_contribution-Stored v now id dto key db done) u)))
      ]
    ]
